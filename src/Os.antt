-- ===== src/Os.antt =====
-- What the library calls and does not implement: the C library's functions behind the `dsu_*`
-- pointers that `dsu_init` resolves (src/core.c), semaphores and shared memory.
use open_dsu.Prelude.{ℕ, List, Option, Bool, ◌≡◌, ◌≢◌}
use open_dsu.Prelude.Words.{Word, Ptr}

-- A peer address, as the bytes that the kernel writes.
abbrev pub Bytes : Type 0
Bytes = List ℕ

-- `struct epoll_event`: the mask, and the 64 bits of the union `data`.
pub record EpollEvent : Type 0 where
  pub events : Word
  pub payload : ℕ

-- `struct pollfd`.
pub record PollFd : Type 0 where
  pub fd : Word
  pub events : Word
  pub revents : Word

-- `fd_set`: the descriptors that are in it.
abbrev pub FdSet : Type 0
FdSet = Word → Bool

-- Seconds, and micro- or nanoseconds.
pub record Timeout : Type 0 where
  pub sec : Word
  pub rest : ℕ

-- A control message with a descriptor, and a message on a stream of `msghdr`s.
pub record Control : Type 0 where
  pub len : Word
  pub level : Word
  pub kind : Word
  pub fd : Word

pub record Message : Type 0 where
  pub payload : Bytes
  pub control : Option Control

-- `World` is all that lies outside of the process: the kernel, shared memory, the other processes.
-- A call may change it in any way, so it also stands for what others do while the call runs.
pub record Os : Type 1 where
  pub World : Type 0
  pub errno : World → Word
  pub set_errno : Word → World → World
  -- `p[i]` of an array of `int` in shared memory
  pub load : Ptr → ℕ → World → Word
  pub store : Ptr → ℕ → Word → World → World
  -- `getpgid(getpid())`
  pub process_group : World → Word
  pub killpg : Word → Word → World → Word × World
  pub sem_wait : Ptr → World → Word × World
  pub sem_trywait : Ptr → World → Word × World
  pub sem_post : Ptr → World → Word × World
  pub socket : Word → Word → Word → World → Word × World
  pub bind : Word → Bytes → World → Word × World
  pub connect : Word → Bytes → World → Word × World
  pub listen : Word → Word → World → Word × World
  -- the new descriptor and the peer's address
  pub accept : Word → World → (Word × Bytes) × World
  pub accept4 : Word → Word → World → (Word × Bytes) × World
  pub shutdown : Word → Word → World → Word × World
  pub close : Word → World → Word × World
  pub dup : Word → World → Word × World
  pub dup2 : Word → Word → World → Word × World
  pub dup3 : Word → Word → Word → World → Word × World
  pub fcntl : Word → Word → Ptr → World → Word × World
  pub ioctl : Word → ℕ → Ptr → World → Word × World
  -- the number of bytes, 0 or -1, and what arrived
  pub read : Word → ℕ → World → (Word × Bytes) × World
  pub recv : Word → ℕ → Word → World → (Word × Bytes) × World
  pub recvfrom : Word → ℕ → Word → World → (Word × Bytes × Bytes) × World
  pub recvmsg : Word → Word → World → (Word × Message) × World
  pub write : Word → Bytes → World → Word × World
  pub send : Word → Bytes → Word → World → Word × World
  pub sendto : Word → Bytes → Word → Bytes → World → Word × World
  pub sendmsg : Word → Message → Word → World → Word × World
  pub getsockopt : Word → Word → Word → World → (Word × Bytes) × World
  pub setsockopt : Word → Word → Word → Bytes → World → Word × World
  pub getsockname : Word → World → (Word × Bytes) × World
  pub getpeername : Word → World → (Word × Bytes) × World
  pub epoll_create1 : Word → World → Word × World
  pub epoll_create : Word → World → Word × World
  -- `epfd`, the operation, the descriptor and the event, where it is not NULL
  pub epoll_ctl : Word → Word → Word → Option EpollEvent → World → Word × World
  -- the number of events or -1, and the array `events` after the call
  pub epoll_wait : Word → List EpollEvent → Word → Word → World → (Word × List EpollEvent) × World
  -- the number of descriptors or -1, and the three sets after the call
  pub select :
      Word
      → Option FdSet
      → Option FdSet
      → Option FdSet
      → Option Timeout
      → World
      → (Word × Option FdSet × Option FdSet × Option FdSet) × World
  -- the number of descriptors or -1, and the array after the call
  pub ppoll : List PollFd → ℕ → Option Timeout → Ptr → World → (Word × List PollFd) × World
  -- by name and flags
  pub shm_open : Bytes → Word → World → Word × World
  pub shm_unlink : Bytes → World → Word × World
  pub ftruncate : Word → ℕ → World → Word × World
  -- the length and the descriptor; -1 as an address is a failure
  pub mmap : ℕ → Word → World → Ptr × World
  -- by name and flags, with the initial value 1
  pub sem_open : Bytes → Word → World → Ptr × World
  pub sem_unlink : Bytes → World → Word × World
  pub sem_init : Ptr → Word → World → Word × World
  pub creat : Bytes → Word → World → Word × World

-- Shared memory behaves as memory does, and no call that a lock's holder makes changes `status`.
pub record IsMemory (os : Os) : Type 0 where
  pub load-store : (p : Ptr) (i : ℕ) (v : Word) (w : os.World) → os.load p i (os.store p i v w) ≡ v
  pub load-store_ne :
      (p : Ptr) (i j : ℕ) (v : Word) (w : os.World)
      → i ≢ j
      → os.load p j (os.store p i v w) ≡ os.load p j w
  pub load-close :
      (p : Ptr) (i : ℕ) (fd : Word) (w : os.World) → os.load p i (os.close fd w).1 ≡ os.load p i w
  pub group-store :
      (p : Ptr) (i : ℕ) (v : Word) (w : os.World)
      → os.process_group (os.store p i v w) ≡ os.process_group w
  pub group-close :
      (fd : Word) (w : os.World) → os.process_group (os.close fd w).1 ≡ os.process_group w

-- The semaphores work, and nobody changes shared memory while they are taken and given back.
pub record IsQuiet (os : Os) : Type 0 where
  pub wait_succeeds : (p : Ptr) (w : os.World) → (os.sem_wait p w).0 ≡ 0
  pub load-wait :
      (p q : Ptr) (i : ℕ) (w : os.World) → os.load q i (os.sem_wait p w).1 ≡ os.load q i w
  pub load-post :
      (p q : Ptr) (i : ℕ) (w : os.World) → os.load q i (os.sem_post p w).1 ≡ os.load q i w
