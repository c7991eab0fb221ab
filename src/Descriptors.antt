-- ===== src/Descriptors.antt =====
-- The descriptors that a process has open, against those that the program state knows (src/state.h):
-- the invariant that ties the shadow data structures of all wrapped calls to the kernel's table.
pub mod Protocol
pub mod Handlers
pub mod Pass
pub mod Epoll
pub mod Poll
pub mod Events
pub mod Handling
pub mod Polling
pub mod Binding
pub mod Roles
pub mod Exclusive
pub mod Reach
pub mod Reachable
use open_dsu.Prelude.{
  ℕ, ◌+◌, ◌≤◌, ◌<◌, ◌≡◌, ◌≢◌, Bool, true, ◌&&◌, Option, none, some, List, [], ◌==◌, if◌then◌else◌,
  All,
}
use open_dsu.Prelude.Words.{Word, Ptr, minus_one, lt_int}
use open_dsu.Prelude.Monad.{Cmd}
use open_dsu.Os.{Os, Bytes, EpollEvent, PollFd, FdSet, Timeout, Message}
use open_dsu.State.{Socket, Program}
use open_dsu.Messages.{cmsg_len_int, sol_socket, scm_rights}
use open_dsu.Calls.Roles.{roles}

-- Whether a call that gives a descriptor or -1 gave this one.
abbrev pub gained : Word → Word → ℕ
gained b r = if r == minus_one then 0 else if r == b then 1 else 0

-- Whether a message that was received carries this descriptor.
abbrev pub passed : Word → Word → Message → ℕ
passed b n m = elim m.control [
  | none ↦ 0
  | some c ↦
      if lt_int 0 n && c.len == cmsg_len_int && c.level == sol_socket && c.kind == scm_rights
      then gained b c.fd
      else 0
]

-- A call closes no descriptor.
abbrev pub Keeps : {W A : Type 0} → (Word → W → ℕ) → Cmd W A → Type 0
Keeps {W} opened m = (b : Word) (w : W) → opened b w ≤ opened b (m w).1

-- `opened b w` is 1 where the process has `b` open, and otherwise 0. A call that makes a descriptor
-- gives one that was not open, `close` closes one, and no other call closes any: `dup2` opens again
-- what it closes.
pub record HasDescriptors (os : Os) : Type 0 where
  pub opened : Word → os.World → ℕ
  pub at_most_one : (b : Word) (w : os.World) → opened b w ≤ 1
  pub socket_opens :
      (d t p b : Word) (w : os.World)
      → opened b w + gained b (os.socket d t p w).0 ≤ opened b (os.socket d t p w).1
  pub accept_opens :
      (fd b : Word) (w : os.World)
      → opened b w + gained b (os.accept fd w).0.0 ≤ opened b (os.accept fd w).1
  pub accept4_opens :
      (fd f b : Word) (w : os.World)
      → opened b w + gained b (os.accept4 fd f w).0.0 ≤ opened b (os.accept4 fd f w).1
  pub recvmsg_opens :
      (fd f b : Word) (w : os.World)
      → opened b w + passed b (os.recvmsg fd f w).0.0 (os.recvmsg fd f w).0.1
        ≤ opened b (os.recvmsg fd f w).1
  pub close_closes :
      (fd b : Word) (w : os.World)
      → opened b w ≤ opened b (os.close fd w).1 + (if fd == b then 1 else 0)
  pub store_keeps :
      (p : Ptr) (i : ℕ) (v : Word) (b : Word) (w : os.World)
      → opened b w ≤ opened b (os.store p i v w)
  pub set_errno_keeps :
      (e : Word) (b : Word) (w : os.World) → opened b w ≤ opened b (os.set_errno e w)
  pub sem_wait_keeps : (p : Ptr) → Keeps opened (os.sem_wait p)
  pub sem_trywait_keeps : (p : Ptr) → Keeps opened (os.sem_trywait p)
  pub sem_post_keeps : (p : Ptr) → Keeps opened (os.sem_post p)
  pub bind_keeps : (fd : Word) (a : Bytes) → Keeps opened (os.bind fd a)
  pub connect_keeps : (fd : Word) (a : Bytes) → Keeps opened (os.connect fd a)
  pub listen_keeps : (fd n : Word) → Keeps opened (os.listen fd n)
  pub shutdown_keeps : (fd h : Word) → Keeps opened (os.shutdown fd h)
  pub dup_keeps : (a : Word) → Keeps opened (os.dup a)
  pub dup2_keeps : (a b : Word) → Keeps opened (os.dup2 a b)
  pub dup3_keeps : (a b f : Word) → Keeps opened (os.dup3 a b f)
  pub fcntl_keeps : (fd c : Word) (a : Ptr) → Keeps opened (os.fcntl fd c a)
  pub ioctl_keeps : (fd : Word) (r : ℕ) (a : Ptr) → Keeps opened (os.ioctl fd r a)
  pub read_keeps : (fd : Word) (n : ℕ) → Keeps opened (os.read fd n)
  pub recv_keeps : (fd : Word) (n : ℕ) (f : Word) → Keeps opened (os.recv fd n f)
  pub recvfrom_keeps : (fd : Word) (n : ℕ) (f : Word) → Keeps opened (os.recvfrom fd n f)
  pub write_keeps : (fd : Word) (b : Bytes) → Keeps opened (os.write fd b)
  pub send_keeps : (fd : Word) (b : Bytes) (f : Word) → Keeps opened (os.send fd b f)
  pub sendto_keeps :
      (fd : Word) (b : Bytes) (f : Word) (a : Bytes) → Keeps opened (os.sendto fd b f a)
  pub sendmsg_keeps : (fd : Word) (m : Message) (f : Word) → Keeps opened (os.sendmsg fd m f)
  pub getsockopt_keeps : (fd l n : Word) → Keeps opened (os.getsockopt fd l n)
  pub setsockopt_keeps : (fd l n : Word) (v : Bytes) → Keeps opened (os.setsockopt fd l n v)
  pub getsockname_keeps : (fd : Word) → Keeps opened (os.getsockname fd)
  pub getpeername_keeps : (fd : Word) → Keeps opened (os.getpeername fd)
  pub epoll_create1_keeps : (f : Word) → Keeps opened (os.epoll_create1 f)
  pub epoll_create_keeps : (n : Word) → Keeps opened (os.epoll_create n)
  pub epoll_ctl_keeps :
      (e o fd : Word) (ev : Option EpollEvent) → Keeps opened (os.epoll_ctl e o fd ev)
  pub epoll_wait_keeps :
      (e : Word) (evs : List EpollEvent) (n t : Word) → Keeps opened (os.epoll_wait e evs n t)
  pub select_keeps :
      (n : Word) (r v x : Option FdSet) (t : Option Timeout) → Keeps opened (os.select n r v x t)
  pub ppoll_keeps :
      (fds : List PollFd) (n : ℕ) (t : Option Timeout) (m : Ptr) → Keeps opened (os.ppoll fds n t m)
  pub shm_open_keeps : (n : Bytes) (f : Word) → Keeps opened (os.shm_open n f)
  pub shm_unlink_keeps : (n : Bytes) → Keeps opened (os.shm_unlink n)
  pub ftruncate_keeps : (fd : Word) (n : ℕ) → Keeps opened (os.ftruncate fd n)
  pub mmap_keeps : (n : ℕ) (fd : Word) → Keeps opened (os.mmap n fd)
  pub sem_open_keeps : (n : Bytes) (f : Word) → Keeps opened (os.sem_open n f)
  pub sem_unlink_keeps : (n : Bytes) → Keeps opened (os.sem_unlink n)
  pub sem_init_keeps : (p : Ptr) (v : Word) → Keeps opened (os.sem_init p v)
  pub creat_keeps : (n : Bytes) (m : Word) → Keeps opened (os.creat n m)

-- No descriptor beyond the standard ones is known in two roles, or known and not open. A node that
-- is not bound has no connections.
pub record IsExclusive {os : Os} (d : HasDescriptors os) (p : Program) (w : os.World) : Type 0 where
  pub known : (b : Word) → 2 < b → b ≢ minus_one → roles b p ≤ d.opened b w
  pub plain : All (λ s. (s.fds ≡ []) × (s.comfds ≡ [])) p.sockets
