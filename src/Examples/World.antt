-- ===== src/Examples/World.antt =====
-- A world with memory, semaphores, and one answer for each kind of call.
use open_dsu.Prelude.{
  ℕ, refl, Bool, true, false, ◌&&◌, Option, none, List, [], ◌∷◌, arith, ◌==◌, if◌then◌else◌,
}
use open_dsu.Prelude.Words.{Word, Ptr, minus_one}
use open_dsu.Os.{Os, EpollEvent, Message, IsMemory, IsQuiet}
use open_dsu.Bind.Semaphores.{HasNamedSemaphores}
use open_dsu.State.{Socket, Program}

pub record State : Type 0 where
  pub memory : Ptr → ℕ → Word
  pub held : Ptr → Bool
  pub error : Word
  pub group : Word
  -- what `accept` gives, what `recv` gives, and the message that `recvmsg` gives
  pub arriving : Word
  pub received : Word
  pub message : Message
  -- the number of the next descriptor of `kernel`
  pub fresh : Word
  -- messages on the way to the process of `meeting`
  pub inbox : List Message
  -- what a descriptor below `fresh` stands for
  pub files : Word → Option ℕ
  -- what the epoll instance of `attentive` watches
  pub interest : Word → Option EpollEvent

abbrev pub small : Os
small = record {
  World = State;
  errno = λ w. w.error;
  set_errno = λ e w. record w { error = e };
  load = λ p i w. w.memory p i;
  store = λ p i v w. record w { memory = λ q j. if (p == q) && (i == j) then v else w.memory q j };
  process_group = λ w. w.group;
  killpg = λ g s w. (0, w);
  sem_wait = λ p w. (0, record w { held = λ q. if p == q then true else w.held q });
  sem_trywait = λ p w.
      if w.held p
      then (minus_one, w)
      else (0, record w { held = λ q. if p == q then true else w.held q });
  sem_post = λ p w. (0, record w { held = λ q. if p == q then false else w.held q });
  socket = λ d t p w. (9, w);
  bind = λ fd a w. (0, w);
  connect = λ fd a w. (0, w);
  listen = λ fd n w. (0, w);
  accept = λ fd w. ((w.arriving, []), w);
  accept4 = λ fd f w. ((w.arriving, []), w);
  shutdown = λ fd h w. (0, w);
  close = λ fd w. (0, w);
  dup = λ a w. (a, w);
  dup2 = λ a b w. (b, w);
  dup3 = λ a b f w. (b, w);
  fcntl = λ fd c a w. (0, w);
  ioctl = λ fd r a w. (0, w);
  read = λ fd n w. ((w.received, []), w);
  recv = λ fd n f w. ((w.received, []), w);
  recvfrom = λ fd n f w. ((w.received, [], []), w);
  recvmsg = λ fd f w. ((w.received, w.message), w);
  write = λ fd b w. (4, w);
  send = λ fd b f w. (4, w);
  sendto = λ fd b f a w. (4, w);
  sendmsg = λ fd m f w. (4, w);
  getsockopt = λ fd l n w. ((0, []), w);
  setsockopt = λ fd l n v w. (0, w);
  getsockname = λ fd w. ((0, []), w);
  getpeername = λ fd w. ((0, []), w);
  epoll_create1 = λ f w. (11, w);
  epoll_create = λ n w. (11, w);
  epoll_ctl = λ e o fd ev w. (0, w);
  epoll_wait = λ e ev m t w. ((0, ev), w);
  select = λ n r wr ex t w. ((0, r, wr, ex), w);
  ppoll = λ l n t s w. ((0, l), w);
  shm_open = λ n f w. (12, w);
  shm_unlink = λ n w. (0, w);
  ftruncate = λ fd n w. (0, w);
  mmap = λ n fd w. (0x1000, w);
  sem_open = λ n f w. (0x2000, w);
  sem_unlink = λ n w. (0, w);
  sem_init = λ p n w. (0, w);
  creat = λ n m w. (13, w);
}

pub small-IsMemory : IsMemory small
small-IsMemory = record {
  load-store = λ p i v w. ground arith;
  load-store_ne = λ p i j v w h. ground arith;
  load-close = λ p i fd w. refl;
  group-store = λ p i v w. refl;
  group-close = λ fd w. refl;
}

pub small-IsQuiet : IsQuiet small
small-IsQuiet = record {
  wait_succeeds = λ p w. refl;
  load-wait = λ p q i w. refl;
  load-post = λ p q i w. refl;
}

pub small-HasNamedSemaphores : HasNamedSemaphores small
small-HasNamedSemaphores = record { reopen = λ n w. refl; held = λ p w h. ground arith }

-- Port 80 of group 100 at version 0, and one count in `transfer`.
abbrev pub start : State
start = record {
  memory = λ p i. if i == 0 then 100 else if i == 1 then 0 else 1;
  held = λ p. false;
  error = 0;
  group = 200;
  arriving = 20;
  received = 4;
  message = record { payload = []; control = none };
  fresh = 100;
  inbox = [];
  files = λ d. none;
  interest = λ d. none;
}

-- Descriptor 5 stands for 7; 8 is the communication socket, 14 an internal connection, 15 a
-- client's.
abbrev pub web : Socket
web = record {
  fd = 5;
  fds = 15 ∷ [];
  shadowfd = 7;
  port = 80;
  ev = record { events = 1; payload = 5 };
  comfd_addr = [];
  comfds = 14 ∷ [];
  comfd = 8;
  monitoring = 1;
  version = 0;
  locked = 0;
  transfer = 1;
  blocking = 1;
  status_sem = 0x3000;
  fd_sem = 0x4000;
  status = 0x1000;
}

-- A socket that is not bound.
abbrev pub plain_socket : Socket
plain_socket = record web {
  fd = 6;
  fds = [];
  shadowfd = 6;
  comfds = [];
  comfd = minus_one;
  monitoring = 0;
}

abbrev pub server : Program
server = record {
  sockets = plain_socket ∷ [];
  binds = web ∷ [];
  live = 1;
  workers = 0x5000;
  lock = 0x6000;
}
