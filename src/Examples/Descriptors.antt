-- ===== src/Examples/Descriptors.antt =====
-- The theorems on open descriptors, and on processes in any order, at concrete runs.
use open_dsu.Prelude.{◌≡◌, ◌≤◌, refl, ◌+◌, none, [], ◌∷◌, arith, ◌==◌, ◌&&◌, ltb, if◌then◌else◌}
use open_dsu.Prelude.Words.{Word}
use open_dsu.Os.{Os, Bytes}
use open_dsu.State.{Program, search, sockets_add}
use open_dsu.Core.{Run, returns, exits}
use open_dsu.Calls.{socket, accept, close}
use open_dsu.Calls.Roles.{roles}
use open_dsu.Bind.{bind}
use open_dsu.Start.{init}
use open_dsu.Descriptors.{HasDescriptors}
use open_dsu.Descriptors.Reach.{Reach, begun, next, by_socket, by_bind, by_accept}
use open_dsu.Descriptors.Reachable.{reachable-roles, reachable-close}
use open_dsu.Examples.World.{State, small, start, web}

-- The small world with a table of descriptors: those below `fresh` are open.
abbrev kernel : Os
kernel = record small {
  socket = λ d t p w. (w.fresh, record w { fresh = w.fresh + 1 });
  accept = λ fd w. ((w.fresh, []), record w { fresh = w.fresh + 1 });
  accept4 = λ fd f w. ((w.fresh, []), record w { fresh = w.fresh + 1 });
  recvmsg = λ fd f w. ((w.received, record { payload = []; control = none }), w);
}

kernel-HasDescriptors : HasDescriptors kernel
kernel-HasDescriptors = record {
  opened = λ b w. if ltb b w.fresh then 1 else 0;
  at_most_one = λ b w. ground arith;
  socket_opens = λ d t p b w. ground arith;
  accept_opens = λ fd b w. ground arith;
  accept4_opens = λ fd f b w. ground arith;
  recvmsg_opens = λ fd f b w. ground arith;
  close_closes = λ fd b w. ground arith;
  store_keeps = λ p i v b w. omega arith;
  set_errno_keeps = λ e b w. omega arith;
  sem_wait_keeps = λ p b w. omega arith;
  sem_trywait_keeps = λ p b w. ground arith;
  sem_post_keeps = λ p b w. omega arith;
  bind_keeps = λ fd a b w. omega arith;
  connect_keeps = λ fd a b w. omega arith;
  listen_keeps = λ fd n b w. omega arith;
  shutdown_keeps = λ fd h b w. omega arith;
  dup_keeps = λ a b w. omega arith;
  dup2_keeps = λ a b1 b w. omega arith;
  dup3_keeps = λ a b1 f b w. omega arith;
  fcntl_keeps = λ fd c a b w. omega arith;
  ioctl_keeps = λ fd r a b w. omega arith;
  read_keeps = λ fd n b w. omega arith;
  recv_keeps = λ fd n f b w. omega arith;
  recvfrom_keeps = λ fd n f b w. omega arith;
  write_keeps = λ fd b1 b w. omega arith;
  send_keeps = λ fd b1 f b w. omega arith;
  sendto_keeps = λ fd b1 f a b w. omega arith;
  sendmsg_keeps = λ fd m f b w. omega arith;
  getsockopt_keeps = λ fd l n b w. omega arith;
  setsockopt_keeps = λ fd l n v b w. omega arith;
  getsockname_keeps = λ fd b w. omega arith;
  getpeername_keeps = λ fd b w. omega arith;
  epoll_create1_keeps = λ f b w. omega arith;
  epoll_create_keeps = λ n b w. omega arith;
  epoll_ctl_keeps = λ e o fd ev b w. omega arith;
  epoll_wait_keeps = λ e evs n t b w. omega arith;
  select_keeps = λ n r v x t b w. omega arith;
  ppoll_keeps = λ fds n t m b w. omega arith;
  shm_open_keeps = λ n f b w. omega arith;
  shm_unlink_keeps = λ n b w. omega arith;
  ftruncate_keeps = λ fd n b w. omega arith;
  mmap_keeps = λ n fd b w. omega arith;
  sem_open_keeps = λ n f b w. omega arith;
  sem_unlink_keeps = λ n b w. omega arith;
  sem_init_keeps = λ p v b w. omega arith;
  creat_keeps = λ n m b w. omega arith;
}

abbrev empty : Program
empty = record { sockets = []; binds = []; live = 0; workers = 0x1000; lock = 0x2000 }

-- `dsu_init`, then `socket`, and `bind` to port 80.
abbrev after_init : State
after_init = record start {
  memory = λ p i. if (0x1000 == p) && (0 == i) then 0 else start.memory p i;
}

abbrev opened1 : (Word × Program) × State
opened1 = socket kernel 2 1 0 web empty after_init

abbrev bound : Run State (Word × Program)
bound = bind kernel 0 [] 100 (2 ∷ 0 ∷ 0 ∷ 80 ∷ []) opened1.0.1 opened1.1

abbrev bound_program : Program
bound_program = elim bound [ returns r w ↦ r.1 | exits _ _ ↦ empty ]

abbrev bound_world : State
bound_world = elim bound [ returns r w ↦ w | exits _ w ↦ w ]

abbrev bound_result : Word
bound_result = elim bound [ returns r w ↦ r.0 | exits _ w ↦ 0 ]

abbrev client : ((Word × Bytes) × Program) × State
client = accept kernel 100 bound_program bound_world

listening : Reach kernel bound_program bound_world
unfolding init socket bind search sockets_add
listening =
    next (next (begun start refl) (by_socket 2 1 0 web _ refl))
      (by_bind 0 [] 100 (2 ∷ 0 ∷ 0 ∷ 80 ∷ []) bound_result refl)

connected : Reach kernel client.0.1 client.1
connected = next listening (by_accept 100 client.0.0 refl)

reachable-roles_example :
    (roles 102 client.0.1 ≤ 1)
    × (kernel-HasDescriptors.opened 102 client.1 ≡ 0 → roles 102 client.0.1 ≡ 0)
reachable-roles_example =
    reachable-roles kernel kernel-HasDescriptors 102 connected (omega arith) (omega arith)

reachable-close_example : roles 102 (close kernel 102 client.0.1 client.1).0.1 ≡ 0
reachable-close_example =
    reachable-close kernel kernel-HasDescriptors 102 connected (omega arith) (omega arith)
