-- ===== src/Descriptors/Reachable.antt =====
-- What holds of the shadow data structures in every state that a process reaches.
use open_dsu.Prelude.{
  ◌+◌, ◌≤◌, ◌<◌, ◌≡◌, ◌≢◌, refl, Option, none, some, [], arith, subst, ◌||◌, ◌==◌, Option-cases,
  inl, inr, Bool-cases,
}
use open_dsu.Prelude.Words.{Word, Ptr, minus_one}
use open_dsu.Os.{Os, Bytes, EpollEvent}
use open_dsu.State.{Socket, Program, modify, has_fd, sockets_search_fd, shadowfd}
use open_dsu.Calls.{close}
use open_dsu.Calls.Close.{close_forgets}
use open_dsu.Calls.Roles.{roles, roles_at, sum-modify, count-modify}
use open_dsu.Wrappers
use open_dsu.Wrappers.Transparent.{
  Request, wrapped, dup, dup2, dup3, creat, read, recv, recvfrom, recvmsg, write, send, sendto,
  sendmsg, listen, shutdown, getsockopt, setsockopt, getsockname, getpeername, fcntl, ioctl,
}
use open_dsu.Epoll.{store_event, no_event, epoll_ctl_add, epoll_ctl_mod}
use open_dsu.Epoll.Handlers.{epoll_ctl}
use open_dsu.Bind.{o_creat, o_excl, o_rdwr}
use open_dsu.Start.{o_trunc, state_path, lock_name, init}
use open_dsu.Descriptors.{HasDescriptors, IsExclusive}
use open_dsu.Descriptors.Events.{ConservesRun, IsExclusive-Conserves}
use open_dsu.Descriptors.Handling.{epoll_wait-Conserves, ConservesRounds, select-Conserves}
use open_dsu.Descriptors.Polling.{ConservesPoll, ppoll-Conserves}
use open_dsu.Descriptors.Exclusive.{
  LeavesExclusive, leaves, socket-IsExclusive, bind-IsExclusive, accept-IsExclusive,
  accept4-IsExclusive, close-IsExclusive,
}
use open_dsu.Descriptors.Reach.{
  Step, Reach, by_socket, by_bind, by_accept, by_accept4, by_close, by_request, by_epoll_ctl,
  by_epoll_wait, by_select, by_ppoll, begun, next,
}

module _ (os : Os) (d : HasDescriptors os) where
  open d use {opened}

  wrapped-Keeps :
      (p : Program) (r : Request) (b : Word) (w : os.World)
      → opened b w ≤ opened b (wrapped os p r w).1
  unfolding Wrappers.dup Wrappers.dup2 Wrappers.dup3 Wrappers.creat Wrappers.read Wrappers.recv
      Wrappers.recvfrom Wrappers.recvmsg Wrappers.write Wrappers.send Wrappers.sendto
      Wrappers.sendmsg Wrappers.listen Wrappers.shutdown Wrappers.getsockopt Wrappers.setsockopt
      Wrappers.getsockname Wrappers.getpeername Wrappers.fcntl Wrappers.ioctl
  wrapped-Keeps p (dup a) b w = d.dup_keeps _ b w
  wrapped-Keeps p (dup2 a c) b w = d.dup2_keeps _ _ b w
  wrapped-Keeps p (dup3 a c f) b w = d.dup3_keeps _ _ _ b w
  wrapped-Keeps p (creat n m) b w = d.creat_keeps _ _ b w
  wrapped-Keeps p (read a n) b w = d.read_keeps _ _ b w
  wrapped-Keeps p (recv a n f) b w = d.recv_keeps _ _ _ b w
  wrapped-Keeps p (recvfrom a n f) b w = d.recvfrom_keeps _ _ _ b w
  wrapped-Keeps p (recvmsg a f) b w = omega (arith, d.recvmsg_opens (shadowfd p a) f b w)
  wrapped-Keeps p (write a c) b w = d.write_keeps _ _ b w
  wrapped-Keeps p (send a c f) b w = d.send_keeps _ _ _ b w
  wrapped-Keeps p (sendto a c f e) b w = d.sendto_keeps _ _ _ _ b w
  wrapped-Keeps p (sendmsg a m f) b w = d.sendmsg_keeps _ _ _ b w
  wrapped-Keeps p (listen a n) b w = d.listen_keeps _ _ b w
  wrapped-Keeps p (shutdown a h) b w = d.shutdown_keeps _ _ b w
  wrapped-Keeps p (getsockopt a l n) b w = d.getsockopt_keeps _ _ _ b w
  wrapped-Keeps p (setsockopt a l n v) b w = d.setsockopt_keeps _ _ _ _ b w
  wrapped-Keeps p (getsockname a) b w = d.getsockname_keeps _ b w
  wrapped-Keeps p (getpeername a) b w = d.getpeername_keeps _ b w
  wrapped-Keeps p (fcntl a c g) b w = d.fcntl_keeps _ _ _ b w
  wrapped-Keeps p (ioctl a r g) b w = d.ioctl_keeps _ _ _ b w

  -- A state stays exclusive while nothing that it knows is closed.
  kept :
      (p : Program) (w w' : os.World)
      → ((b : Word) → opened b w ≤ opened b w')
      → IsExclusive d p w
      → IsExclusive d p w'
  kept p w w' f e = record {
    known = λ b low nb. omega (arith, e.known b low nb, f b);
    plain = e.plain;
  }

  store_event-roles :
      (event : Option EpollEvent) (b : Word) (s : Socket)
      → (roles_at b (store_event event s) ≡ roles_at b s) × ((store_event event s).fd ≡ s.fd)
  store_event-roles none b s = (refl, refl)
  store_event-roles (some e) b s = (refl, refl)

  modify-IsExclusive :
      (event : Option EpollEvent) (fd : Word) (p : Program) (w w' : os.World) {s : Socket}
      → sockets_search_fd p.binds fd ≡ some s
      → ((b : Word) → opened b w ≤ opened b w')
      → IsExclusive d p w
      → IsExclusive d (record p { binds = modify (has_fd fd) (store_event event) p.binds }) w'
  modify-IsExclusive event fd p w w' {s} found f e = record {
    known = λ b low nb. omega (
      arith,
      e.known b low nb,
      f b,
      sum-modify (roles_at b) (has_fd fd) (store_event event) p.binds found,
      (store_event-roles event b s).0,
      count-modify (has_fd fd) (store_event event) p.binds b (λ t. (store_event-roles event b t).1),
    );
    plain = e.plain;
  }

  epoll_ctl-IsExclusive :
      (epfd op fd : Word) (event : Option EpollEvent) (p : Program) (w : os.World)
      → IsExclusive d p w
      → let ((_, p'), w') = epoll_ctl os p epfd op fd event w in IsExclusive d p' w'
  unfolding epoll_ctl
  epoll_ctl-IsExclusive epfd op fd event p w e =
      elim (Option-cases (sockets_search_fd p.binds fd)) [
        | inl free ↦
            rw (free, epoll_ctl) (kept p w _ (λ b. d.epoll_ctl_keeps epfd op fd event b w) e)
        | inr (s, found) ↦
            let opens = λ (b : Word). d.epoll_ctl_keeps epfd op s.shadowfd event b w in
            elim (Bool-cases (op == epoll_ctl_add || op == epoll_ctl_mod)) [
              | inl sets ↦
                  rw (found, epoll_ctl)
                    (rw (sets, epoll_ctl) (modify-IsExclusive event fd p w _ found opens e))
              | inr clears ↦
                  rw (found, epoll_ctl)
                    (rw (clears, epoll_ctl)
                      (modify-IsExclusive (some no_event) fd p w _ found opens e))
            ]
      ]

  empty-IsExclusive :
      (workers lock : Ptr) (w : os.World)
      → IsExclusive d
          (record { sockets = []; binds = []; live = 0; workers = workers; lock = lock })
          w
  empty-IsExclusive workers lock w = record { known = λ b low nb. omega arith; plain = tt }

  init-IsExclusive : (w : os.World) → LeavesExclusive os d (λ q. q) (init os w)
  unfolding init
  init-IsExclusive w =
      let group : Word = os.process_group w in
      let (_, w1) = os.shm_unlink (state_path group) w in
      let (shfd, w2) = os.shm_open (state_path group) (o_creat + o_rdwr + o_trunc) w1 in
      let (sized, w3) = os.ftruncate shfd 4 w2 in
      let (workers, w4) = os.mmap 4 shfd w3 in
      let w5 = os.store workers 0 0 w4 in
      let (_, w6) = os.sem_unlink (lock_name (os.process_group w5)) w5 in
      let (lock, w7) = os.sem_open (lock_name (os.process_group w5)) (o_creat + o_excl) w6 in
      leaves os d {A = Program} (λ q. q) _ _ _ w2 w3 w4 _ _
        (empty-IsExclusive workers lock (os.sem_init lock 1 w7).1)

  Step-IsExclusive :
      {p p' : Program} {w w' : os.World}
      → Step os p w p' w'
      → IsExclusive d p w
      → IsExclusive d p' w'
  Step-IsExclusive {p} {p'} {w} {w'} (by_socket domain type protocol stale r e) h =
      subst (λ (x : (Word × Program) × os.World). IsExclusive d x.0.1 x.1) e
        (socket-IsExclusive os d domain type protocol stale p w h)
  Step-IsExclusive {p} {p'} {w} {w'} (by_bind flags_addr stale sockfd addr r e) h =
      subst (LeavesExclusive os d (λ x. x.1)) e
        (bind-IsExclusive os d flags_addr stale sockfd addr p w h)
  Step-IsExclusive {p} {p'} {w} {w'} (by_accept fd c e) h =
      subst (λ (x : ((Word × Bytes) × Program) × os.World). IsExclusive d x.0.1 x.1) e
        (accept-IsExclusive os d fd p w h)
  Step-IsExclusive {p} {p'} {w} {w'} (by_accept4 fd flags c e) h =
      subst (λ (x : ((Word × Bytes) × Program) × os.World). IsExclusive d x.0.1 x.1) e
        (accept4-IsExclusive os d fd flags p w h)
  Step-IsExclusive {p} {p'} {w} {w'} (by_close fd r e) h =
      subst (λ (x : (Word × Program) × os.World). IsExclusive d x.0.1 x.1) e
        (close-IsExclusive os d fd p w h)
  Step-IsExclusive {p} {p'} {w} {w'} (by_request request same ends) h =
      rw (same, ends) (kept p w _ (λ b. wrapped-Keeps p request b w) h)
  Step-IsExclusive {p} {p'} {w} {w'} (by_epoll_ctl epfd op fd event r e) h =
      subst (λ (x : (Word × Program) × os.World). IsExclusive d x.0.1 x.1) e
        (epoll_ctl-IsExclusive epfd op fd event p w h)
  Step-IsExclusive {p} {p'} {w} {w'} (by_epoll_wait stale epfd events maxevents timeout r e) h =
      IsExclusive-Conserves os d p p' w w'
        (subst (ConservesRun os d (λ x. x.0) p w) e
          (epoll_wait-Conserves os d stale p epfd events maxevents timeout w))
        h
  Step-IsExclusive {p} {p'} {w} {w'} (by_select rounds nfds rd wr ex timeout n r e same) h =
      rw same (
        IsExclusive-Conserves os d p r.program w w'
          (subst (ConservesRounds os d p w) e
            (select-Conserves os d rounds p nfds rd wr ex timeout n w))
          h)
  Step-IsExclusive {p} {p'} {w} {w'} (by_ppoll fds timeout_ts sigmask r e same) h = rw same (
      IsExclusive-Conserves os d p r.program w w'
        (subst (ConservesPoll os d p w) e (ppoll-Conserves os d p fds timeout_ts sigmask w)) h)

  pub Reach-IsExclusive : {p : Program} {w : os.World} → Reach os p w → IsExclusive d p w
  Reach-IsExclusive (begun w0 e) = subst (LeavesExclusive os d (λ q. q)) e (init-IsExclusive w0)
  Reach-IsExclusive (next r st) = Step-IsExclusive st (Reach-IsExclusive r)

  -- Where calls open and close descriptors as `HasDescriptors` states, and under any other answers
  -- of theirs: in every state that a process reaches by wrapped calls from `dsu_init` on, a
  -- descriptor beyond the standard ones, and not -1, is known in at most one role, and in none if it
  -- is not open.
  pub reachable-roles :
      {p : Program} {w : os.World} (b : Word)
      → Reach os p w
      → 2 < b
      → b ≢ minus_one
      → (roles b p ≤ 1) × (opened b w ≡ 0 → roles b p ≡ 0)
  reachable-roles {p} {w} b r low nb =
      let held = (Reach-IsExclusive r).known b low nb in
      (omega (arith, held, d.at_most_one b w), λ closed. omega (arith, held))

  -- Under the same condition, in every state that a process reaches by wrapped calls from
  -- `dsu_init` on, `close` leaves its descriptor, beyond the standard ones and not -1, in no role.
  pub reachable-close :
      {p : Program} {w : os.World} (fd : Word)
      → Reach os p w
      → 2 < fd
      → fd ≢ minus_one
      → roles fd (close os fd p w).0.1 ≡ 0
  reachable-close {p} {w} fd r low nb = close_forgets os fd p w low (reachable-roles fd r low nb).0
