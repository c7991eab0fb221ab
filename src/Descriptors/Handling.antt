-- ===== src/Descriptors/Handling.antt =====
-- `epoll_wait`, `select` and `ppoll`, as a whole, keep to the open descriptors.
use open_dsu.Prelude.{
  ℕ, zero, suc, ◌≡◌, refl, ◌∙◌, Bool, true, false, Option, none, some, List, arith, ◌==◌,
  if◌then◌else◌, Option-cases, inl, inr,
}
use open_dsu.Prelude.Words.{Word}
use open_dsu.Os.{Os, EpollEvent, FdSet, Timeout}
use open_dsu.State.{Socket, Program}
use open_dsu.Core.{Run, returns, exits, forall_sockets, initialize_event}
use open_dsu.Core.Event.{Run-cases}
use open_dsu.Select.{Globals, pass, handle_step, post_select}
use open_dsu.Select.Loop.{Round, pre_step, sniff_sets, select_round, select}
use open_dsu.Epoll.{rounds_of}
use open_dsu.Epoll.Handlers.{
  pre_epoll, post_epoll, epoll_wait, epoll_shadowfd, epoll_internal_conn, epoll_unlock,
  epoll_originalfd, handle_all_epoll,
}
use open_dsu.Descriptors.{HasDescriptors}
use open_dsu.Descriptors.Protocol.{Conserves}
use open_dsu.Descriptors.Handlers.{
  pre_select-Conserves, post_select-Conserves, handle_conn-Conserves,
}
use open_dsu.Descriptors.Pass.{
  ConservesAll, ConservesAll-trans, forall_sockets-Conserves, pass-Conserves,
}
use open_dsu.Descriptors.Epoll.{
  epoll_shadowfd-Conserves, epoll_internal_conn-Conserves, epoll_unlock-Conserves,
  epoll_originalfd-Conserves, handle_all_epoll-Conserves,
}
use open_dsu.Descriptors.Events.{
  ConservesProgram, ConservesRun, ConservesAll-before, initialize_event-Conserves,
}

module _ (os : Os) (d : HasDescriptors os) where
  open d use {opened}

  pre_epoll-Conserves :
      (stale : EpollEvent) (epollfd : Word) (l : List Socket) (w : os.World)
      → let (l', w') = pre_epoll os stale epollfd l w in ConservesAll os d l w l' w'
  unfolding pre_epoll
  pre_epoll-Conserves stale epollfd l w =
      let (l1, w1) = forall_sockets (epoll_shadowfd os epollfd) l w in
      let (l2, w2) = forall_sockets (epoll_internal_conn os stale epollfd) l1 w1 in
      ConservesAll-trans os d l l1 l2 w w1 w2
        (forall_sockets-Conserves os d (epoll_shadowfd os epollfd)
          (epoll_shadowfd-Conserves os d epollfd) l w)
        (forall_sockets-Conserves os d (epoll_internal_conn os stale epollfd)
          (epoll_internal_conn-Conserves os d stale epollfd) l1 w1)

  post_epoll-Conserves :
      (p : Program) (epollfd nfds : Word) (events : List EpollEvent) (w : os.World)
      → let ((p', _), w') = post_epoll os p epollfd nfds events w in ConservesProgram os d p w p' w'
  unfolding post_epoll
  post_epoll-Conserves p epollfd nfds events w =
      let ((l1, _), w1) = handle_all_epoll os epollfd (rounds_of nfds) p.binds events w in
      let (l2, w2) = forall_sockets (epoll_unlock os) l1 w1 in
      let (l3, w3) = forall_sockets (epoll_originalfd os epollfd) l2 w2 in
      (
        refl,
        ConservesAll-trans os d p.binds l1 l3 w w1 w3
            (handle_all_epoll-Conserves os d epollfd (rounds_of nfds) p.binds events w)
            (ConservesAll-trans os d l1 l2 l3 w1 w2 w3
              (forall_sockets-Conserves os d (epoll_unlock os) (epoll_unlock-Conserves os d) l1 w1)
              (forall_sockets-Conserves os d (epoll_originalfd os epollfd)
                (epoll_originalfd-Conserves os d epollfd) l2 w2)),
      )

  -- What follows the common part of a call.
  pub continued :
      (p p1 p2 : Program) (w w1 w2 : os.World)
      → ConservesProgram os d p w p1 w1
      → ConservesProgram os d p1 w1 p2 w2
      → ConservesProgram os d p w p2 w2
  continued p p1 p2 w w1 w2 (s, c) (s', c') =
      (s' ∙ s, ConservesAll-trans os d p.binds p1.binds p2.binds w w1 w2 c c')

  pub started :
      (p p1 : Program) (w w1 : os.World)
      → initialize_event os p w ≡ returns p1 w1
      → ConservesProgram os d p w p1 w1
  started p p1 w w1 e = rw e at (initialize_event-Conserves os d p w)

  pub epoll_wait-Conserves :
      (stale : EpollEvent) (p : Program) (epfd : Word) (events : List EpollEvent)
      (maxevents timeout : Word) (w : os.World)
      → ConservesRun os d (λ r. r.0) p w (epoll_wait os stale p epfd events maxevents timeout w)
  unfolding epoll_wait
  epoll_wait-Conserves stale p epfd events maxevents timeout w =
      elim (Run-cases (initialize_event os p w)) [
        | inl (code, w', ended) ↦ rw (ended, epoll_wait) tt
        | inr (p1, w1, begun) ↦
            let (binds, w2) = pre_epoll os stale epfd p1.binds w1 in
            let ((nfds, events'), w3) = os.epoll_wait epfd events maxevents timeout w2 in
            let p2 : Program = record p1 { binds = binds } in
            let ((p3, _), w4) = post_epoll os p2 epfd nfds events' w3 in
            rw (begun, epoll_wait)
              (continued p p1 p3 w w1 w4 (started p p1 w w1 begun) (
                continued p1 p2 p3 w1 w3 w4
                  (
                    refl,
                    ConservesAll-before os d p1.binds binds w1 w2 w3
                        (λ b. d.epoll_wait_keeps epfd events maxevents timeout b w2)
                        (pre_epoll-Conserves stale epfd p1.binds w1),
                  )
                  (post_epoll-Conserves p2 epfd nfds events' w3)))
      ]

  pre_step-Conserves :
      (s : Socket) (a : Option FdSet × Globals) (w : os.World)
      → let ((s', _), w') = pre_step os s a w in Conserves os d s w s' w'
  pre_step-Conserves s (none, g) w = (refl, λ b nb. omega arith)
  pre_step-Conserves s (some set, g) w = pre_select-Conserves os d s set g w

  handle_step-Conserves :
      (s : Socket) (a : Option FdSet × Word) (w : os.World)
      → let ((s', _), w') = handle_step os s a w in Conserves os d s w s' w'
  handle_step-Conserves s (none, n) w = (refl, λ b nb. omega arith)
  handle_step-Conserves s (some set, n) w = handle_conn-Conserves os d s set n w

  -- The three ways in which a round returns.
  returned :
      (p : Program) (w w1 w2 : os.World) (failed over : Bool) (x y z : Round)
      → ConservesProgram os d p w x.program w1
      → ConservesProgram os d p w y.program w2
      → ConservesProgram os d p w z.program w2
      → ConservesRun os d Round.program p w
          (if failed then returns x w1 else if over then returns y w2 else returns z w2)
  returned p w w1 w2 true over x y z a b c = a
  returned p w w1 w2 false true x y z a b c = b
  returned p w w1 w2 false false x y z a b c = c

  select_round-Conserves :
      (p : Program) (nfds : Word) (readfds writefds exceptfds : Option FdSet)
      (timeout : Option Timeout) (correction : Word) (w : os.World)
      → ConservesRun os d Round.program p w
          (select_round os p nfds readfds writefds exceptfds timeout correction w)
  unfolding select_round
  select_round-Conserves p nfds readfds writefds exceptfds timeout correction w =
      elim (Run-cases (initialize_event os p w)) [
        | inl (code, w', ended) ↦ rw (ended, select_round) tt
        | inr (p1, w1, begun) ↦
            let globals : Globals = record { max_fds = nfds; transfer = 0 } in
            let ((binds1, (rd1, g)), w2) = pass (pre_step os) p1.binds (readfds, globals) w1 in
            let (rd2, max_fds) = sniff_sets os binds1 rd1 g.max_fds in
            let tv : Option Timeout =
              if g.transfer == 1 then some (record { sec = 0; rest = 100 }) else timeout in
            let ((r, rd3, wr3, ex3), w3) = os.select max_fds rd2 writefds exceptfds tv w2 in
            let ((binds2, (rd4, n)), w4) = pass (handle_step os) binds1 (rd3, correction) w3 in
            let ((binds3, rd5), w5) = pass (post_select os) binds2 rd4 w4 in
            let first = started p p1 w w1 begun in
            let watched =
              ConservesAll-before os d p1.binds binds1 w1 w2 w3
                (λ b. d.select_keeps max_fds rd2 writefds exceptfds tv b w2)
                (pass-Conserves os d (pre_step os) pre_step-Conserves p1.binds (readfds, globals)
                  w1) in
            let handled = ConservesAll-trans os d p1.binds binds1 binds2 w1 w3 w4 watched (
              pass-Conserves os d (handle_step os) handle_step-Conserves binds1 (rd3, correction)
                w3) in
            let told =
              ConservesAll-trans os d p1.binds binds2 binds3 w1 w4 w5 handled
                (pass-Conserves os d (post_select os) (post_select-Conserves os d) binds2 rd4 w4) in
            let p2 : Program = record p1 { binds = binds1 } in
            let p3 : Program = record p1 { binds = binds3 } in
            let failed = continued p p1 p2 w w1 w3 first (refl, watched) in
            let done = continued p p1 p3 w w1 w5 first (refl, told) in
            rw (begun, select_round) (returned p w w3 w5 _ _ _ _ _ failed done done)
      ]

  -- A call that counts its rounds keeps to what is open, if it ends.
  abbrev pub ConservesRounds : Program → os.World → Option (Run os.World Round) → Type 0
  ConservesRounds p w none = Unit {0}
  ConservesRounds p w (some out) = ConservesRun os d Round.program p w out

  rounds_after :
      (p p1 : Program) (w w1 : os.World) (out : Option (Run os.World Round))
      → ConservesProgram os d p w p1 w1
      → ConservesRounds p1 w1 out
      → ConservesRounds p w out
  rounds_after p p1 w w1 none a b = tt
  rounds_after p p1 w w1 (some (exits code w')) a b = tt
  rounds_after p p1 w w1 (some (returns r w')) a b = continued p p1 r.program w w1 w' a b

  pub select-Conserves :
      (rounds : ℕ) (p : Program) (nfds : Word) (readfds writefds exceptfds : Option FdSet)
      (timeout : Option Timeout) (correction : Word) (w : os.World)
      → ConservesRounds p w
          (select os rounds p nfds readfds writefds exceptfds timeout correction w)
  unfolding select
  select-Conserves zero p nfds rd wr ex timeout n w = tt
  select-Conserves (suc rounds) p nfds rd wr ex timeout n w =
      let once = select_round-Conserves p nfds rd wr ex timeout n w in
      elim (Run-cases (select_round os p nfds rd wr ex timeout n w)) [
        | inl (code, w', ended) ↦ rw (ended, select) tt
        | inr (r, w', back) ↦
            let now : ConservesProgram os d p w r.program w' = rw back at once in
            elim (Option-cases r.result) [
              | inl over ↦
                  rw (back, select)
                    (rw (over, select)
                      (rounds_after p r.program w w' _ now (
                        select-Conserves rounds r.program nfds r.readfds r.writefds r.exceptfds none
                          r.correction w')))
              | inr (told, done) ↦ rw (back, select) (rw (done, select) now)
            ]
      ]
