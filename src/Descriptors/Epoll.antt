-- ===== src/Descriptors/Epoll.antt =====
-- `epoll_wait` (src/event_handlers/epoll.c) keeps to the open descriptors.
use open_dsu.Prelude.{
  ℕ, zero, suc, ◌≤◌, refl, none, List, [], ◌∷◌, arith, ◌==◌, Bool-cases, inl, inr,
}
use open_dsu.Prelude.Words.{Word}
use open_dsu.Os.{Os, EpollEvent}
use open_dsu.State.{Socket}
use open_dsu.Messages.{settle, answer, Outcome, peer_closed, already_read, answered}
use open_dsu.Epoll.{epoll_ctl_del, data_fd}
use open_dsu.Epoll.Handlers.{
  epoll_gone, epoll_respond, epoll_handle_event, handle_conn_epoll, handle_all_epoll,
  epoll_shadowfd, epoll_watch, epoll_add_conns, epoll_internal_conn, epoll_unlock, epoll_originalfd,
}
use open_dsu.Descriptors.{HasDescriptors}
use open_dsu.Descriptors.Protocol.{Conserves}
use open_dsu.Descriptors.Pass.{ConservesAll, ConservesAll-cons}
use open_dsu.Descriptors.Handlers.{
  Lists, count-tail, accept_conn-Conserves, settle-Conserves, Conserves-trans,
}

module _ (os : Os) (d : HasDescriptors os) where
  open d use {opened}

  epoll_watch-Keeps :
      (epollfd b : Word) (s : Socket) (w : os.World)
      → opened b w ≤ opened b (epoll_watch os epollfd s w).1
  unfolding epoll_watch
  epoll_watch-Keeps epollfd b s w = grind (arith, d.epoll_ctl_keeps)

  pub epoll_shadowfd-Conserves :
      (epollfd : Word) (s : Socket) (w : os.World)
      → let (s', w') = epoll_shadowfd os epollfd s w in Conserves os d s w s' w'
  unfolding epoll_shadowfd
  epoll_shadowfd-Conserves epollfd s w = (
    ground arith,
    λ b nb. grind (
      arith, epoll_watch-Keeps, d.epoll_ctl_keeps, d.sem_wait_keeps, d.sem_trywait_keeps,
      d.sem_post_keeps,
    ),
  )

  epoll_add_conns-Keeps :
      (stale : EpollEvent) (epollfd b : Word) (l : List Word) (w : os.World)
      → opened b w ≤ opened b (epoll_add_conns os stale epollfd l w).1
  unfolding epoll_add_conns
  epoll_add_conns-Keeps stale epollfd b [] w = omega arith
  epoll_add_conns-Keeps stale epollfd b (c ∷ l) w =
      grind (arith, epoll_add_conns-Keeps stale epollfd b l, d.epoll_ctl_keeps)

  pub epoll_internal_conn-Conserves :
      (stale : EpollEvent) (epollfd : Word) (s : Socket) (w : os.World)
      → let (s', w') = epoll_internal_conn os stale epollfd s w in Conserves os d s w s' w'
  unfolding epoll_internal_conn
  epoll_internal_conn-Conserves stale epollfd s w =
      (ground arith, λ b nb. grind (arith, epoll_add_conns-Keeps, d.epoll_ctl_keeps))

  pub epoll_unlock-Conserves :
      (s : Socket) (w : os.World) → let (s', w') = epoll_unlock os s w in Conserves os d s w s' w'
  unfolding epoll_unlock
  epoll_unlock-Conserves s w = (ground arith, λ b nb. ground (arith, d.sem_post_keeps s.fd_sem b w))

  pub epoll_originalfd-Conserves :
      (epollfd : Word) (s : Socket) (w : os.World)
      → let (s', w') = epoll_originalfd os epollfd s w in Conserves os d s w s' w'
  unfolding epoll_originalfd
  epoll_originalfd-Conserves epollfd s w = (ground arith, λ b nb. grind (arith, d.epoll_ctl_keeps))

  epoll_gone-Keeps :
      (epollfd c b : Word) (o : Outcome) (e : EpollEvent) (w : os.World)
      → opened b w ≤ opened b (epoll_gone os epollfd c o e w).1
  unfolding epoll_gone
  epoll_gone-Keeps epollfd c b peer_closed e w = d.epoll_ctl_keeps epollfd epoll_ctl_del c none b w
  epoll_gone-Keeps epollfd c b already_read e w = omega arith
  epoll_gone-Keeps epollfd c b answered e w = omega arith

  -- A call that closes nothing may follow.
  later :
      (s t : Socket) (w w' w'' : os.World)
      → Conserves os d s w t w'
      → ((b : Word) → opened b w' ≤ opened b w'')
      → Conserves os d s w t w''
  later s t w w' w'' (e, f) g = (e, λ b nb. omega (arith, f b nb, g b))

  epoll_respond-Conserves :
      (epollfd : Word) (l : List Word) (s : Socket) (e : EpollEvent) (w : os.World)
      → Lists l s
      → let ((s', _), w') = epoll_respond os epollfd l s e w in Conserves os d s w s' w'
  unfolding epoll_respond
  epoll_respond-Conserves epollfd [] s e w h = (refl, λ b nb. omega arith)
  epoll_respond-Conserves epollfd (c ∷ l) s e w h = elim (Bool-cases (data_fd e == c)) [
    | inl mine ↦
        let ((o, s'), w') = answer os s c w in
        let (now, left) = settle-Conserves os d c l s w h in
        let t : Socket = settle o c s' in
        let (e', w1) = epoll_gone os epollfd c o e w' in
        let ((u, _), w'') = epoll_respond os epollfd l t e' w1 in
        rw (mine, epoll_respond)
          (Conserves-trans os d s t u w w1 w''
            (later s t w w' w1 now (λ b. epoll_gone-Keeps epollfd c b o e w'))
            (epoll_respond-Conserves epollfd l t e' w1 left))
    | inr other ↦
        rw (other, epoll_respond)
          (epoll_respond-Conserves epollfd l s e w (λ x. omega (arith, h x, count-tail c l x)))
  ]

  epoll_handle_event-Conserves :
      (epollfd : Word) (s : Socket) (e : EpollEvent) (w : os.World)
      → let ((s', _), w') = epoll_handle_event os epollfd s e w in Conserves os d s w s' w'
  unfolding epoll_handle_event
  epoll_handle_event-Conserves epollfd s e w = elim (Bool-cases (e.events == 0)) [
    | inl idle ↦ rw (idle, epoll_handle_event) (refl, λ b nb. omega arith)
    | inr busy ↦ elim (Bool-cases (data_fd e == s.comfd)) [
      | inl request ↦
          rw (busy, epoll_handle_event)
            (rw (request, epoll_handle_event) (accept_conn-Conserves os d s w))
      | inr other ↦
          rw (busy, epoll_handle_event)
            (rw (other, epoll_handle_event)
              (epoll_respond-Conserves epollfd s.comfds s e w (λ x. omega arith)))
    ]
  ]

  handle_conn_epoll-Conserves :
      (epollfd : Word) (n : ℕ) (s : Socket) (events : List EpollEvent) (w : os.World)
      → let ((s', _), w') = handle_conn_epoll os epollfd n s events w in Conserves os d s w s' w'
  unfolding handle_conn_epoll
  handle_conn_epoll-Conserves epollfd zero s events w = (refl, λ b nb. omega arith)
  handle_conn_epoll-Conserves epollfd (suc n) s [] w = (refl, λ b nb. omega arith)
  handle_conn_epoll-Conserves epollfd (suc n) s (e ∷ events) w =
      let ((s', e'), w') = epoll_handle_event os epollfd s e w in
      let ((u, _), w'') = handle_conn_epoll os epollfd n s' events w' in
      Conserves-trans os d s s' u w w' w'' (epoll_handle_event-Conserves epollfd s e w)
        (handle_conn_epoll-Conserves epollfd n s' events w')

  pub handle_all_epoll-Conserves :
      (epollfd : Word) (n : ℕ) (l : List Socket) (events : List EpollEvent) (w : os.World)
      → let ((l', _), w') = handle_all_epoll os epollfd n l events w in ConservesAll os d l w l' w'
  unfolding handle_all_epoll
  handle_all_epoll-Conserves epollfd n [] events w = (refl, λ b nb. omega arith)
  handle_all_epoll-Conserves epollfd n (s ∷ l) events w =
      let ((s', events'), w') = handle_conn_epoll os epollfd n s events w in
      let ((l', _), w'') = handle_all_epoll os epollfd n l events' w' in
      ConservesAll-cons os d s s' l l' w w' w'' (handle_conn_epoll-Conserves epollfd n s events w)
        (handle_all_epoll-Conserves epollfd n l events' w')
