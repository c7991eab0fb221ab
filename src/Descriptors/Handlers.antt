-- ===== src/Descriptors/Handlers.antt =====
-- The event handlers of select.c, poll.c and epoll.c keep to the open descriptors.
use open_dsu.Prelude.{
  ◌+◌, ◌≤◌, ◌≡◌, ◌⊎◌, refl, ◌∙◌, true, Option, List, [], ◌∷◌, arith, count, count_of_not_has, has,
  Bool-cases, ==_refl, inl, inr,
}
use open_dsu.Prelude.Words.{Word, incr}
use open_dsu.Os.{Os, FdSet}
use open_dsu.State.{Socket}
use open_dsu.State.Connections.{add-internal, remove-internal}
use open_dsu.Core.{o_nonblock}
use open_dsu.Messages.{accept_conn, settle, answer, Outcome, peer_closed, already_read, answered}
use open_dsu.Calls.Roles.{roles_at}
use open_dsu.Select.{Globals, handle_conns, handle_conn, pre_select, post_select, fd_clr}
use open_dsu.Descriptors.{HasDescriptors}
use open_dsu.Descriptors.Protocol.{Conserves, closed, answer-Keeps}

-- The connections that are still to look at are connections of the socket.
abbrev pub Lists : List Word → Socket → Type 0
Lists l s = (x : Word) → count x l ≤ count x s.comfds

settle-roles :
    (o : Outcome) (c b : Word) (s : Socket)
    → has c s.comfds ≡ true
    → ((settle o c s).fd ≡ s.fd)
      × (count b (settle o c s).comfds + closed o c b ≡ count b s.comfds)
      × (roles_at b (settle o c s) + closed o c b ≡ roles_at b s)
settle-roles peer_closed c b s h = ground (arith, remove-internal s c b h)
settle-roles already_read c b s h = ground arith
settle-roles answered c b s h = ground arith

Lists-has : (c : Word) (rest : List Word) (s : Socket) → Lists (c ∷ rest) s → has c s.comfds ≡ true
Lists-has c rest s h = ground (arith, h c, ==_refl c, count_of_not_has c s.comfds)

pub Outcome-cases : (o : Outcome) → (o ≡ peer_closed) ⊎ (o ≡ already_read) ⊎ (o ≡ answered)
Outcome-cases peer_closed = inl refl
Outcome-cases already_read = inr (inl refl)
Outcome-cases answered = inr (inr refl)

pub count-tail : (c : Word) (l : List Word) (x : Word) → count x l ≤ count x (c ∷ l)
count-tail c l x = ground arith

module _ (os : Os) (d : HasDescriptors os) where
  open d use {opened}

  -- One request, and what a handler does where the peer has closed.
  pub settle-Conserves :
      (c : Word) (rest : List Word) (s : Socket) (w : os.World)
      → Lists (c ∷ rest) s
      → let ((o, s'), w') = answer os s c w in
        Conserves os d s w (settle o c s') w' × Lists rest (settle o c s')
  settle-Conserves c rest s w h =
      let ((o, s'), w') = answer os s c w in
      let changed = (answer-Keeps os d s c c w).0 in
      let found : has c s'.comfds ≡ true = ground (arith, changed, Lists-has c rest s h) in
      (
        (
          ground (arith, changed, settle-roles o c c s' found),
          λ b nb. ground (arith, changed, settle-roles o c b s' found, answer-Keeps os d s c b w),
        ),
        λ x. ground (arith, changed, settle-roles o c x s' found, h x),
      )

  pub accept_conn-Conserves :
      (s : Socket) (w : os.World) → let (s', w') = accept_conn os s w in Conserves os d s w s' w'
  unfolding accept_conn
  accept_conn-Conserves s w =
      let (acc, w') = os.accept4 s.comfd o_nonblock w in
      let told : Socket = record s { comfd_addr = acc.1 } in
      (
        ground (arith, add-internal told acc.0 acc.0),
        λ b nb. ground (arith, add-internal told acc.0 b, d.accept4_opens s.comfd o_nonblock b w),
      )

  pub Conserves-trans :
      (s t u : Socket) (w w' w'' : os.World)
      → Conserves os d s w t w'
      → Conserves os d t w' u w''
      → Conserves os d s w u w''
  Conserves-trans s t u w w' w'' (e, f) (g, k) = (g ∙ e, λ b nb. omega (arith, f b nb, k b nb))

  handle_conns-Conserves :
      (l : List Word) (s : Socket) (set : FdSet) (n : Word) (w : os.World)
      → Lists l s
      → let ((s', _, _), w') = handle_conns os l s set n w in Conserves os d s w s' w'
  unfolding handle_conns
  handle_conns-Conserves [] s set n w h = (refl, λ b nb. omega arith)
  handle_conns-Conserves (c ∷ l) s set n w h = elim (Bool-cases (set c)) [
    | inl ready ↦
        let ((o, s'), w') = answer os s c w in
        let (now, left) = settle-Conserves c l s w h in
        let t : Socket = settle o c s' in
        let ((u, _, _), w'') = handle_conns os l t (fd_clr c set) (incr n) w' in
        rw (ready, handle_conns)
          (Conserves-trans s t u w w' w'' now
            (handle_conns-Conserves l t (fd_clr c set) (incr n) w' left))
    | inr idle ↦
        rw (idle, handle_conns)
          (handle_conns-Conserves l s set n w (λ x. omega (arith, h x, count-tail c l x)))
  ]

  pub handle_conn-Conserves :
      (s : Socket) (set : FdSet) (n : Word) (w : os.World)
      → let ((s', _, _), w') = handle_conn os s set n w in Conserves os d s w s' w'
  unfolding handle_conn
  handle_conn-Conserves s set n w = elim (Bool-cases (set s.comfd)) [
    | inl ready ↦
        let (s', w') = accept_conn os s w in
        let ((u, _, _), w'') = handle_conns os s'.comfds s' (fd_clr s.comfd set) (incr n) w' in
        rw (ready, handle_conn)
          (Conserves-trans s s' u w w' w'' (accept_conn-Conserves s w) (
            handle_conns-Conserves s'.comfds s' (fd_clr s.comfd set) (incr n) w'
              (λ x. omega arith)))
    | inr idle ↦
        rw (idle, handle_conn) (handle_conns-Conserves s.comfds s set n w (λ x. omega arith))
  ]

  pub pre_select-Conserves :
      (s : Socket) (set : FdSet) (g : Globals) (w : os.World)
      → let ((s', _, _), w') = pre_select os s set g w in Conserves os d s w s' w'
  unfolding pre_select
  pre_select-Conserves s set g w =
      (ground arith, λ b nb. grind (arith, d.sem_wait_keeps, d.sem_trywait_keeps, d.sem_post_keeps))

  pub post_select-Conserves :
      (s : Socket) (readfds : Option FdSet) (w : os.World)
      → let ((s', _), w') = post_select os s readfds w in Conserves os d s w s' w'
  unfolding post_select
  post_select-Conserves s readfds w =
      (ground arith, λ b nb. ground (arith, d.sem_post_keeps s.fd_sem b w))
