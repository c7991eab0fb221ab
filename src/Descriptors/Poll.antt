-- ===== src/Descriptors/Poll.antt =====
-- `ppoll` (src/event_handlers/poll.c) keeps to the open descriptors.
use open_dsu.Prelude.{
  ℕ, zero, suc, ◌≡◌, refl, ◌∙◌, Bool, some, List, [], ◌∷◌, arith, ◌==◌, Bool-cases, Option-cases,
  inl, inr,
}
use open_dsu.Prelude.Words.{Word, incr}
use open_dsu.Os.{Os, PollFd}
use open_dsu.State.{Socket, Program, search, modify, sockets_search_fd, has_fd}
use open_dsu.State.Remove.{fds_of}
use open_dsu.Messages.{accept_conn, settle, answer}
use open_dsu.Calls.Roles.{roles_at, sum-modify}
use open_dsu.Poll.Handlers.{
  pre_poll_bound, pre_poll_entry, pre_poll_entries, poll_respond, handle_entries, handle_conn_poll,
  unlock,
}
use open_dsu.Descriptors.{HasDescriptors}
use open_dsu.Descriptors.Protocol.{Conserves}
use open_dsu.Descriptors.Pass.{ConservesAll, ConservesAll-trans}
use open_dsu.Descriptors.Handlers.{
  Lists, count-tail, settle-Conserves, accept_conn-Conserves, Conserves-trans,
}

module _ (os : Os) (d : HasDescriptors os) where
  open d use {opened}

  pub unlock-Conserves :
      (s : Socket) (w : os.World) → let (s', w') = unlock os s w in Conserves os d s w s' w'
  unfolding unlock
  unlock-Conserves s w = (ground arith, λ b nb. ground (arith, d.sem_post_keeps s.fd_sem b w))

  poll_respond-Conserves :
      (l : List Word) (s : Socket) (e : PollFd) (w : os.World)
      → Lists l s
      → let (s', w') = poll_respond os l s e w in Conserves os d s w s' w'
  unfolding poll_respond
  poll_respond-Conserves [] s e w h = (refl, λ b nb. omega arith)
  poll_respond-Conserves (c ∷ l) s e w h = elim (Bool-cases (e.fd == c)) [
    | inl mine ↦
        let ((o, s'), w') = answer os s c w in
        let (now, left) = settle-Conserves os d c l s w h in
        let t : Socket = settle o c s' in
        let (u, w'') = poll_respond os l t e w' in
        rw (mine, poll_respond)
          (Conserves-trans os d s t u w w' w'' now (poll_respond-Conserves l t e w' left))
    | inr other ↦
        rw (other, poll_respond)
          (poll_respond-Conserves l s e w (λ x. omega (arith, h x, count-tail c l x)))
  ]

  handle_entries-Conserves :
      (fds : List PollFd) (s : Socket) (n : Word) (w : os.World)
      → let ((s', _), w') = handle_entries os fds s n w in Conserves os d s w s' w'
  unfolding handle_entries
  handle_entries-Conserves [] s n w = (refl, λ b nb. omega arith)
  handle_entries-Conserves (e ∷ fds) s n w = elim (Bool-cases (e.revents == 0)) [
    | inl idle ↦ rw (idle, handle_entries) (handle_entries-Conserves fds s n w)
    | inr busy ↦ elim (Bool-cases (e.fd == s.comfd)) [
      | inl request ↦
          let (t, w') = accept_conn os s w in
          let ((u, _), w'') = handle_entries os fds t (incr n) w' in
          rw (busy, handle_entries)
            (rw (request, handle_entries)
              (Conserves-trans os d s t u w w' w'' (accept_conn-Conserves os d s w)
                (handle_entries-Conserves fds t (incr n) w')))
      | inr other ↦
          let (t, w') = poll_respond os s.comfds s e w in
          let ((u, _), w'') = handle_entries os fds t (incr n) w' in
          rw (busy, handle_entries)
            (rw (other, handle_entries)
              (Conserves-trans os d s t u w w' w''
                (poll_respond-Conserves s.comfds s e w (λ x. omega arith))
                (handle_entries-Conserves fds t (incr n) w')))
    ]
  ]

  pub handle_conn_poll-Conserves :
      (fds : List PollFd) (start end : ℕ) (s : Socket) (n : Word) (w : os.World)
      → let ((s', _), w') = handle_conn_poll os fds start end s n w in Conserves os d s w s' w'
  unfolding handle_conn_poll
  handle_conn_poll-Conserves fds start end s n w = handle_entries-Conserves _ s n w

  pre_poll_bound-Conserves :
      (s : Socket) (e : PollFd) (w : os.World)
      → let ((s', _), w') = pre_poll_bound os s e w in Conserves os d s w s' w'
  unfolding pre_poll_bound
  pre_poll_bound-Conserves s e w =
      (ground arith, λ b nb. grind (arith, d.sem_wait_keeps, d.sem_trywait_keeps, d.sem_post_keeps))

  fds_of-modify :
      (test : Socket → Bool) (t : Socket) (l : List Socket) {s : Socket}
      → search test l ≡ some s
      → t.fd ≡ s.fd
      → fds_of (modify test (λ _. t) l) ≡ fds_of l
  unfolding search modify
  fds_of-modify test t [] h e = refl
  fds_of-modify test t (x ∷ l) {s} h e = ground (arith, fds_of-modify test t l {s = s})

  pre_poll_entry-Conserves :
      (p : Program) (e : PollFd) (w : os.World)
      → let ((p', _), w') = pre_poll_entry os p e w in
        (p'.sockets ≡ p.sockets) × ConservesAll os d p.binds w p'.binds w'
  unfolding pre_poll_entry
  pre_poll_entry-Conserves p e w = elim (Option-cases (sockets_search_fd p.binds e.fd)) [
    | inl free ↦ rw (free, pre_poll_entry) (refl, (refl, λ b nb. omega arith))
    | inr (s, found) ↦
        let ((t, e'), w') = pre_poll_bound os s e w in
        let (same, sums) = pre_poll_bound-Conserves s e w in
        rw (found, pre_poll_entry)
          (
            refl,
            (
              fds_of-modify (has_fd e.fd) t p.binds found same,
              λ b nb.
                  omega (
                    arith,
                    sums b nb,
                    sum-modify (roles_at b) (has_fd e.fd) (λ _. t) p.binds found,
                  ),
            ),
          )
  ]

  pub pre_poll_entries-Conserves :
      (n : ℕ) (p : Program) (fds : List PollFd) (w : os.World)
      → let ((p', _), w') = pre_poll_entries os n p fds w in
        (p'.sockets ≡ p.sockets) × ConservesAll os d p.binds w p'.binds w'
  unfolding pre_poll_entries
  pre_poll_entries-Conserves zero p fds w = (refl, (refl, λ b nb. omega arith))
  pre_poll_entries-Conserves (suc n) p [] w = (refl, (refl, λ b nb. omega arith))
  pre_poll_entries-Conserves (suc n) p (e ∷ fds) w =
      let ((p1, _), w1) = pre_poll_entry os p e w in
      let ((p2, _), w2) = pre_poll_entries os n p1 fds w1 in
      let (s1, c1) = pre_poll_entry-Conserves p e w in
      let (s2, c2) = pre_poll_entries-Conserves n p1 fds w1 in
      (s2 ∙ s1, ConservesAll-trans os d p.binds p1.binds p2.binds w w1 w2 c1 c2)
