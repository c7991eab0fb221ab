-- ===== src/Epoll/Keeps.antt =====
-- The handlers of src/event_handlers/epoll.c leave alone what is noted of the locks on descriptors.
use open_dsu.Prelude.{
  false, Bool, ap, sym, ℕ, zero, suc, ◌≡◌, refl, ap₂, ◌∙◌, ◌||◌, List, [], ◌∷◌, ◌==◌, Bool-cases,
  inl, inr,
}
use open_dsu.Prelude.Words.{Word, Ptr}
use open_dsu.Os.{Os, EpollEvent}
use open_dsu.State.{Socket}
use open_dsu.Core.Locks.{is_noted, is_noted_in}
use open_dsu.Messages.{answer, accept_conn, settle, Outcome}
use open_dsu.Epoll.{data_fd}
use open_dsu.Epoll.Handlers.{
  epoll_respond, epoll_handle_event, handle_conn_epoll, handle_all_epoll, epoll_gone,
}
use open_dsu.Messages.Keeps.{
  answer-noted, accept_conn-noted, settle-noted, watch_of, answer-watch, accept_conn-watch,
  settle-watch,
}

-- One field, or more, of each socket.
abbrev pub keys : {X : Type 0} → (Socket → X) → List Socket → List X
keys key [] = []
keys key (s ∷ l) = key s ∷ keys key l

module _ (os : Os) (epollfd : Word) {X : Type 0} (key : Socket → X)
    (on_answer : (s : Socket) (c : Word) (w : os.World) → key (answer os s c w).0.1 ≡ key s)
    (on_accept : (s : Socket) (w : os.World) → key (accept_conn os s w).0 ≡ key s)
    (on_settle : (o : Outcome) (c : Word) (s : Socket) → key (settle o c s) ≡ key s) where
  epoll_respond-key :
      (l : List Word) (s : Socket) (e : EpollEvent) (w : os.World)
      → key (epoll_respond os epollfd l s e w).0.0 ≡ key s
  unfolding epoll_respond
  epoll_respond-key [] s e w = refl
  epoll_respond-key (c ∷ l) s e w = elim (Bool-cases (data_fd e == c)) [
    | inl hit ↦
        let ((o, s'), w1) = answer os s c w in
        let (e', w2) = epoll_gone os epollfd c o e w1 in
        rw (hit, epoll_respond)
          (epoll_respond-key l (settle o c s') e' w2 ∙ on_settle o c s' ∙ on_answer s c w)
    | inr miss ↦ rw (miss, epoll_respond) (epoll_respond-key l s e w)
  ]

  epoll_handle_event-key :
      (s : Socket) (e : EpollEvent) (w : os.World)
      → key (epoll_handle_event os epollfd s e w).0.0 ≡ key s
  unfolding epoll_handle_event
  epoll_handle_event-key s e w = elim (Bool-cases (e.events == 0)) [
    | inl idle ↦ rw (idle, epoll_handle_event) refl
    | inr busy ↦ elim (Bool-cases (data_fd e == s.comfd)) [
      | inl asked ↦ rw (busy, asked, epoll_handle_event) (on_accept s w)
      | inr other ↦ rw (busy, other, epoll_handle_event) (epoll_respond-key s.comfds s e w)
    ]
  ]

  handle_conn_epoll-key :
      (n : ℕ) (s : Socket) (events : List EpollEvent) (w : os.World)
      → key (handle_conn_epoll os epollfd n s events w).0.0 ≡ key s
  unfolding handle_conn_epoll
  handle_conn_epoll-key zero s events w = refl
  handle_conn_epoll-key (suc n) s [] w = refl
  handle_conn_epoll-key (suc n) s (e ∷ events) w =
      let ((s', e'), w') = epoll_handle_event os epollfd s e w in
      handle_conn_epoll-key n s' events w' ∙ epoll_handle_event-key s e w

  -- The handlers keep what an answer, a new connection and a closed one keep.
  pub handle_all_epoll-keys :
      (n : ℕ) (l : List Socket) (events : List EpollEvent) (w : os.World)
      → keys key (handle_all_epoll os epollfd n l events w).0.0 ≡ keys key l
  unfolding handle_all_epoll
  handle_all_epoll-keys n [] events w = refl
  handle_all_epoll-keys n (s ∷ l) events w =
      let ((s', events'), w') = handle_conn_epoll os epollfd n s events w in
      ap₂ ◌∷◌ (handle_conn_epoll-key n s events w) (handle_all_epoll-keys n l events' w')

any_of : List Bool → Bool
any_of [] = false
any_of (b ∷ l) = b || any_of l

is_noted_in-keys : (q : Ptr) (l : List Socket) → is_noted_in q l ≡ any_of (keys (is_noted q) l)
unfolding any_of
is_noted_in-keys q [] = refl
is_noted_in-keys q (s ∷ l) = ap (λ b. is_noted q s || b) (is_noted_in-keys q l)

module _ (os : Os) (epollfd : Word) where
  pub handle_all_epoll-noted :
      (n : ℕ) (q : Ptr) (l : List Socket) (events : List EpollEvent) (w : os.World)
      → is_noted_in q (handle_all_epoll os epollfd n l events w).0.0 ≡ is_noted_in q l
  handle_all_epoll-noted n q l events w =
      is_noted_in-keys q (handle_all_epoll os epollfd n l events w).0.0
      ∙ ap any_of (
          handle_all_epoll-keys os epollfd (is_noted q) (answer-noted os q) (accept_conn-noted os q)
            (λ o c s. settle-noted o c q s) n l events w)
      ∙ sym (is_noted_in-keys q l)

  -- The user's descriptor, the shadow and the event of each socket.
  pub handle_all_epoll-watch :
      (n : ℕ) (l : List Socket) (events : List EpollEvent) (w : os.World)
      → keys watch_of (handle_all_epoll os epollfd n l events w).0.0 ≡ keys watch_of l
  handle_all_epoll-watch =
      handle_all_epoll-keys os epollfd watch_of (answer-watch os) (accept_conn-watch os)
        settle-watch
