-- ===== src/Calls/Accept.antt =====
-- `accept` and `accept4` (src/core.c): a session is recorded under its socket until it is closed.
use open_dsu.Prelude.{
  ◌+◌, ◌<◌, ◌≡◌, ◌≢◌, refl, Bool, true, ◌&&◌, not, none, some, List, [], ◌∷◌, arith, ◌==◌,
  if◌then◌else◌, has, count, count_of_has, Bool-cases, ==_refl, inl, inr,
}
use open_dsu.Prelude.Words.{Word, minus_one}
use open_dsu.Os.{Os}
use open_dsu.State.{
  Socket, Program, non_internal_fd, internal_fd, monitor_fd, sockets_search_fd, sockets_search_fds,
  search, shadowfd, modify, has_fd, has_fds, socket_add_fds, socket_remove_fds,
}
use open_dsu.State.Connections.{remove_fds-add_fds, count-add_fds, has-connections-add}
use open_dsu.State.Remove.{fds_of}
use open_dsu.Calls.{add_session, accept, accept4, close, forget}
use open_dsu.Calls.Roles.{roles_at, sum_of, roles, sum-modify, count-modify}

add-fd : (c : Word) (s : Socket) → (socket_add_fds s c non_internal_fd).fd ≡ s.fd
unfolding socket_add_fds
add-fd c s = refl

pub roles-add_session :
    (fd c b : Word) (p : Program) {s : Socket}
    → sockets_search_fd p.binds fd ≡ some s
    → roles b (add_session fd c p) ≡ roles b p + (if c == b then 1 else 0)
unfolding add_session
roles-add_session fd c b p {s} e = ground (
  arith,
  sum-modify (roles_at b) (has_fd fd) (λ t. socket_add_fds t c non_internal_fd) p.binds e,
  count-add_fds s c b,
  count-modify (has_fd fd) (λ t. socket_add_fds t c non_internal_fd) p.binds b (add-fd c),
)

module _ (os : Os) where
  -- A session that `accept` gives on a bound socket adds one role to its descriptor, and none to
  -- any other; a failed call leaves the state as it was.
  accept-roles :
      (fd b : Word) (p : Program) (w : os.World) {s : Socket}
      → sockets_search_fd p.binds fd ≡ some s
      → let ((c, _), p') = (accept os fd p w).0 in
        roles b p' ≡ (if c == minus_one then roles b p else roles b p + (if c == b then 1 else 0))
  unfolding accept
  accept-roles fd b p w {s} e =
      ground (arith, roles-add_session fd (os.accept (shadowfd p fd) w).0.0 b p {s = s} e)

  -- The same of `accept4`.
  accept4-roles :
      (fd flags b : Word) (p : Program) (w : os.World) {s : Socket}
      → sockets_search_fd p.binds fd ≡ some s
      → let ((c, _), p') = (accept4 os fd flags p w).0 in
        roles b p' ≡ (if c == minus_one then roles b p else roles b p + (if c == b then 1 else 0))
  unfolding accept4
  accept4-roles fd flags b p w {s} e =
      ground (arith, roles-add_session fd (os.accept4 (shadowfd p fd) flags w).0.0 b p {s = s} e)

-- The session is in no list of clients yet.
abbrev no_client : Word → List Socket → Bool
no_client c [] = true
no_client c (s ∷ rest) = not (has c s.fds) && no_client c rest

no_client-count : (c : Word) (l : List Socket) → sum_of (roles_at c) l ≡ 0 → no_client c l ≡ true
no_client-count c [] h = refl
no_client-count c (x ∷ l) h = ground (arith, no_client-count c l, count_of_has c x.fds)

drop-add :
    (fd c : Word) (l : List Socket)
    → no_client c l ≡ true
    → modify
        (has_fds c non_internal_fd)
        (λ s. socket_remove_fds s c non_internal_fd)
        (modify (has_fd fd) (λ s. socket_add_fds s c non_internal_fd) l)
      ≡ l
unfolding modify
drop-add fd c [] h = refl
drop-add fd c (x ∷ l) h = elim (Bool-cases (x.fd == fd)) [
  | inl here ↦ rw here (
      ground (
        arith,
        remove_fds-add_fds x c non_internal_fd,
        has-connections-add x c c non_internal_fd non_internal_fd,
        ==_refl c,
      ))
  | inr there ↦ rw there (ground (arith, drop-add fd c l))
]

-- A fresh descriptor has no role, and is none of the standard ones.
abbrev pub IsFresh : Word → Program → Type 0
IsFresh c p = (2 < c) × (roles c p ≡ 0)

abbrev add : Word → Word → List Socket → List Socket
add fd c = modify (has_fd fd) (λ s. socket_add_fds s c non_internal_fd)

search_fd-absent :
    (l : List Socket) (c : Word) → count c (fds_of l) ≡ 0 → sockets_search_fd l c ≡ none
unfolding search
search_fd-absent [] c h = refl
search_fd-absent (x ∷ l) c h = ground (arith, search_fd-absent l c)

search_fd-add :
    (fd c : Word) (l : List Socket)
    → count c (fds_of l) ≡ 0
    → sockets_search_fd (add fd c l) c ≡ none
unfolding search modify
search_fd-add fd c [] h = refl
search_fd-add fd c (x ∷ l) h =
    ground (arith, search_fd-add fd c l, search_fd-absent l c, add-fd c x)

other_roles-absent :
    (c : Word) (l : List Socket)
    → sum_of (roles_at c) l ≡ 0
    → (sockets_search_fds l c monitor_fd ≡ none) × (sockets_search_fds l c internal_fd ≡ none)
unfolding search
other_roles-absent c [] h = (refl, refl)
other_roles-absent c (x ∷ l) h = ground (arith, other_roles-absent c l, count_of_has c x.comfds)

other_roles-add :
    (fd c : Word) (l : List Socket)
    → sum_of (roles_at c) l ≡ 0
    → (sockets_search_fds (add fd c l) c monitor_fd ≡ none)
      × (sockets_search_fds (add fd c l) c internal_fd ≡ none)
unfolding search modify
other_roles-add fd c [] h = (refl, refl)
other_roles-add fd c (x ∷ l) h = ground (
  arith,
  other_roles-add fd c l,
  other_roles-absent c l,
  count-add_fds x c c,
  count_of_has c x.comfds,
)

client-add :
    (fd c : Word) (l : List Socket) {s : Socket}
    → sockets_search_fd l fd ≡ some s
    → sockets_search_fds (add fd c l) c non_internal_fd ≢ none
unfolding search modify
client-add fd c [] h = ground arith
client-add fd c (x ∷ l) {s} h = ground (
  arith,
  client-add fd c l {s = s},
  has-connections-add x c c non_internal_fd non_internal_fd,
  ==_refl c,
)

forget-add_session :
    (fd c : Word) (p : Program) {s : Socket}
    → sockets_search_fd p.binds fd ≡ some s
    → IsFresh c p
    → forget c (add_session fd c p) ≡ p
unfolding forget add_session
forget-add_session fd c p {s} e h = ground (
  arith,
  search_fd-absent p.sockets c,
  search_fd-add fd c p.binds,
  other_roles-add fd c p.binds,
  client-add fd c p.binds e,
  drop-add fd c p.binds,
  no_client-count c p.binds,
)

module _ (os : Os) where
  -- A session that is accepted on a bound socket, under a descriptor that the state did not know,
  -- and then closed leaves the state as it was.
  pub accept-close :
      (fd : Word) (p : Program) (w w' : os.World) {s : Socket}
      → sockets_search_fd p.binds fd ≡ some s
      → (accept os fd p w).0.0.0 ≢ minus_one
      → IsFresh (accept os fd p w).0.0.0 p
      → let ((c, _), p') = (accept os fd p w).0 in (close os c p' w').0.1 ≡ p
  unfolding accept close
  accept-close fd p w w' e ok fresh =
      ground (arith, forget-add_session fd (os.accept (shadowfd p fd) w).0.0 p e)
