-- ===== src/Descriptors/Roles.antt =====
-- In how many roles a descriptor is known after the lists of src/state.c changed.
use open_dsu.Prelude.{
  ℕ, ◌+◌, ◌≤◌, ◌≡◌, refl, false, none, some, List, [], ◌∷◌, arith, ◌==◌, if◌then◌else◌, count, ltb,
  ap, Bool-cases, Option-cases, inl, inr, All,
}
use open_dsu.Prelude.Words.{Word}
use open_dsu.Os.{Os}
use open_dsu.State.{
  Socket, Program, search, has_fd, sockets_search_fd, sockets_remove_fd, sockets_add,
  sockets_transfer_fd,
}
use open_dsu.State.Remove.{fds_of}
use open_dsu.State.Search.{modify-none}
use open_dsu.Calls.{forget, add_session}
use open_dsu.Calls.Roles.{roles, roles_at, sum_of, count-remove}
use open_dsu.Calls.Close.{
  Forgets, standard, unbound, bound, monitored, connected, unknown, Forgets-roles, forget-Forgets,
}
use open_dsu.Calls.Accept.{roles-add_session}
use open_dsu.Bind.{moved}

pub count-add :
    (l : List Socket) (t : Socket) (b : Word)
    → count b (fds_of (sockets_add l t)) ≡ count b (fds_of l) + (if t.fd == b then 1 else 0)
unfolding sockets_add
count-add [] t b = ground arith
count-add (x ∷ l) t b = ground (arith, count-add l t b)

sum-add :
    (f : Socket → ℕ) (l : List Socket) (t : Socket) → sum_of f (sockets_add l t) ≡ sum_of f l + f t
unfolding sockets_add
sum-add f [] t = omega arith
sum-add f (x ∷ l) t = omega (arith, sum-add f l t)

forget-standard : (fd : Word) (p : Program) → fd ≤ 2 → forget fd p ≡ p
unfolding forget
forget-standard fd p h = ground arith

add_session-free :
    (fd c : Word) (p : Program) → sockets_search_fd p.binds fd ≡ none → add_session fd c p ≡ p
unfolding add_session
add_session-free fd c p h = ap (λ l. record p { binds = l }) (modify-none (has_fd fd) _ p.binds h)

-- A session that is recorded adds at most its own role.
pub add_session-roles :
    (fd c b : Word) (p : Program)
    → roles b (add_session fd c p) ≤ roles b p + (if c == b then 1 else 0)
add_session-roles fd c b p = elim (Option-cases (sockets_search_fd p.binds fd)) [
  | inl free ↦ omega (arith, ap (roles b) (add_session-free fd c p free))
  | inr (s, found) ↦ omega (arith, roles-add_session fd c b p found)
]

pub add_session-sockets : (fd c : Word) (p : Program) → (add_session fd c p).sockets ≡ p.sockets
unfolding add_session
add_session-sockets fd c p = refl

-- A node without connections.
abbrev pub IsPlain : Socket → Type 0
IsPlain s = (s.fds ≡ []) × (s.comfds ≡ [])

pub IsPlain-add :
    (l : List Socket) (t : Socket) → All IsPlain l → IsPlain t → All IsPlain (sockets_add l t)
unfolding sockets_add
IsPlain-add [] t a h = (h, tt)
IsPlain-add (x ∷ l) t a h = (a.0, IsPlain-add l t a.1 h)

pub IsPlain-remove :
    (l : List Socket) (fd : Word) → All IsPlain l → All IsPlain (sockets_remove_fd l fd)
unfolding sockets_remove_fd
IsPlain-remove [] fd a = tt
IsPlain-remove (x ∷ l) fd a = ground (arith, IsPlain-remove l fd a.1)

pub IsPlain-search :
    (l : List Socket) (fd : Word) {s : Socket}
    → All IsPlain l
    → sockets_search_fd l fd ≡ some s
    → IsPlain s
unfolding search
IsPlain-search [] fd a h = ground arith
IsPlain-search (x ∷ l) fd {s} a h = ground (arith, IsPlain-search l fd {s = s} a.1)

pub roles-moved :
    (os : Os) (p : Program) (t : Socket) (b : Word) {s : Socket}
    → sockets_search_fd p.sockets t.fd ≡ some s
    → roles b (moved os p t) ≡ roles b p + roles_at b t
unfolding sockets_transfer_fd
roles-moved os p t b {s} h =
    omega (
      arith,
      count-remove p.sockets t.fd b h,
      count-add p.binds t b,
      sum-add (roles_at b) p.binds t,
    )

pub IsPlain-Forgets :
    (fd : Word) (p q : Program) → Forgets fd p q → All IsPlain p.sockets → All IsPlain q.sockets
IsPlain-Forgets fd p q (standard low e) h = rw e h
IsPlain-Forgets fd p q (unbound s f e) h = rw e (IsPlain-remove p.sockets fd h)
IsPlain-Forgets fd p q (bound s f g e) h = rw e h
IsPlain-Forgets fd p q (monitored s f e) h = rw e h
IsPlain-Forgets fd p q (connected s flag f g e) h = rw e h
IsPlain-Forgets fd p q (unknown f g k e) h = rw e h

pub forget-others :
    (fd b : Word) (p : Program) → (fd == b) ≡ false → roles b (forget fd p) ≤ roles b p
forget-others fd b p h = elim (Bool-cases (ltb 2 fd)) [
  | inl beyond ↦
      (Forgets-roles fd b p (forget fd p) (forget-Forgets fd p) (ground arith)).1 (ground arith)
  | inr low ↦ ground (arith, forget-standard fd p)
]
