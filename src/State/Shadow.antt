-- ===== src/State/Shadow.antt =====
-- `dsu_shadowfd` and `dsu_originalfd` (src/state.c) undo each other.
use open_dsu.Prelude.{
  ◌≡◌, refl, ◌⊎◌, ◌≢◌, inl, inr, Bool, true, false, none, some, List, [], ◌∷◌, arith, ◌==◌, has,
  Distinct, ==_refl, Option-cases,
}
use open_dsu.Prelude.Words.{Word}
use open_dsu.State.{
  Socket, Program, search, sockets_search_fd, sockets_search_shadowfd, shadowfd, originalfd,
}
use open_dsu.State.Remove.{values, fds_of, shadowfds_of}

abbrev keyed : (Socket → Word) → Word → Socket → Bool
keyed key a s = key s == a

search-none_of_has :
    (key : Socket → Word) (l : List Socket) (a : Word)
    → has a (values key l) ≡ false
    → search (keyed key a) l ≡ none
unfolding search
search-none_of_has key [] a h = refl
search-none_of_has key (x ∷ l) a h = ground (arith, search-none_of_has key l a)

search-key :
    (key : Socket → Word) (l : List Socket) (a : Word) {s : Socket}
    → search (keyed key a) l ≡ some s
    → key s ≡ a
unfolding search
search-key key [] a h = ground arith
search-key key (x ∷ l) a {s} h = ground (arith, search-key key l a {s = s})

has-values_of_search :
    (key key' : Socket → Word) (l : List Socket) (a : Word) {s : Socket}
    → search (keyed key a) l ≡ some s
    → has (key' s) (values key' l) ≡ true
unfolding search
has-values_of_search key key' [] a h = ground arith
has-values_of_search key key' (x ∷ l) a {s} h =
    ground (arith, has-values_of_search key key' l a {s = s}, ==_refl (key' x))

-- A node found by one field is found by another one whose values are distinct.
search-other :
    (key key' : Socket → Word) (l : List Socket) (a : Word) {s : Socket}
    → Distinct (values key' l)
    → search (keyed key a) l ≡ some s
    → search (keyed key' (key' s)) l ≡ some s
unfolding search
search-other key key' [] a d h = ground arith
search-other key key' (x ∷ l) a {s} d h = ground (
  arith,
  search-other key key' l a {s = s} d.1,
  has-values_of_search key key' l a {s = s},
  ==_refl (key' x),
)

-- A value that stands in the list is found.
search_of_has :
    (key : Socket → Word) (l : List Socket) (a : Word)
    → has a (values key l) ≡ true
    → search (keyed key a) l ≢ none
unfolding search
search_of_has key [] a h = ground arith
search_of_has key (x ∷ l) a h = ground (arith, search_of_has key l a)

-- The user's descriptor is restored: for a bound one, and for any other that is no shadow
-- descriptor of a bound socket. No two bound sockets share a shadow descriptor.
originalfd-shadowfd :
    (p : Program) (fd : Word)
    → Distinct (shadowfds_of p.binds)
    → (has fd (fds_of p.binds) ≡ true) ⊎ (has fd (shadowfds_of p.binds) ≡ false)
    → originalfd p (shadowfd p fd) ≡ fd
unfolding originalfd shadowfd
originalfd-shadowfd p fd d h = elim (Option-cases (sockets_search_fd p.binds fd)) [
  | inl unbound ↦
      rw (unbound, shadowfd)
        (ground (
          arith,
          search-none_of_has (λ s. s.shadowfd) p.binds fd,
          search_of_has (λ s. s.fd) p.binds fd,
        ))
  | inr (s, found) ↦
      rw (found, shadowfd)
        (rw (search-other (λ s. s.fd) (λ s. s.shadowfd) p.binds fd d found, originalfd)
          (search-key (λ s. s.fd) p.binds fd found))
]

-- The other way round: a descriptor that is a bound socket's shadow, or is not bound itself, is
-- restored from the user's. No two bound sockets share a descriptor.
pub shadowfd-originalfd :
    (p : Program) (shadow : Word)
    → Distinct (fds_of p.binds)
    → (has shadow (shadowfds_of p.binds) ≡ true) ⊎ (has shadow (fds_of p.binds) ≡ false)
    → shadowfd p (originalfd p shadow) ≡ shadow
unfolding originalfd shadowfd
shadowfd-originalfd p shadow d h = elim (Option-cases (sockets_search_shadowfd p.binds shadow)) [
  | inl unbound ↦
      rw (unbound, originalfd)
        (ground (
          arith,
          search-none_of_has (λ s. s.fd) p.binds shadow,
          search_of_has (λ s. s.shadowfd) p.binds shadow,
        ))
  | inr (s, found) ↦
      rw (found, originalfd)
        (rw (search-other (λ s. s.shadowfd) (λ s. s.fd) p.binds shadow d found, shadowfd)
          (search-key (λ s. s.shadowfd) p.binds shadow found))
]
