-- ===== src/State/Remove.antt =====
-- `dsu_sockets_add` and `dsu_sockets_remove_fd` (src/state.c): what a later search finds.
use open_dsu.Prelude.{
  ◌≡◌, refl, ap, ◌≢◌, true, false, none, some, List, [], ◌∷◌, ◌++◌, arith, has, Distinct, All,
}
use open_dsu.Prelude.Words.{Word}
use open_dsu.State.{Socket, sockets_add, sockets_remove_fd, search, sockets_search_fd}

-- The values of one field, in order.
abbrev pub values : (Socket → Word) → List Socket → List Word
values key [] = []
values key (s ∷ rest) = key s ∷ values key rest

abbrev pub fds_of : List Socket → List Word
fds_of = values (λ s. s.fd)

abbrev pub shadowfds_of : List Socket → List Word
shadowfds_of = values (λ s. s.shadowfd)

pub sockets_add-append : (l : List Socket) (s : Socket) → sockets_add l s ≡ l ++ s ∷ []
unfolding sockets_add
sockets_add-append [] s = refl
sockets_add-append (x ∷ l) s = ap (λ r. x ∷ r) (sockets_add-append l s)

values-append :
    (key : Socket → Word) (l m : List Socket) → values key (l ++ m) ≡ values key l ++ values key m
values-append key [] m = refl
values-append key (x ∷ l) m = ap (λ r. key x ∷ r) (values-append key l m)

-- A search by `fd` fails exactly where no node has it.
search_fd-none :
    (l : List Socket) (fd : Word) → has fd (fds_of l) ≡ false → sockets_search_fd l fd ≡ none
unfolding search
search_fd-none [] fd h = refl
search_fd-none (x ∷ l) fd h = ground (arith, search_fd-none l fd)

has_of_search_fd :
    (l : List Socket) (fd : Word) {s : Socket}
    → sockets_search_fd l fd ≡ some s
    → has fd (fds_of l) ≡ true
unfolding search
has_of_search_fd [] fd h = ground arith
has_of_search_fd (x ∷ l) fd {s} h = ground (arith, has_of_search_fd l fd {s = s})

-- Removing one descriptor leaves the search for any other one alone.
search_fd-remove_ne :
    (l : List Socket) (a b : Word)
    → a ≢ b
    → sockets_search_fd (sockets_remove_fd l a) b ≡ sockets_search_fd l b
unfolding search sockets_remove_fd
search_fd-remove_ne [] a b h = refl
search_fd-remove_ne (x ∷ l) a b h = ground (arith, search_fd-remove_ne l a b h)

remove_fd-absent :
    (l : List Socket) (a : Word) → has a (fds_of l) ≡ false → sockets_remove_fd l a ≡ l
unfolding sockets_remove_fd
remove_fd-absent [] a h = refl
remove_fd-absent (x ∷ l) a h = ground (arith, remove_fd-absent l a)

has-remove_ne :
    (key : Socket → Word) (l : List Socket) (a b : Word)
    → has b (values key l) ≡ false
    → has b (values key (sockets_remove_fd l a)) ≡ false
unfolding sockets_remove_fd
has-remove_ne key [] a b h = refl
has-remove_ne key (x ∷ l) a b h = ground (arith, has-remove_ne key l a b)

-- With distinct descriptors a removed one is gone.
has-remove_fd :
    (l : List Socket) (a : Word)
    → Distinct (fds_of l)
    → has a (fds_of (sockets_remove_fd l a)) ≡ false
unfolding sockets_remove_fd
has-remove_fd [] a d = refl
has-remove_fd (x ∷ l) a d = ground (arith, has-remove_fd l a d.1)

pub Distinct-remove :
    (key : Socket → Word) (l : List Socket) (a : Word)
    → Distinct (values key l)
    → Distinct (values key (sockets_remove_fd l a))
unfolding sockets_remove_fd
Distinct-remove key [] a d = tt
Distinct-remove key (x ∷ l) a d =
    ground (arith, has-remove_ne key l a (key x), Distinct-remove key l a d.1)

-- A node other than the removed one keeps its properties.
pub All-remove :
    (P : Socket → Type 0) (l : List Socket) (a : Word) → All P l → All P (sockets_remove_fd l a)
unfolding sockets_remove_fd
All-remove P [] a h = tt
All-remove P (x ∷ l) a h = ground (arith, All-remove P l a h.1)
