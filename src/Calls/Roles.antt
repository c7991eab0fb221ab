-- ===== src/Calls/Roles.antt =====
-- In how many roles the program state knows a descriptor.
use open_dsu.Prelude.{
  ℕ, ◌+◌, ◌≤◌, ◌≡◌, refl, Bool, ◌&&◌, some, List, [], ◌∷◌, arith, ◌==◌, if◌then◌else◌, count,
}
use open_dsu.Prelude.Words.{Word, truth}
use open_dsu.State.{Socket, Program, search, modify, sockets_remove_fd, sockets_search_fd}
use open_dsu.State.Remove.{fds_of}

-- As the communication socket that is monitored, an internal connection, a client's connection.
abbrev pub roles_at : Word → Socket → ℕ
roles_at fd s =
    (if (s.comfd == fd) && truth s.monitoring then 1 else 0) + count fd s.comfds + count fd s.fds

abbrev pub sum_of : (Socket → ℕ) → List Socket → ℕ
sum_of f [] = 0
sum_of f (s ∷ rest) = f s + sum_of f rest

-- Besides, as a socket that is not bound, and as one that is.
abbrev pub roles : Word → Program → ℕ
roles fd p = count fd (fds_of p.sockets) + count fd (fds_of p.binds) + sum_of (roles_at fd) p.binds

-- A write through the pointer of a search changes a sum by its change at that node.
pub sum-modify :
    (f : Socket → ℕ) (test : Socket → Bool) (g : Socket → Socket) (l : List Socket) {s : Socket}
    → search test l ≡ some s
    → sum_of f (modify test g l) + f s ≡ sum_of f l + f (g s)
unfolding search modify
sum-modify f test g [] h = ground arith
sum-modify f test g (x ∷ l) {s} h = ground (arith, sum-modify f test g l {s = s})

sum-modify_le :
    (f : Socket → ℕ) (test : Socket → Bool) (g : Socket → Socket) (l : List Socket)
    → ((s : Socket) → f (g s) ≤ f s)
    → sum_of f (modify test g l) ≤ sum_of f l
unfolding modify
sum-modify_le f test g [] h = omega arith
sum-modify_le f test g (x ∷ l) h = ground (arith, sum-modify_le f test g l h, h x)

pub sum-remove_le :
    (f : Socket → ℕ) (l : List Socket) (a : Word) → sum_of f (sockets_remove_fd l a) ≤ sum_of f l
unfolding sockets_remove_fd
sum-remove_le f [] a = omega arith
sum-remove_le f (x ∷ l) a = ground (arith, sum-remove_le f l a)

pub count-remove :
    (l : List Socket) (a b : Word) {s : Socket}
    → sockets_search_fd l a ≡ some s
    → count b (fds_of (sockets_remove_fd l a)) + (if a == b then 1 else 0) ≡ count b (fds_of l)
unfolding search sockets_remove_fd
count-remove [] a b h = ground arith
count-remove (x ∷ l) a b {s} h = ground (arith, count-remove l a b {s = s})

pub count-modify :
    (test : Socket → Bool) (g : Socket → Socket) (l : List Socket) (b : Word)
    → ((s : Socket) → (g s).fd ≡ s.fd)
    → count b (fds_of (modify test g l)) ≡ count b (fds_of l)
unfolding modify
count-modify test g [] b h = refl
count-modify test g (x ∷ l) b h = ground (arith, count-modify test g l b h, h x)
