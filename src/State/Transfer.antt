-- ===== src/State/Transfer.antt =====
-- `dsu_sockets_transfer_fd` (src/state.c) moves one node, and the well-formedness of the two lists.
use mathlib.Core.List.{Perm, append_assoc}
use mathlib.Core.List.Perm
use open_dsu.Prelude.{◌≡◌, some, List, [], ◌∷◌, ◌++◌, arith, ◌==◌, Bool-cases, inl, inr}
use open_dsu.Prelude.Words.{Word}
use open_dsu.State.{Socket, sockets_remove_fd, sockets_transfer_fd, sockets_search_fd, search}
use open_dsu.State.Remove.{sockets_add-append}

-- What a removal takes out is the node that the search finds.
remove_fd-perm :
    (l : List Socket) (a : Word) {s : Socket}
    → sockets_search_fd l a ≡ some s
    → Perm l (s ∷ sockets_remove_fd l a)
unfolding search sockets_remove_fd
remove_fd-perm [] a h = ground arith
remove_fd-perm (x ∷ l) a {s} h = elim (Bool-cases (x.fd == a)) [
  | inl hit ↦ rw hit (Perm.cons' (ground arith) Perm.rfl)
  | inr miss ↦
      rw miss
        (Perm.trans (Perm.cons x (remove_fd-perm l a {s = s} (ground arith))) (Perm.swap s x _))
]

-- A transfer of the node that the source list has for its descriptor loses no node and makes none
-- up: both lists together hold the same nodes as before.
pub transfer_fd-perm :
    (dest src : List Socket) (s : Socket)
    → sockets_search_fd src s.fd ≡ some s
    → let (dest', src') = sockets_transfer_fd dest src s in Perm (dest' ++ src') (dest ++ src)
unfolding sockets_transfer_fd
transfer_fd-perm dest src s found =
    rw (sockets_add-append dest s, append_assoc)
      (Perm.append_left dest (Perm.symm (remove_fd-perm src s.fd found)))
