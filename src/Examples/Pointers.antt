-- ===== src/Examples/Pointers.antt =====
-- Two linked lists of sockets in memory: the list from place 1 has a node, the one from 2 has two.
use open_dsu.Prelude.{◌≡◌, refl, some, List, [], ◌∷◌, arith, ◌==◌, ◌||◌, if◌then◌else◌}
use open_dsu.Prelude.Words.{Ptr}
use open_dsu.State.{Socket, has_fd, search, modify, sockets_transfer_fd}
use open_dsu.State.Pointers.{
  Place, head_at, next_of, Heap, search_node, transfer_node, IsChain, IsUsed, contents,
}
use open_dsu.State.Moves.{transfer_node-sockets_transfer_fd}
use open_dsu.State.Found.{IsFound, update, search_node-modify}
use open_dsu.Examples.World.{web, plain_socket}

abbrev pointer_at : Place → Ptr
pointer_at (head_at a) = if a == 1 then 101 else 102
pointer_at (next_of a) = if a == 102 then 103 else 0

abbrev lists : Heap Socket
lists = record {
  cell = pointer_at;
  is_used = λ p. (p == 101) || (p == 102) || (p == 103);
  node = λ p. if p == 101 then web else if p == 102 then record web { fd = 9 } else plain_socket;
}

transfer_node-sockets_transfer_fd_example :
    (h' : Heap Socket) × (qs' : List Ptr) × (transfer_node
        (λ s. s.fd)
        2
        3
        104
        (head_at 1)
        (head_at 2)
        103
        lists
      ≡ some (104, h'))
    × IsChain h' (head_at 1) (101 ∷ 104 ∷ [])
    × IsChain h' (head_at 2) qs'
    × IsUsed h' (101 ∷ 104 ∷ [])
    × IsUsed h' qs'
    × ((contents h' (101 ∷ 104 ∷ []), contents h' qs')
        ≡ sockets_transfer_fd (web ∷ []) (record web { fd = 9 } ∷ plain_socket ∷ []) plain_socket)
transfer_node-sockets_transfer_fd_example =
    transfer_node-sockets_transfer_fd lists (head_at 1) (head_at 2) (101 ∷ []) (102 ∷ 103 ∷ []) 104
      103 (omega arith) (omega arith) (refl, omega arith, refl)
      (refl, omega arith, (refl, omega arith, refl)) (refl, tt) (refl, (refl, tt)) (refl, tt)
      (refl, (refl, tt)) (refl, refl) refl refl

search_node-modify_example :
    (p : Ptr) × (search_node (has_fd 6) 3 lists 102 ≡ some p)
    × IsFound lists (search (has_fd 6) (record web { fd = 9 } ∷ plain_socket ∷ [])) p
    × (contents (update (λ s. record s { locked = 1 }) p lists) (102 ∷ 103 ∷ [])
        ≡ modify
            (has_fd 6)
            (λ s. record s { locked = 1 })
            (record web { fd = 9 } ∷ plain_socket ∷ []))
search_node-modify_example =
    search_node-modify (has_fd 6) (λ s. record s { locked = 1 }) lists (head_at 2) (102 ∷ 103 ∷ [])
      (refl, (refl, tt)) (refl, omega arith, (refl, omega arith, refl))
