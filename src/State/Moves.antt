-- ===== src/State/Moves.antt =====
-- The operations on the linked lists of sockets (src/state.c), with their pointers, against the
-- operations on lists that the other modules use.
use open_dsu.Prelude.{
  suc, ◌≡◌, ◌≢◌, refl, ◌∙◌, sym, ap, ap₂, Bool, true, false, some, List, [], ◌∷◌, ◌++◌, arith,
  length, ◌==◌, Bool-cases, inl, inr,
}
use open_dsu.Prelude.Words.{Word, Ptr}
use open_dsu.State.{Socket, sockets_remove_fd, sockets_transfer_fd}
use open_dsu.State.Remove.{sockets_add-append}
use open_dsu.State.Pointers.{
  Place, next_of, same_place, Heap, null, transfer_node, IsChain, contents, touches, IsOpen, IsUsed,
}
use open_dsu.State.Chains.{
  same_place_sound, touches-append, last_place, added, add_node-added, added-IsChain,
  contents-added, added-IsChain_other,
}
use open_dsu.State.Used.{added-IsUsed, added-IsUsed_new, removed-is_used, removed-IsUsed}
use open_dsu.State.Unlink.{
  stop_place, without, removed, remove_node-removed, removed-IsChain, touches-stop_place,
  removed-IsChain_other, contents-removed,
}

-- No place of the first list is one of the second.
abbrev pub IsApart : Place → List Ptr → Place → List Ptr → Type 0
IsApart at [] y qs = touches at y qs ≡ false
IsApart at (p ∷ ps) y qs = (touches at y qs ≡ false) × IsApart (next_of p) ps y qs

last_place-apart :
    (at y : Place) (ps qs : List Ptr) → IsApart at ps y qs → touches (last_place at ps) y qs ≡ false
last_place-apart at y [] qs apart = apart
last_place-apart at y (p ∷ ps) qs (here, apart) = last_place-apart (next_of p) y ps qs apart

same-apart :
    (x at y : Place) (qs : List Ptr)
    → touches at y qs ≡ false
    → touches x y qs ≡ true
    → same_place x at ≡ false
same-apart x at y qs away t = elim (Bool-cases (same_place x at)) [
  | inl same ↦
      let there : touches at y qs ≡ true =
        ap (λ z. touches z y qs) (sym (same_place_sound x at same)) ∙ t in
      ground arith
  | inr other ↦ other
]

touches-apart :
    (x at y : Place) (ps qs : List Ptr)
    → IsApart at ps y qs
    → touches x y qs ≡ true
    → touches x at ps ≡ false
touches-apart x at y [] qs apart t = same-apart x at y qs apart t
touches-apart x at y (p ∷ ps) qs (here, apart) t =
    ground (arith, same-apart x at y qs here t, touches-apart x (next_of p) y ps qs apart t)

apart-first : (at y : Place) (ps qs : List Ptr) → IsApart at ps y qs → touches at y qs ≡ false
apart-first at y [] qs apart = apart
apart-first at y (p ∷ ps) qs apart = apart.0

removed-IsUsed_apart :
    (test : Socket → Bool) (h : Heap Socket) (at y : Place) (ps qs : List Ptr) (p : Ptr)
    → IsApart at ps y qs
    → touches (next_of p) y qs ≡ false
    → IsUsed h (ps ++ p ∷ [])
    → IsUsed (removed test y qs h) (ps ++ p ∷ [])
removed-IsUsed_apart test h at y [] qs p apart fresh (here, u) =
    (removed-is_used test h y y qs p fresh ∙ here, tt)
removed-IsUsed_apart test h at y (q ∷ ps) qs p (first, apart) fresh (here, u) = (
  removed-is_used test h y y qs q (apart-first (next_of q) y ps qs apart) ∙ here,
  removed-IsUsed_apart test h (next_of q) y ps qs p apart fresh u,
)

contents-without :
    (h : Heap Socket) (fd : Word) (ps : List Ptr)
    → contents h (without (λ s. s.fd == fd) h ps) ≡ sockets_remove_fd (contents h ps) fd
unfolding sockets_remove_fd
contents-without h fd [] = refl
contents-without h fd (p ∷ ps) = ground (arith, contents-without h fd ps)

-- The places `dest` and `src` start two lists that do not come back to themselves and share no place,
-- no node of theirs is freed, and `malloc` gives a node that is in neither. Then `dsu_sockets_transfer_fd` of another node ends,
-- with one round more than each list has nodes, and leaves two lists in memory, without
-- a freed node, that hold what `sockets_transfer_fd` gives.
pub transfer_node-sockets_transfer_fd :
    (h : Heap Socket) (dest src : Place) (ps qs : List Ptr) (p from : Ptr)
    → p ≢ null
    → from ≢ p
    → IsChain h dest ps
    → IsChain h src qs
    → IsUsed h ps
    → IsUsed h qs
    → IsOpen dest ps
    → IsOpen src qs
    → IsApart dest ps src qs
    → touches (next_of p) dest ps ≡ false
    → touches (next_of p) src qs ≡ false
    → (h' : Heap Socket) × (qs' : List Ptr) × (transfer_node
          (λ s. s.fd)
          (suc (length ps))
          (suc (length qs))
          p
          dest
          src
          from
          h
        ≡ some (p, h'))
      × IsChain h' dest (ps ++ p ∷ [])
      × IsChain h' src qs'
      × IsUsed h' (ps ++ p ∷ [])
      × IsUsed h' qs'
      × ((contents h' (ps ++ p ∷ []), contents h' qs')
          ≡ sockets_transfer_fd (contents h ps) (contents h qs) (h.node from))
unfolding transfer_node sockets_transfer_fd
transfer_node-sockets_transfer_fd h dest src ps qs p from there other c e u v forward back apart
      fresh fresh' =
    let h1 : Heap Socket = added dest ps p (h.node from) h in
    let elsewhere : (from == p) ≡ false = ground arith in
    let kept : (h1.node from).fd ≡ (h.node from).fd = rw elsewhere refl in
    let test : Socket → Bool = λ s. s.fd == (h1.node from).fd in
    let (e1, same) =
      added-IsChain_other h dest src ps qs p (h.node from) fresh'
        (last_place-apart dest src ps qs apart) e in
    let stop = stop_place test h1 src qs in
    let t = touches-stop_place test h1 src qs in
    (
      removed test src qs h1,
      without test h1 qs,
      rw
          (
            add_node-added h dest ps p (h.node from) fresh c,
            remove_node-removed test h1 src qs e1,
            transfer_node,
          )
          refl,
      removed-IsChain_other test h1 src dest qs (ps ++ p ∷ [])
          (touches-append stop dest ps p
            ∙ ground (
              arith,
              touches-apart stop dest src ps qs apart t,
              same-apart stop (next_of p) src qs fresh' t,
            ))
          (added-IsChain h dest ps p (h.node from) there forward fresh c),
      removed-IsChain test h1 src qs back e1,
      removed-IsUsed_apart test h1 dest src ps qs p apart fresh'
          (added-IsUsed_new h dest ps ps p (h.node from) u),
      removed-IsUsed test h1 src qs back (added-IsUsed h dest ps qs p (h.node from) v),
      ap₂ (λ l m. (l, m))
          (contents-removed test h1 src qs (ps ++ p ∷ [])
            ∙ contents-added h dest ps p (h.node from) fresh
            ∙ sym (sockets_add-append (contents h ps) (h.node from)))
          (contents-removed test h1 src qs (without test h1 qs)
            ∙ contents-without h1 (h1.node from).fd qs
            ∙ ap₂ sockets_remove_fd same kept),
    )
