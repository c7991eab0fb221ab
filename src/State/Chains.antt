-- ===== src/State/Chains.antt =====
-- The loops over the linked lists of src/state.c (State.Pointers) end, and change the list that a
-- place starts as the operations on lists do.
use open_dsu.Prelude.{
  suc, ◌≡◌, ◌≢◌, refl, ◌∙◌, sym, ap, ap₂, true, false, ◌||◌, some, List, [], ◌∷◌, ◌++◌, arith,
  length, ◌==◌, Bool-cases, inl, inr,
}
use open_dsu.Prelude.Words.{Ptr}
use open_dsu.State.Pointers.{
  Place, head_at, next_of, same_place, Heap, null, put_pointer, fill, free, end_of, add_node,
  IsChain, contents, touches, IsOpen,
}

pub same_place_refl : (at : Place) → same_place at at ≡ true
same_place_refl (head_at a) = ground arith
same_place_refl (next_of a) = ground arith

pub same_place_sound : (x y : Place) → same_place x y ≡ true → x ≡ y
same_place_sound (head_at a) (head_at b) h = ap head_at (ground arith)
same_place_sound (next_of a) (next_of b) h = ap next_of (ground arith)
same_place_sound (head_at a) (next_of b) h = ground arith
same_place_sound (next_of a) (head_at b) h = ground arith

pub same_place_sym : (x y : Place) → same_place x y ≡ same_place y x
same_place_sym (head_at a) (head_at b) = ground arith
same_place_sym (next_of a) (next_of b) = ground arith
same_place_sym (head_at a) (next_of b) = refl
same_place_sym (next_of a) (head_at b) = refl

pub touches-append :
    (x at : Place) (ps : List Ptr) (p : Ptr)
    → touches x at (ps ++ p ∷ []) ≡ (touches x at ps || same_place x (next_of p))
touches-append x at [] p = refl
touches-append x at (q ∷ ps) p = ground (arith, touches-append x (next_of q) ps p)

pub touches-first :
    (x at : Place) (ps : List Ptr) → touches x at ps ≡ false → same_place x at ≡ false
touches-first x at [] h = h
touches-first x at (p ∷ ps) h = ground arith

-- A node of an open list is not behind itself; `head_at 0` is the place of no node.
pub touches-behind :
    (p : Ptr) (ps : List Ptr) → IsOpen (next_of p) ps → touches (next_of p) (head_at 0) ps ≡ false
touches-behind p [] forward = refl
touches-behind p (q ∷ ps) forward = forward.0

-- The place behind the last node.
abbrev pub last_place : Place → List Ptr → Place
last_place at [] = at
last_place at (p ∷ ps) = last_place (next_of p) ps

pub touches-last_place :
    (x at : Place) (ps : List Ptr)
    → touches x at ps ≡ false
    → same_place x (last_place at ps) ≡ false
touches-last_place x at [] h = h
touches-last_place x at (p ∷ ps) h = touches-last_place x (next_of p) ps (ground arith)

pub IsOpen-append :
    (at : Place) (ps : List Ptr) (p : Ptr)
    → IsOpen at ps
    → touches (next_of p) at ps ≡ false
    → IsOpen at (ps ++ p ∷ [])
IsOpen-append at [] p forward away = (same_place_sym at (next_of p) ∙ away, tt)
IsOpen-append at (q ∷ ps) p (here, forward) away = (
  touches-append at (next_of q) ps p ∙ ground (arith, same_place_sym at (next_of p)),
  IsOpen-append (next_of q) ps p forward (ground arith),
)

module _ {A : Type 0} where
  -- A list does not depend on the other places.
  IsChain-cell :
      (h h' : Heap A) (at : Place) (ps : List Ptr)
      → ((x : Place) → touches x at ps ≡ true → h'.cell x ≡ h.cell x)
      → IsChain h at ps
      → IsChain h' at ps
  IsChain-cell h h' at [] same c = same at (same_place_refl at) ∙ c
  IsChain-cell h h' at (p ∷ ps) same (here, there, c) = (
    same at (ground (arith, same_place_refl at)) ∙ here,
    there,
    IsChain-cell h h' (next_of p) ps (λ x t. same x (ground arith)) c,
  )

  pub IsChain-put_pointer :
      (h : Heap A) (at x : Place) (p : Ptr) (ps : List Ptr)
      → touches x at ps ≡ false
      → IsChain h at ps
      → IsChain (put_pointer x p h) at ps
  IsChain-put_pointer h at x p ps away = IsChain-cell h (put_pointer x p h) at ps (λ y t.
      elim (Bool-cases (same_place y x)) [
        | inl same ↦
            let e : y ≡ x = same_place_sound y x same in
            let there : touches x at ps ≡ true = ap (λ z. touches z at ps) (sym e) ∙ t in
            ground arith
        | inr other ↦ rw other refl
      ])

  pub IsChain-free :
      (h : Heap A) (at : Place) (p : Ptr) (ps : List Ptr)
      → IsChain h at ps
      → IsChain (free p h) at ps
  IsChain-free h at p ps = IsChain-cell h (free p h) at ps (λ x t. refl)

  end_of-last_place :
      (h : Heap A) (at : Place) (ps : List Ptr)
      → IsChain h at ps
      → end_of (suc (length ps)) h at ≡ some (last_place at ps)
  unfolding end_of
  end_of-last_place h at [] c = ground arith
  end_of-last_place h at (p ∷ ps) (here, there, c) =
      ground (arith, end_of-last_place h (next_of p) ps c)

  -- A node of its own behind the last one.
  put_pointer-append :
      (h : Heap A) (at : Place) (ps : List Ptr) (p : Ptr)
      → p ≢ null
      → IsOpen at ps
      → IsChain h at ps
      → h.cell (next_of p) ≡ null
      → touches (next_of p) at ps ≡ false
      → IsChain (put_pointer (last_place at ps) p h) at (ps ++ p ∷ [])
  put_pointer-append h at [] p there forward c fresh away =
      (rw (same_place_refl at) refl, there, rw (away, put_pointer) fresh)
  put_pointer-append h at (q ∷ ps) p there (apart, forward) (here, some_node, c) fresh away = (
    rw (touches-last_place at (next_of q) ps apart) here,
    some_node,
    put_pointer-append h (next_of q) ps p there forward c fresh (ground arith),
  )

  contents-append :
      (h : Heap A) (ps : List Ptr) (p : Ptr)
      → contents h (ps ++ p ∷ []) ≡ contents h ps ++ h.node p ∷ []
  contents-append h [] p = refl
  contents-append h (q ∷ ps) p = ap (λ l. h.node q ∷ l) (contents-append h ps p)

  -- The contents do not depend on a node that is not in the list.
  pub contents-node :
      (h h' : Heap A) (at : Place) (ps : List Ptr) (p : Ptr)
      → touches (next_of p) at ps ≡ false
      → ((q : Ptr) → (q == p) ≡ false → h'.node q ≡ h.node q)
      → contents h' ps ≡ contents h ps
  contents-node h h' at [] p away same = refl
  contents-node h h' at (q ∷ ps) p away same =
      ap₂ ◌∷◌ (same q (ground (arith, touches-first (next_of p) (next_of q) ps)))
        (contents-node h h' (next_of q) ps p (ground arith) same)

  -- A new node, with its own place empty.
  abbrev pub filled : Ptr → A → Heap A → Heap A
  filled p new h = put_pointer (next_of p) null (fill p new h)

  abbrev pub added : Place → List Ptr → Ptr → A → Heap A → Heap A
  added at ps p new h = put_pointer (last_place at ps) p (filled p new h)

  filled-IsChain :
      (h : Heap A) (at : Place) (ps : List Ptr) (p : Ptr) (new : A)
      → touches (next_of p) at ps ≡ false
      → IsChain h at ps
      → IsChain (filled p new h) at ps
  filled-IsChain h at ps p new away c =
      IsChain-put_pointer (fill p new h) at (next_of p) null ps away
        (IsChain-cell h (fill p new h) at ps (λ x t. refl) c)

  pub add_node-added :
      (h : Heap A) (at : Place) (ps : List Ptr) (p : Ptr) (new : A)
      → touches (next_of p) at ps ≡ false
      → IsChain h at ps
      → add_node (suc (length ps)) p at new h ≡ some (p, added at ps p new h)
  unfolding add_node
  add_node-added h at ps p new away c =
      rw (end_of-last_place (filled p new h) at ps (filled-IsChain h at ps p new away c), add_node)
        refl

  pub added-IsChain :
      (h : Heap A) (at : Place) (ps : List Ptr) (p : Ptr) (new : A)
      → p ≢ null
      → IsOpen at ps
      → touches (next_of p) at ps ≡ false
      → IsChain h at ps
      → IsChain (added at ps p new h) at (ps ++ p ∷ [])
  added-IsChain h at ps p new there forward away c =
      put_pointer-append (filled p new h) at ps p there forward
        (filled-IsChain h at ps p new away c) (rw (same_place_refl (next_of p)) refl) away

  pub contents-added :
      (h : Heap A) (at : Place) (ps : List Ptr) (p : Ptr) (new : A)
      → touches (next_of p) at ps ≡ false
      → contents (added at ps p new h) (ps ++ p ∷ []) ≡ contents h ps ++ new ∷ []
  contents-added h at ps p new away =
      contents-append (added at ps p new h) ps p
      ∙ ap₂ (λ l a. l ++ a ∷ [])
          (contents-node h (added at ps p new h) at ps p away (λ q other. rw other refl))
          (ground arith)

  -- A list without the places that change stays as it is.
  pub added-IsChain_other :
      (h : Heap A) (at y : Place) (ps qs : List Ptr) (p : Ptr) (new : A)
      → touches (next_of p) y qs ≡ false
      → touches (last_place at ps) y qs ≡ false
      → IsChain h y qs
      → IsChain (added at ps p new h) y qs × (contents (added at ps p new h) qs ≡ contents h qs)
  added-IsChain_other h at y ps qs p new fresh away c = (
    IsChain-put_pointer (filled p new h) y (last_place at ps) p qs away
        (filled-IsChain h y qs p new fresh c),
    contents-node h (added at ps p new h) y qs p fresh (λ q other. rw other refl),
  )
