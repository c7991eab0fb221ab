-- ===== src/State/Unlink.antt =====
-- A node leaves a linked list of src/state.c, and a search walks over it (State.Pointers).
use open_dsu.Prelude.{
  suc, ◌≡◌, refl, ◌∙◌, ap, ap₂, Bool, true, false, some, List, [], ◌∷◌, arith, length, ◌==◌,
  if◌then◌else◌, Bool-cases, inl, inr,
}
use open_dsu.Prelude.Words.{Ptr}
use open_dsu.State.Pointers.{
  Place, next_of, same_place, Heap, null, put_pointer, free, place_of, remove_node, search_node,
  IsChain, contents, touches, IsOpen,
}
use open_dsu.State.Chains.{IsChain-put_pointer, IsChain-free, same_place_refl}

contents-same :
    {A : Type 0} (h h' : Heap A) (ps : List Ptr) → h'.node ≡ h.node → contents h' ps ≡ contents h ps
contents-same h h' [] same = refl
contents-same h h' (p ∷ ps) same = ap₂ ◌∷◌ (ap (λ f. f p) same) (contents-same h h' ps same)

module _ {A : Type 0} (test : A → Bool) where
  -- The place that points to the first node that passes, or the last place.
  abbrev pub stop_place : Heap A → Place → List Ptr → Place
  stop_place h at [] = at
  stop_place h at (p ∷ ps) = if test (h.node p) then at else stop_place h (next_of p) ps

  -- The addresses without the first node that passes.
  abbrev pub without : Heap A → List Ptr → List Ptr
  without h [] = []
  without h (p ∷ ps) = if test (h.node p) then ps else p ∷ without h ps

  abbrev pub removed : Place → List Ptr → Heap A → Heap A
  removed at [] h = h
  removed at (p ∷ ps) h =
      if test (h.node p)
      then free p (put_pointer at (h.cell (next_of p)) h)
      else removed (next_of p) ps h

  same_place-stop_place :
      (h : Heap A) (x at : Place) (ps : List Ptr)
      → touches x at ps ≡ false
      → same_place x (stop_place h at ps) ≡ false
  same_place-stop_place h x at [] t = t
  same_place-stop_place h x at (p ∷ ps) t = ground (arith, same_place-stop_place h x (next_of p) ps)

  removed-node : (h : Heap A) (at : Place) (ps : List Ptr) → (removed at ps h).node ≡ h.node
  removed-node h at [] = refl
  removed-node h at (p ∷ ps) = ground (arith, removed-node h (next_of p) ps)

  removed-cell :
      (h : Heap A) (at x : Place) (ps : List Ptr)
      → same_place x (stop_place h at ps) ≡ false
      → (removed at ps h).cell x ≡ h.cell x
  removed-cell h at x [] t = refl
  removed-cell h at x (p ∷ ps) t = ground (arith, removed-cell h (next_of p) x ps)

  place_of-stop_place :
      (h : Heap A) (at : Place) (ps : List Ptr)
      → IsChain h at ps
      → place_of test (suc (length ps)) h at ≡ some (stop_place h at ps)
  unfolding place_of
  place_of-stop_place h at [] c = ground arith
  place_of-stop_place h at (p ∷ ps) (here, there, c) =
      ground (arith, place_of-stop_place h (next_of p) ps c)

  -- What the code writes behind its loop.
  abbrev unlink : Place → Heap A → Heap A
  unlink at h =
      if h.cell at == null
      then h
      else free (h.cell at) (put_pointer at (h.cell (next_of (h.cell at))) h)

  unlink-stop_place :
      (h : Heap A) (at : Place) (ps : List Ptr)
      → IsChain h at ps
      → unlink (stop_place h at ps) h ≡ removed at ps h
  unlink-stop_place h at [] c = rw c refl
  unlink-stop_place h at (p ∷ ps) (here, there, c) = elim (Bool-cases (test (h.node p))) [
    | inl hit ↦ let some_node : (p == null) ≡ false = ground arith in rw (hit, here, some_node) refl
    | inr miss ↦ rw miss (unlink-stop_place h (next_of p) ps c)
  ]

  pub remove_node-removed :
      (h : Heap A) (at : Place) (ps : List Ptr)
      → IsChain h at ps
      → remove_node test (suc (length ps)) at h ≡ some (removed at ps h)
  unfolding remove_node
  remove_node-removed h at ps c =
      rw (place_of-stop_place h at ps c, remove_node) (ap some (unlink-stop_place h at ps c))

  -- A list that starts behind a node may start at another place of its own.
  IsChain-moves :
      (h : Heap A) (at from : Place) (ps : List Ptr)
      → touches at from ps ≡ false
      → IsChain h from ps
      → IsChain (put_pointer at (h.cell from) h) at ps
  IsChain-moves h at from [] away c = rw (same_place_refl at) c
  IsChain-moves h at from (p ∷ ps) away (here, there, c) = (
    rw (same_place_refl at) here,
    there,
    IsChain-put_pointer h (next_of p) at (h.cell from) ps (ground arith) c,
  )

  pub removed-IsChain :
      (h : Heap A) (at : Place) (ps : List Ptr)
      → IsOpen at ps
      → IsChain h at ps
      → IsChain (removed at ps h) at (without h ps)
  removed-IsChain h at [] forward c = c
  removed-IsChain h at (p ∷ ps) (apart, forward) (here, there, c) =
      elim (Bool-cases (test (h.node p))) [
        | inl hit ↦ rw hit (
            IsChain-free (put_pointer at (h.cell (next_of p)) h) at p ps
              (IsChain-moves h at (next_of p) ps apart c))
        | inr miss ↦ rw miss (
          removed-cell h (next_of p) at ps (same_place-stop_place h at (next_of p) ps apart) ∙ here,
          there,
          removed-IsChain h (next_of p) ps forward c,
        )
      ]

  pub touches-stop_place :
      (h : Heap A) (at : Place) (ps : List Ptr) → touches (stop_place h at ps) at ps ≡ true
  touches-stop_place h at [] = same_place_refl at
  touches-stop_place h at (p ∷ ps) =
      ground (arith, touches-stop_place h (next_of p) ps, same_place_refl at)

  -- A list without the place that changes stays as it is.
  pub removed-IsChain_other :
      (h : Heap A) (at y : Place) (ps qs : List Ptr)
      → touches (stop_place h at ps) y qs ≡ false
      → IsChain h y qs
      → IsChain (removed at ps h) y qs
  removed-IsChain_other h at y [] qs away c = c
  removed-IsChain_other h at y (p ∷ ps) qs away c = elim (Bool-cases (test (h.node p))) [
    | inl hit ↦ rw hit (
        IsChain-free (put_pointer at (h.cell (next_of p)) h) y p qs
          (IsChain-put_pointer h y at (h.cell (next_of p)) qs (ground (arith, hit)) c))
    | inr miss ↦ rw miss (removed-IsChain_other h (next_of p) y ps qs (ground (arith, miss)) c)
  ]

  pub contents-removed :
      (h : Heap A) (at : Place) (ps qs : List Ptr) → contents (removed at ps h) qs ≡ contents h qs
  contents-removed h at ps qs = contents-same h (removed at ps h) qs (removed-node h at ps)

  -- The search finds the address of the first node that passes.
  abbrev pub first_node : Heap A → List Ptr → Ptr
  first_node h [] = null
  first_node h (p ∷ ps) = if test (h.node p) then p else first_node h ps

  pub search_node-first_node :
      (h : Heap A) (at : Place) (ps : List Ptr)
      → IsChain h at ps
      → search_node test (suc (length ps)) h (h.cell at) ≡ some (first_node h ps)
  unfolding search_node
  search_node-first_node h at [] c = rw (c, search_node) refl
  search_node-first_node h at (p ∷ ps) (here, there, c) =
      let some_node : (p == null) ≡ false = ground arith in
      let rest = search_node-first_node h (next_of p) ps c in
      elim (Bool-cases (test (h.node p))) [
        | inl hit ↦ rw (here, some_node, hit, search_node) refl
        | inr miss ↦ rw (here, some_node, miss, search_node) rest
      ]
