-- ===== src/State/Used.antt =====
-- No list of sockets leads to a node that is freed (State.Pointers).
use open_dsu.Prelude.{◌≡◌, refl, ◌∙◌, Bool, false, List, [], ◌∷◌, ◌++◌, arith, Bool-cases, inl, inr}
use open_dsu.Prelude.Words.{Ptr}
use open_dsu.State.Pointers.{
  Place, head_at, next_of, Heap, put_pointer, free, touches, IsOpen, IsUsed,
}
use open_dsu.State.Chains.{added, touches-first, touches-behind}
use open_dsu.State.Unlink.{without, removed}

module _ {A : Type 0} where
  IsUsed-free :
      (h : Heap A) (at y : Place) (x p : Ptr) (ps : List Ptr)
      → touches (next_of p) y ps ≡ false
      → IsUsed h ps
      → IsUsed (free p (put_pointer at x h)) ps
  IsUsed-free h at y x p [] away u = tt
  IsUsed-free h at y x p (q ∷ ps) away (here, u) = (
    ground (arith, touches-first (next_of p) (next_of q) ps, here),
    IsUsed-free h at (next_of q) x p ps (ground arith) u,
  )

  pub added-IsUsed :
      (h : Heap A) (at : Place) (ps qs : List Ptr) (p : Ptr) (new : A)
      → IsUsed h qs
      → IsUsed (added at ps p new h) qs
  added-IsUsed h at ps [] p new u = tt
  added-IsUsed h at ps (q ∷ qs) p new (here, u) =
      (ground (arith, here), added-IsUsed h at ps qs p new u)

  pub added-IsUsed_new :
      (h : Heap A) (at : Place) (ps qs : List Ptr) (p : Ptr) (new : A)
      → IsUsed h qs
      → IsUsed (added at ps p new h) (qs ++ p ∷ [])
  added-IsUsed_new h at ps [] p new u = (ground arith, tt)
  added-IsUsed_new h at ps (q ∷ qs) p new (here, u) =
      (ground (arith, here), added-IsUsed_new h at ps qs p new u)

  -- A node that is not in the list stays.
  pub removed-is_used :
      (test : A → Bool) (h : Heap A) (at y : Place) (ps : List Ptr) (p : Ptr)
      → touches (next_of p) y ps ≡ false
      → (removed test at ps h).is_used p ≡ h.is_used p
  removed-is_used test h at y [] p away = refl
  removed-is_used test h at y (q ∷ ps) p away =
      let first = touches-first (next_of p) (next_of q) ps (ground arith) in
      ground (arith, first, removed-is_used test h (next_of q) (next_of q) ps p (ground arith))

  pub removed-IsUsed :
      (test : A → Bool) (h : Heap A) (at : Place) (ps : List Ptr)
      → IsOpen at ps
      → IsUsed h ps
      → IsUsed (removed test at ps h) (without test h ps)
  removed-IsUsed test h at [] forward u = tt
  removed-IsUsed test h at (p ∷ ps) (apart, forward) (here, u) =
      let behind = touches-behind p ps forward in
      elim (Bool-cases (test (h.node p))) [
        | inl hit ↦ rw hit (IsUsed-free h at (head_at 0) (h.cell (next_of p)) p ps behind u)
        | inr miss ↦ rw miss (
          removed-is_used test h (next_of p) (head_at 0) ps p behind ∙ here,
          removed-IsUsed test h (next_of p) ps forward u,
        )
      ]
