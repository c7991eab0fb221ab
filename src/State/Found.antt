-- ===== src/State/Found.antt =====
-- The pointer that a search through the sockets returns (src/state.c), and a write through it.
use open_dsu.Prelude.{
  suc, ◌≡◌, ◌≢◌, refl, ◌∙◌, ap, ap₂, Bool, false, Option, none, some, List, [], ◌∷◌, arith, length,
  ◌==◌, if◌then◌else◌, Bool-cases, inl, inr,
}
use open_dsu.Prelude.Words.{Ptr}
use open_dsu.State.{Socket, search, modify}
use open_dsu.State.Pointers.{
  Place, head_at, next_of, Heap, null, search_node, IsChain, contents, touches, IsOpen,
}
use open_dsu.State.Chains.{contents-node, touches-first, touches-behind}
use open_dsu.State.Unlink.{first_node, search_node-first_node}

-- What a search finds, and the pointer that it returns.
abbrev pub IsFound : Heap Socket → Option Socket → Ptr → Type 0
IsFound h none p = p ≡ null
IsFound h (some s) p = (p ≢ null) × (h.node p ≡ s)

-- `*p` becomes what `f` makes of it.
abbrev pub update : (Socket → Socket) → Ptr → Heap Socket → Heap Socket
update f p h = record h { node = λ q. if q == p then f (h.node p) else h.node q }

module _ (test : Socket → Bool) where
  first_node-IsFound :
      (h : Heap Socket) (at : Place) (ps : List Ptr)
      → IsChain h at ps
      → IsFound h (search test (contents h ps)) (first_node test h ps)
  unfolding search
  first_node-IsFound h at [] c = refl
  first_node-IsFound h at (p ∷ ps) (here, there, c) = elim (Bool-cases (test (h.node p))) [
    | inl hit ↦ rw hit (there, refl)
    | inr miss ↦ rw miss (first_node-IsFound h (next_of p) ps c)
  ]

  first_node_ne :
      (h : Heap Socket) (y : Place) (ps : List Ptr) (p : Ptr)
      → p ≢ null
      → touches (next_of p) y ps ≡ false
      → (p == first_node test h ps) ≡ false
  first_node_ne h y [] p there away = ground arith
  first_node_ne h y (q ∷ ps) p there away =
      let first = touches-first (next_of p) (next_of q) ps (ground arith) in
      ground (arith, first, first_node_ne h (next_of q) ps p there (ground arith))

  contents-update :
      (f : Socket → Socket) (h : Heap Socket) (at : Place) (ps : List Ptr)
      → IsOpen at ps
      → IsChain h at ps
      → contents (update f (first_node test h ps) h) ps ≡ modify test f (contents h ps)
  unfolding modify
  contents-update f h at [] forward c = refl
  contents-update f h at (p ∷ ps) (apart, forward) (here, there, c) =
      let behind = touches-behind p ps forward in
      elim (Bool-cases (test (h.node p))) [
        | inl hit ↦
            let first : first_node test h (p ∷ ps) ≡ p = rw hit refl in
            let told : contents (update f p h) (p ∷ ps) ≡ f (h.node p) ∷ contents h ps =
              ap₂ ◌∷◌ (ground arith) (
                contents-node h (update f p h) (head_at 0) ps p behind
                  (λ q other. rw other refl)) in
            ap (λ q. contents (update f q h) (p ∷ ps)) first ∙ told ∙ rw hit refl
        | inr miss ↦
            let first : first_node test h (p ∷ ps) ≡ first_node test h ps = rw miss refl in
            let told : contents (update f (first_node test h ps) h) (p ∷ ps)
                ≡ h.node p ∷ modify test f (contents h ps) =
              ap₂ ◌∷◌ (rw (first_node_ne h (head_at 0) ps p there behind) refl)
                (contents-update f h (next_of p) ps forward c) in
            ap (λ q. contents (update f q h) (p ∷ ps)) first ∙ told ∙ rw miss refl
      ]

  -- In a list that does not come back to itself, a search ends with as many rounds as there are
  -- nodes and one more. It returns the node that the search through the list finds, or NULL, and a
  -- write through the pointer is `modify` by the test of the search.
  pub search_node-modify :
      (f : Socket → Socket) (h : Heap Socket) (at : Place) (ps : List Ptr)
      → IsOpen at ps
      → IsChain h at ps
      → (p : Ptr) × (search_node test (suc (length ps)) h (h.cell at) ≡ some p)
        × IsFound h (search test (contents h ps)) p
        × (contents (update f p h) ps ≡ modify test f (contents h ps))
  search_node-modify f h at ps forward c = (
    first_node test h ps,
    search_node-first_node test h at ps c,
    first_node-IsFound h at ps c,
    contents-update f h at ps forward c,
  )
