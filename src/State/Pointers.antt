-- ===== src/State/Pointers.antt =====
-- The linked lists of src/state.c with their pointers: nodes at addresses, and the loops that walk
-- over them by a pointer to the place of the pointer that they follow. The loops run on rounds. What
-- `malloc` gives is an argument.
use open_dsu.Prelude.{
  true, ℕ, zero, suc, ◌≡◌, ◌≢◌, Bool, false, ◌||◌, ◌&&◌, not, Option, none, some, List, [], ◌∷◌,
  ◌==◌, if◌then◌else◌,
}
use open_dsu.Prelude.Words.{Word, Ptr}

-- A place that holds a pointer: a variable, by its address, or the field `next` of a node.
pub data Place : Type 0 where
  head_at : Ptr → Place
  next_of : Ptr → Place

abbrev pub same_place : Place → Place → Bool
same_place (head_at a) (head_at b) = a == b
same_place (next_of a) (next_of b) = a == b
same_place _ _ = false

-- The memory of the lists, with what each node holds besides `next`.
pub record Heap (A : Type 0) : Type 0 where
  pub cell : Place → Ptr
  pub node : Ptr → A
  -- whether `malloc` gave the node and `free` has not taken it back
  pub is_used : Ptr → Bool

abbrev pub null : Ptr
null = 0

module _ {A : Type 0} where
  -- `*at = p`.
  abbrev pub put_pointer : Place → Ptr → Heap A → Heap A
  put_pointer at p h = record h { cell = λ x. if same_place x at then p else h.cell x }

  -- The node `p` that `malloc` gives, with its contents.
  abbrev pub fill : Ptr → A → Heap A → Heap A
  fill p new h = record h {
    node = λ q. if q == p then new else h.node q;
    is_used = λ q. (q == p) || h.is_used q;
  }

  -- `free (p)`.
  abbrev pub free : Ptr → Heap A → Heap A
  free p h = record h { is_used = λ q. not (q == p) && h.is_used q }

  -- The loop of `dsu_sockets_add`; `none` where the rounds do not do.
  unfoldable pub end_of : ℕ → Heap A → Place → Option Place
  end_of zero h indirect = none
  end_of (suc n) h indirect =
      let further = end_of n h (next_of (h.cell indirect)) in
      if h.cell indirect == null then some indirect else further

  -- `dsu_sockets_add`, where `malloc` gives `p`.
  unfoldable pub add_node : ℕ → Ptr → Place → A → Heap A → Option (Ptr × Heap A)
  add_node n p head new h =
      let filled : Heap A = put_pointer (next_of p) null (fill p new h) in
      elim (end_of n filled head) [
        | none ↦ none
        | some indirect ↦ some (p, put_pointer indirect p filled)
      ]

  -- The loop of `dsu_sockets_remove_fd`.
  unfoldable pub place_of : (A → Bool) → ℕ → Heap A → Place → Option Place
  place_of test zero h indirect = none
  place_of test (suc n) h indirect =
      let further = place_of test n h (next_of (h.cell indirect)) in
      if h.cell indirect == null || test (h.node (h.cell indirect)) then some indirect else further

  -- `dsu_sockets_remove_fd`.
  unfoldable pub remove_node : (A → Bool) → ℕ → Place → Heap A → Option (Heap A)
  remove_node test n head h = elim (place_of test n h head) [
    | none ↦ none
    | some indirect ↦ some (
        if h.cell indirect == null
        then h
        else free (h.cell indirect) (put_pointer indirect (h.cell (next_of (h.cell indirect))) h))
  ]

  -- `dsu_sockets_search_fd`, and the like for other fields.
  unfoldable pub search_node : (A → Bool) → ℕ → Heap A → Ptr → Option Ptr
  search_node test zero h head = none
  search_node test (suc n) h head =
      let further = search_node test n h (h.cell (next_of head)) in
      if head == null then some null else if test (h.node head) then some head else further

  -- `dsu_sockets_transfer_fd`, where `malloc` gives `p`.
  unfoldable pub transfer_node :
      (A → Word) → ℕ → ℕ → Ptr → Place → Place → Ptr → Heap A → Option (Ptr × Heap A)
  unfolding add_node remove_node
  transfer_node fd n m p dest src from h = elim (add_node n p dest (h.node from) h) [
    | none ↦ none
    | some (q, h1) ↦ elim (remove_node (λ a. fd a == fd (h1.node from)) m src h1) [
      | none ↦ none
      | some h2 ↦ some (q, h2)
    ]
  ]

  -- The place `at` starts a list whose nodes have these addresses.
  abbrev pub IsChain : Heap A → Place → List Ptr → Type 0
  IsChain h at [] = h.cell at ≡ null
  IsChain h at (p ∷ ps) = (h.cell at ≡ p) × (p ≢ null) × IsChain h (next_of p) ps

  -- No node of the list is freed.
  abbrev pub IsUsed : Heap A → List Ptr → Type 0
  IsUsed h [] = Unit
  IsUsed h (p ∷ ps) = (h.is_used p ≡ true) × IsUsed h ps

  abbrev pub contents : Heap A → List Ptr → List A
  contents h [] = []
  contents h (p ∷ ps) = h.node p ∷ contents h ps

-- `x` is a place of that list.
abbrev pub touches : Place → Place → List Ptr → Bool
touches x at [] = same_place x at
touches x at (p ∷ ps) = same_place x at || touches x (next_of p) ps

-- The list does not come back to a place of its own.
abbrev pub IsOpen : Place → List Ptr → Type 0
IsOpen at [] = Unit
IsOpen at (p ∷ ps) = (touches at (next_of p) ps ≡ false) × IsOpen (next_of p) ps
