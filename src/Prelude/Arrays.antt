-- ===== src/Prelude/Arrays.antt =====
-- Arrays as lists of cells: reads, writes, and the loop that moves cells one place down.
use open_dsu.Prelude.{
  ℕ, zero, suc, ◌≡◌, ◌<◌, ◌≤◌, refl, ap, arith, Option, none, some, List, [], ◌∷◌, ◌++◌, length,
}

module _ {ℓ} {A : Type ℓ} where
  abbrev pub get_elem? : List A → ℕ → Option A
  get_elem? [] i = none
  get_elem? (x ∷ xs) zero = some x
  get_elem? (x ∷ xs) (suc i) = get_elem? xs i

  -- A write out of bounds changes nothing.
  abbrev pub set : List A → ℕ → A → List A
  set [] i v = []
  set (x ∷ xs) zero v = v ∷ xs
  set (x ∷ xs) (suc i) v = x ∷ set xs i v

  abbrev pub take : ℕ → List A → List A
  take zero xs = []
  take (suc n) [] = []
  take (suc n) (x ∷ xs) = x ∷ take n xs

  -- `for (j = i; rounds > 0; j++, rounds--) a[j] = move(a[j], a[j+1]);`, `none` where a cell read
  -- lies outside of the array.
  abbrev pub copy_next : (A → A → A) → Option A → Option A → List A → ℕ → Option (List A)
  copy_next move (some x) (some y) a j = some (set a j (move x y))
  copy_next move _ _ a j = none

  unfoldable pub shift : (A → A → A) → ℕ → ℕ → List A → Option (List A)
  shift move zero j a = some a
  shift move (suc rounds) j a = elim (copy_next move (get_elem? a j) (get_elem? a (suc j)) a j) [
    | none ↦ none
    | some a' ↦ shift move rounds (suc j) a'
  ]

  pub get_elem?-inside : (a : List A) (i : ℕ) → i < length a → (x : A) × (get_elem? a i ≡ some x)
  get_elem?-inside (x ∷ a) (suc j) inside = get_elem?-inside a j (omega arith)
  get_elem?-inside (x ∷ a) zero inside = (x, refl)
  get_elem?-inside [] i inside = absurd (omega arith)

  pub length-set : (a : List A) (at_i : ℕ) (new : A) → length (set a at_i new) ≡ length a
  length-set (x ∷ a) (suc j) new = omega (arith, length-set a j new)
  length-set (x ∷ a) zero new = refl
  length-set [] at_i new = refl

  pub take-set : (a : List A) (n i : ℕ) (v : A) → n ≤ i → take n (set a i v) ≡ take n a
  take-set [] n i v h = refl
  take-set (x ∷ a) zero i v h = refl
  take-set (x ∷ a) (suc n) zero v h = absurd (omega arith)
  take-set (x ∷ a) (suc n) (suc i) v h = ap (λ r. x ∷ r) (take-set a n i v (omega arith))

  pub get_elem?-append :
      (pre : List A) (x : A) (post : List A) → get_elem? (pre ++ x ∷ post) (length pre) ≡ some x
  get_elem?-append [] x post = refl
  get_elem?-append (p ∷ pre) x post = get_elem?-append pre x post

  pub get_elem?-next :
      (pre : List A) (x y : A) (post : List A)
      → get_elem? (pre ++ x ∷ y ∷ post) (suc (length pre)) ≡ some y
  get_elem?-next [] x y post = refl
  get_elem?-next (p ∷ pre) x y post = get_elem?-next pre x y post

  pub length-snoc : (pre : List A) (x : A) → length (pre ++ x ∷ []) ≡ suc (length pre)
  length-snoc [] x = refl
  length-snoc (p ∷ pre) x = ap suc (length-snoc pre x)

  pub set-append :
      (pre : List A) (x y : A) (post : List A)
      → set (pre ++ x ∷ post) (length pre) y ≡ pre ++ y ∷ post
  set-append [] x y post = refl
  set-append (p ∷ pre) x y post = ap (λ r. p ∷ r) (set-append pre x y post)

  pub append-cons :
      (pre : List A) (x : A) (post : List A) → (pre ++ x ∷ []) ++ post ≡ pre ++ x ∷ post
  append-cons [] x post = refl
  append-cons (p ∷ pre) x post = ap (λ r. p ∷ r) (append-cons pre x post)

  -- Where every cell takes over the next one, the cells behind the first move down by one.
  abbrev pub last : A → List A → A
  last x [] = x
  last x (y ∷ ys) = last y ys

  pub shift-down :
      (pre : List A) (x : A) (cur junk : List A)
      → shift (λ _ next. next) (length cur) (length pre) (pre ++ x ∷ (cur ++ junk))
        ≡ some (pre ++ (cur ++ last x cur ∷ junk))
  unfolding shift
  shift-down pre x [] junk = refl
  shift-down pre x (y ∷ cur) junk =
      let post : List A = cur ++ junk in
      rw
        (
          get_elem?-append pre x (y ∷ post),
          get_elem?-next pre x y post,
          set-append pre x y (y ∷ post),
          shift,
        )
        (rw
          (
            append-cons pre y (y ∷ post),
            length-snoc pre y,
            append-cons pre y (cur ++ last y cur ∷ junk),
          )
          at (shift-down (pre ++ y ∷ []) y cur junk))
