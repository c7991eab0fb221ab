-- ===== src/State/Search.antt =====
-- What a search through the shadow structures finds (src/state.c).
use open_dsu.Prelude.{
  ◌≡◌, refl, Bool, true, false, ◌||◌, none, some, List, [], ◌∷◌, ◌++◌, arith, if◌then◌else◌, All,
}
use open_dsu.State.{Socket, search, modify}

-- Some node passes the test.
abbrev pub any_socket : (Socket → Bool) → List Socket → Bool
any_socket test [] = false
any_socket test (s ∷ rest) = test s || any_socket test rest

module _ (test : Socket → Bool) where
  pub search-some : (l : List Socket) {s : Socket} → search test l ≡ some s → test s ≡ true
  unfolding search
  search-some [] h = ground arith
  search-some (x ∷ l) {s} h = ground (arith, search-some l {s = s})

  search-none : (l : List Socket) → search test l ≡ none → All (λ s. test s ≡ false) l
  unfolding search
  search-none [] h = tt
  search-none (x ∷ l) h = ground (arith, search-none l)

  search-none_of_All : (l : List Socket) → All (λ s. test s ≡ false) l → search test l ≡ none
  unfolding search
  search-none_of_All [] h = refl
  search-none_of_All (x ∷ l) h = ground (arith, search-none_of_All l h.1)

  search-append :
      (l m : List Socket)
      → search test (l ++ m) ≡ (if any_socket test l then search test l else search test m)
  unfolding search
  search-append [] m = refl
  search-append (x ∷ l) m = ground (arith, search-append l m)

  -- A write that keeps the test is read back through the same pointer.
  pub search-modify :
      (f : Socket → Socket) (l : List Socket) {s : Socket}
      → search test l ≡ some s
      → test (f s) ≡ true
      → search test (modify test f l) ≡ some (f s)
  unfolding search modify
  search-modify f [] h k = ground arith
  search-modify f (x ∷ l) {s} h k = ground (arith, search-modify f l {s = s})

  -- Where no node passes, a write changes nothing.
  pub modify-none :
      (f : Socket → Socket) (l : List Socket) → search test l ≡ none → modify test f l ≡ l
  unfolding search modify
  modify-none f [] h = refl
  modify-none f (x ∷ l) h = ground (arith, modify-none f l)

-- A write that no other test sees leaves other searches as they were, up to the write.
pub All-modify :
    (P : Socket → Type 0) (test : Socket → Bool) (f : Socket → Socket) (l : List Socket)
    → ((s : Socket) → test s ≡ true → P s → P (f s))
    → All P l
    → All P (modify test f l)
unfolding modify
All-modify P test f [] keep h = tt
All-modify P test f (x ∷ l) keep h = ground (arith, keep x, All-modify P test f l keep h.1)
