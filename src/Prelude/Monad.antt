-- ===== src/Prelude/Monad.antt =====
-- Commands over a state `W`, as `do` blocks.
abbrev pub Cmd : Type 0 → Type 0 → Type 0
Cmd W A = W → A × W

module _ {W : Type 0} where
  abbrev pub pure : {A : Type 0} → A → Cmd W A
  pure a w = (a, w)

  infixl 5 ◌>>=◌ ◌>>◌
  abbrev pub ◌>>=◌ : {A B : Type 0} → Cmd W A → (A → Cmd W B) → Cmd W B
  ◌>>=◌ m f w = f (m w).0 (m w).1

  abbrev pub ◌>>◌ : {A B : Type 0} → Cmd W A → Cmd W B → Cmd W B
  ◌>>◌ m k w = k (m w).1

  -- A value that the state shows, and a change of the state.
  abbrev pub get : {A : Type 0} → (W → A) → Cmd W A
  get f w = (f w, w)

  abbrev pub put : (W → W) → Cmd W (Unit {0})
  put f w = (tt, f w)
