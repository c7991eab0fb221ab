-- ===== src/Core/Pass.antt =====
-- A pass of `dsu_forall_sockets` over the bound sockets (src/state.h).
use open_dsu.Prelude.{◌≡◌, refl, ap₂, List, [], ◌∷◌, All}
use open_dsu.Prelude.Words.{Word}
use open_dsu.Prelude.Monad.{Cmd}
use open_dsu.State.{Socket}
use open_dsu.State.Remove.{values}
use open_dsu.Core.{forall_sockets}

module _ {W : Type 0} where
  -- A pass keeps a field that every call keeps.
  pub values-forall_sockets :
      (key : Socket → Word) (y : Socket → Cmd W Socket)
      → ((s : Socket) (w : W) → key (y s w).0 ≡ key s)
      → (l : List Socket) (w : W) → values key (forall_sockets y l w).0 ≡ values key l
  unfolding forall_sockets
  values-forall_sockets key y keep [] w = refl
  values-forall_sockets key y keep (s ∷ l) w =
      ap₂ ◌∷◌ (keep s w) (values-forall_sockets key y keep l (y s w).1)

  -- What every call brings about holds of all sockets after a pass.
  pub All-forall_sockets :
      (P : Socket → Type 0) (y : Socket → Cmd W Socket)
      → ((s : Socket) (w : W) → P (y s w).0)
      → (l : List Socket) (w : W) → All P (forall_sockets y l w).0
  unfolding forall_sockets
  All-forall_sockets P y make [] w = tt
  All-forall_sockets P y make (s ∷ l) w = (make s w, All-forall_sockets P y make l (y s w).1)

  -- What every call keeps holds of all sockets after a pass if it did before.
  pub All-forall_sockets_keep :
      (P : Socket → Type 0) (y : Socket → Cmd W Socket)
      → ((s : Socket) (w : W) → P s → P (y s w).0)
      → (l : List Socket) (w : W) → All P l
      → All P (forall_sockets y l w).0
  unfolding forall_sockets
  All-forall_sockets_keep P y keep [] w h = tt
  All-forall_sockets_keep P y keep (s ∷ l) w h =
      (keep s w h.0, All-forall_sockets_keep P y keep l (y s w).1 h.1)
