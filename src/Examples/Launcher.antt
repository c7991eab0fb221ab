-- ===== src/Examples/Launcher.antt =====
-- The launcher's command line for `ls`.
use open_dsu.Prelude.{ℕ, zero, suc, ◌≡◌, refl, some, List, [], ◌∷◌, ◌++◌, arith}
use open_dsu.Os.{Bytes}
use open_dsu.Launcher.{ld_preload_lib, args_size, command_size, command}
use open_dsu.Launcher.Fits.{line, command-line}

abbrev zeros : ℕ → Bytes
zeros zero = []
zeros (suc n) = 0 ∷ zeros n

abbrev args : List Bytes
args = (b'l' ∷ b's' ∷ []) ∷ []

command-line_example : command args (zeros 56) ≡ some (line (ld_preload_lib ∷ args) ++ 0 ∷ [])
unfolding command_size args_size
command-line_example = command-line args (zeros 56) (omega arith) refl
