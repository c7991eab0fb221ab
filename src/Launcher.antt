-- ===== src/Launcher.antt =====
-- src/exec.c: the launcher builds the command line that starts a program with the library
-- preloaded. A C string is the list of its bytes without the closing 0.
pub mod Fits
use open_dsu.Prelude.{ℕ, suc, ◌+◌, ◌%◌, Option, none, some, List, [], ◌∷◌, length}
use open_dsu.Prelude.Words.{Word}
use open_dsu.Prelude.Arrays.{get_elem?, set}
use open_dsu.Os.{Bytes}

abbrev pub ld_preload_lib : Bytes
ld_preload_lib =
    b'L' ∷ b'D' ∷ b'_' ∷ b'P' ∷ b'R' ∷ b'E' ∷ b'L' ∷ b'O' ∷ b'A' ∷ b'D' ∷ b'=' ∷ b'$' ∷ b'L' ∷ b'D'
    ∷ b'_' ∷ b'P' ∷ b'R' ∷ b'E' ∷ b'L' ∷ b'O' ∷ b'A' ∷ b'D' ∷ b':' ∷ b'/' ∷ b'u' ∷ b's' ∷ b'r'
    ∷ b'/' ∷ b'l' ∷ b'o' ∷ b'c' ∷ b'a' ∷ b'l' ∷ b'/' ∷ b'l' ∷ b'i' ∷ b'b' ∷ b'/' ∷ b'l' ∷ b'i'
    ∷ b'b' ∷ b'o' ∷ b'p' ∷ b'e' ∷ b'n' ∷ b'D' ∷ b'S' ∷ b'U' ∷ b'.' ∷ b's' ∷ b'o' ∷ []

abbrev pub space : Bytes
space = b' ' ∷ []

-- The loop that adds up the lengths, and what is added behind it.
unfoldable pub args_size : List Bytes → Word → Word
args_size [] size = size
args_size (arg ∷ argv) size = args_size argv ((size + (length arg + 1)) % 0x1_0000_0000)

unfoldable pub command_size : List Bytes → Word
unfolding args_size
command_size argv = (args_size argv 0 + (length ld_preload_lib + 1) + 1) % 0x1_0000_0000

-- `strcpy(&buffer[idx], s)`, with the closing 0; `none` where it would leave the buffer.
unfoldable pub strcpy : Bytes → ℕ → Bytes → Option Bytes
strcpy buffer idx [] = elim (get_elem? buffer idx) [
  | none ↦ none
  | some _ ↦ some (set buffer idx 0)
]
strcpy buffer idx (b ∷ s) = elim (get_elem? buffer idx) [
  | none ↦ none
  | some _ ↦ strcpy (set buffer idx b) (suc idx) s
]

-- A string and a space, and the index behind them.
unfoldable pub append_arg : Bytes → Word → Bytes → Option (Bytes × Word)
append_arg buffer idx arg = elim (strcpy buffer idx arg) [
  | none ↦ none
  | some buffer1 ↦
      let idx1 : Word = (idx + length arg) % 0x1_0000_0000 in
      elim (strcpy buffer1 idx1 space) [
        | none ↦ none
        | some buffer2 ↦ some (buffer2, (idx1 + 1) % 0x1_0000_0000)
      ]
]

unfoldable pub append_args : List Bytes → Bytes → Word → Option Bytes
append_args [] buffer idx = some buffer
append_args (arg ∷ argv) buffer idx = elim (append_arg buffer idx arg) [
  | none ↦ none
  | some (buffer', idx') ↦ append_args argv buffer' idx'
]

-- The buffer that `system` is given; `stale` is its memory before.
unfoldable pub command : List Bytes → Bytes → Option Bytes
command argv stale = append_args (ld_preload_lib ∷ argv) stale 0
