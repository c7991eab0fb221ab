-- ===== src/Launcher/Fits.antt =====
-- The command line of the launcher (src/exec.c) fills its buffer exactly.
use open_dsu.Prelude.{
  ℕ, suc, ◌+◌, ◌<◌, ◌≡◌, refl, ap, ◌∙◌, some, List, [], ◌∷◌, ◌++◌, arith, length, length-append,
}
use open_dsu.Prelude.Words.{Word}
use open_dsu.Prelude.Arrays.{get_elem?-append, set-append, append-cons, length-snoc}
use open_dsu.Os.{Bytes}
use open_dsu.Launcher.{
  ld_preload_lib, space, args_size, command_size, strcpy, append_arg, append_args, command,
}

-- The arguments, with a space behind each.
abbrev pub line : List Bytes → Bytes
line [] = []
line (arg ∷ argv) = (arg ++ space) ++ line argv

args_size-line :
    (argv : List Bytes) (size : Word)
    → size + length (line argv) < 0x1_0000_0000
    → args_size argv size ≡ size + length (line argv)
unfolding args_size
args_size-line [] size h = omega arith
args_size-line (arg ∷ argv) size h = ground (
  arith,
  args_size-line argv (size + (length arg + 1)),
  length-append (arg ++ space) (line argv),
  length-append arg space,
)

append-append : (xs ys zs : Bytes) → (xs ++ ys) ++ zs ≡ xs ++ (ys ++ zs)
append-append [] ys zs = refl
append-append (x ∷ xs) ys zs = ap (λ r. x ∷ r) (append-append xs ys zs)

strcpy-append :
    (pre s junk : Bytes) (x : Word) (k : ℕ)
    → length junk ≡ length s + k
    → (junk' : Bytes) × (length junk' ≡ k)
      × (strcpy (pre ++ x ∷ junk) (length pre) s ≡ some ((pre ++ s) ++ 0 ∷ junk'))
unfolding strcpy
strcpy-append pre [] junk x k h = (
  junk,
  omega arith,
  ground (
    arith,
    get_elem?-append pre x junk,
    set-append pre x 0 junk,
    append-append pre [] (0 ∷ junk),
  ),
)
strcpy-append pre (b ∷ s) [] x k h = absurd (omega arith)
strcpy-append pre (b ∷ s) (y ∷ junk) x k h =
    let (junk', n, done) = strcpy-append (pre ++ b ∷ []) s junk y k (omega arith) in
    (
      junk',
      n,
      ground (
        arith,
        get_elem?-append pre x (y ∷ junk),
        set-append pre x b (y ∷ junk),
        append-cons pre b (y ∷ junk),
        append-cons pre b s,
        length-snoc pre b,
        done,
      ),
    )

append_arg-append :
    (pre arg junk : Bytes) (x : Word) (k : ℕ)
    → length junk ≡ length (arg ++ space) + k
    → length pre + length (arg ++ space) < 0x1_0000_0000
    → (junk' : Bytes) × (length junk' ≡ k)
      × (append_arg (pre ++ x ∷ junk) (length pre) arg
          ≡ some ((pre ++ (arg ++ space)) ++ 0 ∷ junk', length (pre ++ (arg ++ space))))
unfolding append_arg
append_arg-append pre arg junk x k h b =
    let whole = length-append arg space in
    let (junk1, n1, first) = strcpy-append pre arg junk x (suc k) (omega arith) in
    let (junk2, n2, second) = strcpy-append (pre ++ arg) space junk1 0 k (omega arith) in
    (
      junk2,
      n2,
      ground (
        arith,
        first,
        second,
        append-append pre arg space,
        length-append pre arg,
        length-append pre (arg ++ space),
      ),
    )

append_args-line :
    (argv : List Bytes) (pre junk : Bytes) (k : ℕ)
    → length junk ≡ length (line argv) + k
    → length pre + length (line argv) < 0x1_0000_0000
    → (junk' : Bytes) × (length junk' ≡ k)
      × (append_args argv (pre ++ 0 ∷ junk) (length pre) ≡ some ((pre ++ line argv) ++ 0 ∷ junk'))
unfolding append_args
append_args-line [] pre junk k h b =
    (junk, omega arith, ground (arith, append-append pre [] (0 ∷ junk)))
append_args-line (arg ∷ argv) pre junk k h b =
    let text : Bytes = arg ++ space in
    let whole = length-append text (line argv) in
    let (junk1, n1, first) =
      append_arg-append pre arg junk 0 (length (line argv) + k) (omega arith) (omega arith) in
    let (junk2, n2, rest) =
      append_args-line argv (pre ++ text) junk1 k n1 (omega (arith, length-append pre text)) in
    (junk2, n2, ground (arith, first, rest, append-append pre text (line argv)))

empty : (junk : Bytes) → length junk ≡ 0 → junk ≡ []
empty [] h = refl
empty (x ∷ junk) h = absurd (omega arith)

append_args-filled :
    (first : Bytes) (argv : List Bytes) (stale : Bytes)
    → length (line (first ∷ argv)) < 0x1_0000_0000
    → length stale ≡ length (line (first ∷ argv)) + 1
    → append_args (first ∷ argv) stale 0 ≡ some (line (first ∷ argv) ++ 0 ∷ [])
unfolding append_args
append_args-filled first argv [] b h = absurd (omega arith)
append_args-filled first argv (x ∷ junk) b h =
    let text : Bytes = first ++ space in
    let whole = length-append text (line argv) in
    let (junk1, n1, begun) =
      append_arg-append [] first junk x (length (line argv)) (omega arith) (omega arith) in
    let (junk2, n2, rest) = append_args-line argv text junk1 0 (omega arith) (omega arith) in
    ground (arith, begun, rest, empty junk2 n2)

command_size-line :
    (argv : List Bytes)
    → length (line (ld_preload_lib ∷ argv)) + 1 < 0x8000_0000
    → command_size argv ≡ length (line (ld_preload_lib ∷ argv)) + 1
unfolding command_size
command_size-line argv b = omega (arith, args_size-line argv 0 (omega arith))

-- With a buffer of the size that the first loop computes, which is below the largest `int`, no
-- write leaves the buffer, and it holds the library's setting and the arguments with a space behind
-- each, and the closing 0 in its last byte.
pub command-line :
    (argv : List Bytes) (stale : Bytes)
    → length (line (ld_preload_lib ∷ argv)) + 1 < 0x8000_0000
    → length stale ≡ command_size argv
    → command argv stale ≡ some (line (ld_preload_lib ∷ argv) ++ 0 ∷ [])
unfolding command
command-line argv stale b h =
    append_args-filled ld_preload_lib argv stale (omega arith) (h ∙ command_size-line argv b)
