-- ===== src/Prelude/Words.antt =====
-- A C `int` is its 32-bit pattern: -1 is `minus_one`, and arithmetic wraps at 2 ^ 32.
use Prim.Native.Nat.{compare, Ordering}
use open_dsu.Prelude.{ℕ, ◌+◌, ◌%◌, ◌<◌, ◌≡◌, Bool, true, false, arith, ltb}

abbrev pub Word : Type 0
Word = ℕ

-- The address of an object; 0 is NULL.
abbrev pub Ptr : Type 0
Ptr = ℕ

abbrev pub null : Ptr
null = 0

abbrev pub minus_one : Word
minus_one = 0xffff_ffff

-- The pattern with the sign bit flipped, which orders patterns as the integers they stand for.
abbrev pub biased : Word → ℕ
biased a = (a + 0x8000_0000) % 0x1_0000_0000

-- `a < b` on `int`.
abbrev pub lt_int : Word → Word → Bool
lt_int a b = ltb (biased a) (biased b)

abbrev pub incr : Word → Word
incr a = (a + 1) % 0x1_0000_0000

abbrev pub decr : Word → Word
decr a = (a + 0xffff_ffff) % 0x1_0000_0000

-- An `int` as a condition.
abbrev pub truth : Word → Bool
truth a = elim (compare a 0) [ Ordering.eq ↦ false | _ ↦ true ]

decr-incr : (a : Word) → a < 0x1_0000_0000 → decr (incr a) ≡ a
decr-incr a h = omega arith
