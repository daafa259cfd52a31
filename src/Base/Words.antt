-- ===== src/Base/Words.antt =====
-- 32-bit machine words: `uint` arithmetic that wraps, and `int` read as a bit pattern.
use Prim.Native.Nat.{ℕ, ◌+◌, ◌-◌, ◌%◌, ◌^◌}
use mathlib.Core.Bool.{Bool}
use assignments.Base.Tests.{ltb}

abbrev pub word_mod : ℕ
word_mod = 2 ^ 32

abbrev pub sign_bit : ℕ
sign_bit = 2 ^ 31

abbrev pub add32 : ℕ → ℕ → ℕ
add32 a b = (a + b) % word_mod

-- `b` is a word, so the subtraction on ℕ does not stop at 0.
abbrev pub sub32 : ℕ → ℕ → ℕ
sub32 a b = (a + (word_mod - b)) % word_mod

-- `a < b` on two `int`s.
abbrev pub int_lt : ℕ → ℕ → Bool
int_lt a b = ltb ((a + sign_bit) % word_mod) ((b + sign_bit) % word_mod)
