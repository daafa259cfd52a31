-- ===== src/Console/Tests.antt =====
-- Runs of the console, and a concrete case of its theorem.
use assignments.Base.{ℕ, List, [], ◌∷◌, ◌≡◌, refl, true, false, replicate, arith}
use assignments.Console.{
  Input, kill_line, key, consoleintr, returns, sleeps, consoleread, digits_from, reversed, printint,
}
use assignments.Console.Editing.{IsValid, Keeps, consoleintr-IsValid}

abbrev empty_input : Input
empty_input = record { buf = replicate 128 0; r = 0xFFFFFFFF; w = 0xFFFFFFFF; e = 0xFFFFFFFF }

empty_input-IsValid : IsValid empty_input
empty_input-IsValid = record {
  room = refl;
  words = (omega arith, omega arith, omega arith);
  ordered = omega arith;
  fits = omega arith;
}

-- "ax", backspace, "b", return.
abbrev typed : List ℕ
typed = b'a' ∷ b'x' ∷ 8 ∷ b'b' ∷ 13 ∷ []

-- A line that is complete and not read, and more that is typed after it.
abbrev a_line : Input
a_line = (consoleintr typed empty_input).0

a_line-IsValid : IsValid a_line
a_line-IsValid = (consoleintr-IsValid typed empty_input empty_input-IsValid).0

consoleintr-IsValid_example :
    IsValid (consoleintr typed a_line).0 × Keeps a_line (consoleintr typed a_line).0
consoleintr-IsValid_example = consoleintr-IsValid typed a_line a_line-IsValid

reads_line :
    (consoleread false 80 80 (consoleintr typed empty_input).0).1 ≡ returns (b'a' ∷ b'b' ∷ 10 ∷ [])
unfolding consoleintr consoleread key kill_line
reads_line = refl

waits_for_line : (consoleread false 80 80 (consoleintr (b'a' ∷ []) empty_input).0).1 ≡ sleeps []
unfolding consoleintr consoleread key
waits_for_line = refl

abbrev decimal : List ℕ
decimal = b'0' ∷ b'1' ∷ b'2' ∷ b'3' ∷ b'4' ∷ b'5' ∷ b'6' ∷ b'7' ∷ b'8' ∷ b'9' ∷ []

printint_negative : printint decimal 0xFFFFFFD6 10 true ≡ b'-' ∷ b'4' ∷ b'2' ∷ []
unfolding printint digits_from reversed
printint_negative = refl
