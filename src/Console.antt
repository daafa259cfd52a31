-- ===== src/Console.antt =====
-- xv6-public/console.c: the line editor of the console, without the echo, and `printint` of
-- console.c and printf.c. `cons.lock` makes each stretch between two sleeps one step.
pub mod Editing
mod Tests
use assignments.Base.{
  ℕ, zero, suc, ◌+◌, ◌-◌, ◌*◌, ◌/◌, ◌%◌, List, [], ◌∷◌, ◌++◌, Bool, true, false, ◌==◌, ltb, leb,
  ◌&&◌, ◌||◌, not, if◌then◌else◌, get_or, set, add32, sub32, int_lt,
}

abbrev pub input_buf : ℕ
input_buf = 128

-- `input`: the read, write and edit indices are counters that wrap.
pub record Input : Type 0 where
  pub buf : List ℕ
  pub r : ℕ
  pub w : ℕ
  pub e : ℕ

-- The loop of control-U, for at most `fuel` characters; `e - w` is enough.
pub kill_line : ℕ → Input → Input
kill_line zero s = s
kill_line (suc fuel) s =
    let rest = kill_line fuel (record s { e = sub32 s.e 1 }) in
    if not (s.e == s.w) && not (get_or s.buf (sub32 s.e 1 % input_buf) 0 == 10) then rest else s

-- A character that is kept, and whether it completes a line and wakes the readers.
abbrev pub keep : ℕ → Input → Input × Bool
keep c s =
    let d = if c == 13 then 10 else c in
    let t = record s { buf = set s.buf (s.e % input_buf) d; e = add32 s.e 1 } in
    if d == 10 || (d == 4 || t.e == add32 s.r input_buf)
    then (record t { w = t.e }, true)
    else (t, false)

-- One round of `consoleintr`: the state, and whether readers are woken. Control-P only asks for a
-- process listing.
pub key : ℕ → Input → Input × Bool
unfolding kill_line
key c s =
    if c == 16
    then (s, false)
    else if c == 21
    then (kill_line (sub32 s.e s.w) s, false)
    else if c == 8 || c == 127
    then ((if s.e == s.w then s else record s { e = sub32 s.e 1 }), false)
    else if not (c == 0) && ltb (sub32 s.e s.r) input_buf
    then keep c s
    else (s, false)

-- `consoleintr` on the characters that `getc` returns: the state, the wakeup, the listing.
pub consoleintr : List ℕ → Input → Input × Bool × Bool
unfolding key
consoleintr [] s = (s, false, false)
consoleintr (c ∷ cs) s =
    let (t, woken) = key c s in
    let (u, more, dump) = consoleintr cs t in (u, woken || more, c == 16 || dump)

-- How `consoleread` ends: with the bytes, killed, or asleep with the bytes that it has copied.
pub data Reading : Type 0 where
  returns : List ℕ → Reading
  killed : Reading
  sleeps : List ℕ → Reading

abbrev pub copied : ℕ → Reading → Reading
copied c (returns cs) = returns (c ∷ cs)
copied c killed = killed
copied c (sleeps cs) = sleeps (c ∷ cs)

-- `consoleread` with `n` bytes of `target` left.
pub consoleread : Bool → ℕ → ℕ → Input → Input × Reading
consoleread is_killed target zero s = (s, returns [])
consoleread is_killed target (suc n) s =
    let c = get_or s.buf (s.r % input_buf) 0 in
    let t = record s { r = add32 s.r 1 } in
    let rest = consoleread is_killed target n t in
    if s.r == s.w
    then (if is_killed then (s, killed) else (s, sleeps []))
    else if c == 4
    then ((if ltb (suc n) target then record t { r = sub32 t.r 1 } else t), returns [])
    else if c == 10
    then (t, returns (c ∷ []))
    else (rest.0, copied c rest.1)

-- The digits of `printint`, the last one first; a word has at most 32 in any base.
pub digits_from : ℕ → ℕ → ℕ → List ℕ → List ℕ
digits_from zero base x digits = []
digits_from (suc fuel) base x digits =
    let rest = digits_from fuel base (x / base) digits in
    get_or digits (x % base) 0 ∷ (if x / base == 0 then [] else rest)

-- `printint` of printf.c: what it puts, in order.
pub reversed : List ℕ → List ℕ
reversed [] = []
reversed (c ∷ cs) = reversed cs ++ c ∷ []

pub printint : List ℕ → ℕ → ℕ → Bool → List ℕ
unfolding digits_from reversed
printint digits xx base sgn =
    let neg = sgn && int_lt xx 0 in
    let x = if neg then sub32 0 xx else xx in
    reversed (digits_from 32 base x digits ++ (if neg then b'-' ∷ [] else []))
