-- ===== src/Grep.antt =====
-- xv6-public/grep.c: the matcher. A string is the list of the characters before its terminating
-- zero byte. `matchhere` and `matchstar` call each other; here `matchstar` takes the matcher of the
-- rest of the expression.
pub mod Matches
mod Tests
use assignments.Base.{
  ℕ, zero, suc, List, [], ◌∷◌, Bool, true, false, ◌==◌, ◌||◌, ◌&&◌, if◌then◌else◌,
}

-- `*text==c || c=='.'`.
abbrev pub accepts : ℕ → ℕ → Bool
accepts c x = x == c || c == b'.'

pub matchstar : ℕ → (List ℕ → Bool) → List ℕ → Bool
matchstar c rest [] = rest []
matchstar c rest (x ∷ text) =
    let more = matchstar c rest text in
    if rest (x ∷ text) then true else if accepts c x then more else false

abbrev pub at_end : List ℕ → Bool
at_end [] = true
at_end (x ∷ text) = false

-- The last two cases of `matchhere`: one character, and then the rest of the expression.
abbrev pub match_one : ℕ → (List ℕ → Bool) → List ℕ → Bool
match_one c rest [] = false
match_one c rest (x ∷ text) = accepts c x && rest text

pub matchhere : List ℕ → List ℕ → Bool
unfolding matchstar
matchhere [] text = true
matchhere (c ∷ []) text = if c == b'$' then at_end text else match_one c (matchhere []) text
matchhere (c ∷ d ∷ re) text =
    let star = matchstar c (matchhere re) text in
    let one = match_one c (matchhere (d ∷ re)) text in if d == b'*' then star else one

-- The loop of `match`: at the text, or at one of its suffixes, the empty one too.
pub search : List ℕ → List ℕ → Bool
unfolding matchhere
search re [] = matchhere re []
search re (x ∷ text) = let more = search re text in matchhere re (x ∷ text) || more

-- `match`.
pub match_re : List ℕ → List ℕ → Bool
unfolding search matchhere
match_re [] text = search [] text
match_re (c ∷ re) text = if c == b'^' then matchhere re text else search (c ∷ re) text
