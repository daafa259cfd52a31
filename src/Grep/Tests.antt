-- ===== src/Grep/Tests.antt =====
-- Runs of the matcher, and a concrete case of its theorem.
use assignments.Base.{ℕ, List, [], ◌∷◌, ◌≡◌, refl, ◌↔◌, true, false, arith}
use assignments.Grep.{matchhere, matchstar, search, match_re}
use assignments.Grep.Matches.{Matches, Found, match_re-Found}

-- "xaab" and "a*b$".
abbrev xaab : List ℕ
xaab = b'x' ∷ b'a' ∷ b'a' ∷ b'b' ∷ []

abbrev stars : List ℕ
stars = b'*' ∷ b'b' ∷ b'$' ∷ []

match_re-Found_example :
    ((match_re (b'^' ∷ stars) xaab ≡ true) ↔ Matches stars xaab)
    × ((match_re (b'a' ∷ stars) xaab ≡ true) ↔ Found (b'a' ∷ stars) xaab)
match_re-Found_example = match_re-Found b'a' stars xaab (λ e. absurd (omega (arith, e)))

finds_stars : match_re (b'a' ∷ stars) xaab ≡ true
unfolding match_re search matchhere matchstar
finds_stars = refl

not_at_start : match_re (b'^' ∷ b'a' ∷ stars) (b'x' ∷ b'c' ∷ []) ≡ false
unfolding match_re search matchhere matchstar
not_at_start = refl
