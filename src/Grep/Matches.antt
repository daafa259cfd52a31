-- ===== src/Grep/Matches.antt =====
-- What a regular expression of grep.c matches, and the matcher.
use assignments.Base.{
  ℕ, List, [], ◌∷◌, ◌++◌, ◌≡◌, refl, ap, ◌≢◌, ◌↔◌, inl, inr, Bool, true, Bool-cases, ==_ne, All,
  ℕ_discrete,
}
use assignments.Grep.{accepts, matchstar, at_end, match_one, matchhere, search, match_re}

-- The expression matches some prefix of the text: `c*` takes any number of characters that `c`
-- accepts, a last `$` the end of the text, and any other `c` one character that it accepts.
pub data Matches : List ℕ → List ℕ → Type 0 where
  nothing : (text : List ℕ) → Matches [] text
  star :
      (c : ℕ) (re taken rest text : List ℕ)
      → text ≡ taken ++ rest
      → All (λ x. accepts c x ≡ true) taken
      → Matches re rest
      → Matches (c ∷ b'*' ∷ re) text
  end_of_text : Matches (b'$' ∷ []) []
  last : (c x : ℕ) (text : List ℕ) → c ≢ b'$' → accepts c x ≡ true → Matches (c ∷ []) (x ∷ text)
  one :
      (c d x : ℕ) (re text : List ℕ)
      → d ≢ b'*'
      → accepts c x ≡ true
      → Matches (d ∷ re) text
      → Matches (c ∷ d ∷ re) (x ∷ text)

-- The loop of `matchstar` finds a split of the text, if there is one.
abbrev pub Splits : ℕ → (List ℕ → Bool) → List ℕ → Type 0
Splits c rest text =
    (taken : List ℕ) × (left : List ℕ) × (text ≡ taken ++ left)
    × All (λ x. accepts c x ≡ true) taken
    × (rest left ≡ true)

pub matchstar-Splits :
    (c : ℕ) (rest : List ℕ → Bool) (text : List ℕ)
    → matchstar c rest text ≡ true
    → Splits c rest text
unfolding matchstar
matchstar-Splits c rest [] h = ([], [], refl, tt, h)
matchstar-Splits c rest (x ∷ text) h = elim (Bool-cases (rest (x ∷ text))) [
  | inl e ↦ ([], x ∷ text, refl, tt, e)
  | inr e ↦ elim (Bool-cases (accepts c x)) [
    | inl a ↦
        let (taken, left, split, all, hit) = matchstar-Splits c rest text (rw (e, a) at h) in
        (x ∷ taken, left, ap (λ t. x ∷ t) split, (a, all), hit)
    | inr a ↦ cc (rw (e, a) at h)
  ]
]

pub Splits-matchstar :
    (c : ℕ) (rest : List ℕ → Bool) (taken left : List ℕ)
    → All (λ x. accepts c x ≡ true) taken
    → rest left ≡ true
    → matchstar c rest (taken ++ left) ≡ true
unfolding matchstar
Splits-matchstar c rest [] [] all hit = hit
Splits-matchstar c rest [] (y ∷ left) all hit = rw hit refl
Splits-matchstar c rest (x ∷ taken) left all hit = elim (Bool-cases (rest (x ∷ (taken ++ left)))) [
  | inl e ↦ rw e refl
  | inr e ↦ rw (e, all.0) (Splits-matchstar c rest taken left all.1 hit)
]

eol-Matches : (text : List ℕ) → at_end text ≡ true → Matches (b'$' ∷ []) text
eol-Matches [] h = end_of_text
eol-Matches (x ∷ text) h = cc

takes_one :
    (c : ℕ) (rest : List ℕ → Bool) (text : List ℕ)
    → match_one c rest text ≡ true
    → (x : ℕ) × (left : List ℕ) × (text ≡ x ∷ left) × (accepts c x ≡ true) × (rest left ≡ true)
takes_one c rest [] h = cc
takes_one c rest (x ∷ text) h = elim (Bool-cases (accepts c x)) [
  | inl a ↦ (x, text, refl, a, rw a at h)
  | inr a ↦ cc (rw a at h)
]

pub matchhere-Matches : (re text : List ℕ) → matchhere re text ≡ true → Matches re text
unfolding matchhere
matchhere-Matches [] text h = nothing text
matchhere-Matches (c ∷ []) text h = elim (ℕ_discrete c b'$') [
  | yes e ↦ rw e (eol-Matches text (rw e at h))
  | no other ↦
      let (x, left, split, a, _) = takes_one c (matchhere []) text (rw (==_ne c b'$' other) at h) in
      rw split (last c x left other a)
]
matchhere-Matches (c ∷ d ∷ re) text h = elim (ℕ_discrete d b'*') [
  | yes e ↦
      let (taken, left, split, all, hit) = matchstar-Splits c (matchhere re) text (rw e at h) in
      rw e (star c re taken left text split all (matchhere-Matches re left hit))
  | no ne ↦
      let (x, left, split, a, hit) =
        takes_one c (matchhere (d ∷ re)) text (rw (==_ne d b'*' ne) at h) in
      rw split (one c d x re left ne a (matchhere-Matches (d ∷ re) left hit))
]

pub Matches-matchhere : (re text : List ℕ) → Matches re text → matchhere re text ≡ true
unfolding matchhere
Matches-matchhere _ _ (nothing text) = refl
Matches-matchhere _ _ (star c re taken rest text split all m) =
    rw split (Splits-matchstar c (matchhere re) taken rest all (Matches-matchhere re rest m))
Matches-matchhere _ _ end_of_text = refl
Matches-matchhere _ _ (last c x text other a) = rw (==_ne c b'$' other, a) refl
Matches-matchhere _ _ (one c d x re text other a m) =
    rw (==_ne d b'*' other, a) (Matches-matchhere (d ∷ re) text m)

-- What `match` looks for: with a leading `^` a match at the start, otherwise one anywhere.
abbrev pub Found : List ℕ → List ℕ → Type 0
Found re text = (before : List ℕ) × (after : List ℕ) × (text ≡ before ++ after) × Matches re after

search-Found : (re text : List ℕ) → search re text ≡ true → Found re text
unfolding search
search-Found re [] h = ([], [], refl, matchhere-Matches re [] h)
search-Found re (x ∷ text) h = elim (Bool-cases (matchhere re (x ∷ text))) [
  | inl e ↦ ([], x ∷ text, refl, matchhere-Matches re (x ∷ text) e)
  | inr e ↦
      let (before, after, split, m) = search-Found re text (rw e at h) in
      (x ∷ before, after, ap (λ t. x ∷ t) split, m)
]

Found-search : (re before after : List ℕ) → Matches re after → search re (before ++ after) ≡ true
unfolding search
Found-search re [] [] m = Matches-matchhere re [] m
Found-search re [] (x ∷ after) m = rw (Matches-matchhere re (x ∷ after) m) refl
Found-search re (x ∷ before) after m = elim (Bool-cases (matchhere re (x ∷ (before ++ after)))) [
  | inl e ↦ rw e refl
  | inr e ↦ rw e (Found-search re before after m)
]

-- The matcher says yes exactly if the expression matches: after `^` at the start of the text, and
-- without it, where the first character is some other `c`, anywhere in the text.
pub match_re-Found :
    (c : ℕ) (re text : List ℕ)
    → c ≢ b'^'
    → ((match_re (b'^' ∷ re) text ≡ true) ↔ Matches re text)
      × ((match_re (c ∷ re) text ≡ true) ↔ Found (c ∷ re) text)
unfolding match_re
match_re-Found c re text other = (
  (matchhere-Matches re text, Matches-matchhere re text),
  rw (==_ne c b'^' other) (
    search-Found (c ∷ re) text,
    λ (before, after, split, m). rw split (Found-search (c ∷ re) before after m),
  ),
)
