-- ===== src/Path/Tests.antt =====
-- The examples that the source gives for `skipelem`, and a concrete case of its theorem.
use assignments.Base.{ℕ, List, [], ◌∷◌, ◌≡◌, refl, ◌⊎◌, none, some, All, replicate}
use assignments.Path.{skip_slashes, split_element, store_name, skipelem}
use assignments.Path.Elements.{Skips, skipelem_lem}

abbrev blank : List ℕ
blank = replicate 14 1

-- "///a//bb".
abbrev a_bb : List ℕ
a_bb = b'/' ∷ b'/' ∷ b'/' ∷ b'a' ∷ b'/' ∷ b'/' ∷ b'b' ∷ b'b' ∷ []

skipelem-a_bb : skipelem a_bb blank ≡ some (b'b' ∷ b'b' ∷ [], b'a' ∷ 0 ∷ replicate 12 1)
unfolding skipelem skip_slashes split_element store_name
skipelem-a_bb = refl

skipelem_slashes : skipelem (b'/' ∷ b'/' ∷ []) blank ≡ none
unfolding skipelem skip_slashes
skipelem_slashes = refl

skipelem_example : ((skipelem a_bb blank ≡ none) × All (λ c. c ≡ b'/') a_bb) ⊎ Skips a_bb blank
skipelem_example = skipelem_lem a_bb blank
