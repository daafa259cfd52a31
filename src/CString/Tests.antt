-- ===== src/CString/Tests.antt =====
-- Runs of the string functions, and concrete cases of their theorems.
use assignments.Base.{
  ℕ, ◌-◌, ◌++◌, ◌∷◌, [], List, ◌≡◌, refl, ◌↔◌, arith, none, some, take, drop, length, replicate,
}
use assignments.CString.{
  text, strlen, memcmp, strncmp, strcmp, strncpy, safestrcpy, strcpy, strchr, atoi, atoi_from,
}
use assignments.CString.Compare.{Bytes, strcmp_zero, strncmp_zero, memcmp_zero}
use assignments.CString.Copy.{strncpy_lem, safestrcpy-text}

-- "ab" and "abc", each in an array of four bytes.
abbrev ab : List ℕ
ab = 97 ∷ 98 ∷ 0 ∷ 7 ∷ []

abbrev abc : List ℕ
abc = 97 ∷ 98 ∷ 99 ∷ 0 ∷ []

ab-Bytes : Bytes ab
ab-Bytes = (omega arith, (omega arith, (omega arith, (omega arith, tt))))

abc-Bytes : Bytes abc
abc-Bytes = (omega arith, (omega arith, (omega arith, (omega arith, tt))))

strcmp_zero_example : (strcmp ab abc ≡ 0) ↔ (text ab ≡ text abc)
strcmp_zero_example = strcmp_zero ab abc ab-Bytes abc-Bytes

strncmp_zero_example : (strncmp ab abc 2 ≡ 0) ↔ (take 2 (text ab) ≡ take 2 (text abc))
strncmp_zero_example = strncmp_zero ab abc 2 ab-Bytes abc-Bytes

memcmp_zero_example : (memcmp ab abc 3 ≡ 0) ↔ (take 3 ab ≡ take 3 abc)
memcmp_zero_example = memcmp_zero ab abc 3 (omega arith) (omega arith) ab-Bytes abc-Bytes

abbrev buffer : List ℕ
buffer = replicate 6 5

strncpy_example :
    strncpy buffer ab 4
    ≡ (take 4 (text ab) ++ replicate (4 - length (take 4 (text ab))) 0) ++ drop 4 buffer
strncpy_example = strncpy_lem buffer ab 4 (omega arith)

safestrcpy-text_example :
    (text (safestrcpy buffer abc 3) ≡ take 2 (text abc))
    × (length (safestrcpy buffer abc 3) ≡ length buffer)
    × (drop 3 (safestrcpy buffer abc 3) ≡ drop 3 buffer)
safestrcpy-text_example = safestrcpy-text buffer abc 2 (omega arith)

strcpy-ab : strcpy buffer ab ≡ 97 ∷ 98 ∷ 0 ∷ 5 ∷ 5 ∷ 5 ∷ []
unfolding strcpy
strcpy-ab = refl

strchr_b : strchr ab 98 ≡ some (98 ∷ 0 ∷ 7 ∷ [])
unfolding strchr
strchr_b = refl

strchr_past_end : strchr ab 7 ≡ none
unfolding strchr
strchr_past_end = refl

strlen-ab : strlen ab ≡ 2
unfolding strlen
strlen-ab = refl

atoi_42 : atoi (52 ∷ 50 ∷ 97 ∷ 49 ∷ 0 ∷ []) ≡ 42
unfolding atoi atoi_from
atoi_42 = refl
