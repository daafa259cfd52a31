-- ===== src/CString/Copy.antt =====
-- What the copies leave in the destination.
use assignments.Base.{
  ℕ, zero, suc, ◌-◌, ◌≤◌, List, [], ◌∷◌, ◌++◌, ◌≡◌, refl, ap, ◌∙◌, length, take, drop, replicate,
  arith, ℕ_discrete, ==_ne, ==_refl,
}
use assignments.CString.{text, zero_fill, strncmp, strncpy, safestrcpy}

zero_fill-length : (s : List ℕ) (n : ℕ) → length (zero_fill s n) ≡ length s
zero_fill-length s zero = refl
zero_fill-length [] (suc n) = refl
zero_fill-length (d ∷ s) (suc n) = ap suc (zero_fill-length s n)

zero_fill_lem : (s : List ℕ) (n : ℕ) → n ≤ length s → zero_fill s n ≡ replicate n 0 ++ drop n s
zero_fill_lem s zero h = refl
zero_fill_lem [] (suc n) h = absurd (omega arith)
zero_fill_lem (d ∷ s) (suc n) h = ap (λ r. 0 ∷ r) (zero_fill_lem s n (omega arith))

padded :
    (s : List ℕ) (n : ℕ) → n ≤ length s → 0 ∷ zero_fill s n ≡ replicate (suc n - 0) 0 ++ drop n s
padded s n h =
    ap (λ r. 0 ∷ r) (zero_fill_lem s n h)
    ∙ ap (λ k. replicate k 0 ++ drop n s) {x = suc n} (omega arith)

-- `strncpy` writes the first `n` characters of the text, fills up to `n` with zeros, and leaves
-- the rest of the array alone; so a name of `n` characters or more is not terminated.
pub strncpy_lem :
    (s t : List ℕ) (n : ℕ)
    → n ≤ length s
    → strncpy s t n ≡ (take n (text t) ++ replicate (n - length (take n (text t))) 0) ++ drop n s
unfolding strncpy
strncpy_lem s t zero h = refl
strncpy_lem [] t (suc n) h = absurd (omega arith)
strncpy_lem (d ∷ s) [] (suc n) h = padded s n (omega arith)
strncpy_lem (d ∷ s) (c ∷ t) (suc n) h = elim (ℕ_discrete c 0) [
  | yes e ↦ rw e (padded s n (omega arith))
  | no ne ↦ rw (==_ne c 0 ne) (
      ap (λ r. c ∷ r)
        (strncpy_lem s t n (omega arith)
          ∙ ap (λ k. (take n (text t) ++ replicate k 0) ++ drop n s) (omega arith)))
]

-- `safestrcpy` into an array with room for `n` bytes, `n` not 0, leaves a terminated text: the
-- first `n - 1` characters of the source.
pub safestrcpy-text :
    (s t : List ℕ) (n : ℕ)
    → suc n ≤ length s
    → (text (safestrcpy s t (suc n)) ≡ take n (text t))
      × (length (safestrcpy s t (suc n)) ≡ length s)
      × (drop (suc n) (safestrcpy s t (suc n)) ≡ drop (suc n) s)
unfolding safestrcpy
safestrcpy-text [] t n h = absurd (omega arith)
safestrcpy-text (d ∷ s) t zero h = (refl, refl, refl)
safestrcpy-text (d ∷ []) t (suc n) h = absurd (omega arith)
safestrcpy-text (d ∷ x ∷ s) [] (suc n) h = (refl, refl, refl)
safestrcpy-text (d ∷ x ∷ s) (c ∷ t) (suc n) h = elim (ℕ_discrete c 0) [
  | yes e ↦ rw e (refl, refl, refl)
  | no ne ↦
      let (words, len, rest) = safestrcpy-text (x ∷ s) t n (omega arith) in
      rw (==_ne c 0 ne) (ap (λ r. c ∷ r) words, ap suc len, rest)
]

-- A copied name compares equal to the name.
pub strncmp-strncpy : (n : ℕ) (s t : List ℕ) → length s ≡ n → strncmp t (strncpy s t n) n ≡ 0
unfolding strncmp strncpy
strncmp-strncpy zero s t h = refl
strncmp-strncpy (suc n) [] t h = absurd (omega (arith, h))
strncmp-strncpy (suc n) (d ∷ s) [] h = refl
strncmp-strncpy (suc n) (d ∷ s) (c ∷ t) h = elim (ℕ_discrete c 0) [
  | yes z ↦ rw z refl
  | no ne ↦ rw (==_ne c 0 ne, ==_refl c) (strncmp-strncpy n s t (omega (arith, h)))
]

pub length-strncpy : (s t : List ℕ) (n : ℕ) → length (strncpy s t n) ≡ length s
unfolding strncpy
length-strncpy s t zero = refl
length-strncpy [] t (suc n) = refl
length-strncpy (d ∷ s) [] (suc n) = ap suc (zero_fill-length s n)
length-strncpy (d ∷ s) (c ∷ t) (suc n) = elim (ℕ_discrete c 0) [
  | yes z ↦ rw z (ap suc (zero_fill-length s n))
  | no ne ↦ rw (==_ne c 0 ne) (ap suc (length-strncpy s t n))
]
