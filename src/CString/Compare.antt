-- ===== src/CString/Compare.antt =====
-- What the comparisons and searches decide.
use assignments.Base.{
  ℕ, zero, suc, ◌≤◌, ◌<◌, List, [], ◌∷◌, ◌≡◌, refl, ◌↔◌, length, take, arith, All,
}
use assignments.CString.{text, strlen, memcmp, strcmp, strncmp}

abbrev pub Bytes : List ℕ → Type 0
Bytes s = All (λ c. c < 256) s

pub strlen-length : (s : List ℕ) → strlen s ≡ length (text s)
unfolding strlen
strlen-length [] = refl
strlen-length (c ∷ s) = ground (arith, strlen-length s)

-- `strcmp` is 0 exactly on equal texts.
pub strcmp_zero : (p q : List ℕ) → Bytes p → Bytes q → (strcmp p q ≡ 0) ↔ (text p ≡ text q)
unfolding strcmp
strcmp_zero [] [] hp hq = ground arith
strcmp_zero [] (b ∷ q) hp hq = ground arith
strcmp_zero (a ∷ p) [] hp hq = ground arith
strcmp_zero (a ∷ p) (b ∷ q) hp hq = ground (arith, strcmp_zero p q hp.1 hq.1)

-- `strncmp` is 0 exactly if the texts agree on their first `n` characters.
pub strncmp_zero :
    (p q : List ℕ) (n : ℕ)
    → Bytes p
    → Bytes q
    → (strncmp p q n ≡ 0) ↔ (take n (text p) ≡ take n (text q))
unfolding strncmp
strncmp_zero p q zero hp hq = (λ e. refl, λ e. refl)
strncmp_zero [] [] (suc n) hp hq = ground arith
strncmp_zero [] (b ∷ q) (suc n) hp hq = ground arith
strncmp_zero (a ∷ p) [] (suc n) hp hq = ground (arith, strncmp_zero p [] n hp.1 tt)
strncmp_zero (a ∷ p) (b ∷ q) (suc n) hp hq = ground (arith, strncmp_zero p q n hp.1 hq.1)

-- `memcmp` is 0 exactly if the first `n` bytes agree.
pub memcmp_zero :
    (p q : List ℕ) (n : ℕ)
    → n ≤ length p
    → n ≤ length q
    → Bytes p
    → Bytes q
    → (memcmp p q n ≡ 0) ↔ (take n p ≡ take n q)
unfolding memcmp
memcmp_zero p q zero h k hp hq = (λ e. refl, λ e. refl)
memcmp_zero [] q (suc n) h k hp hq = absurd (omega arith)
memcmp_zero (a ∷ p) [] (suc n) h k hp hq = absurd (omega arith)
memcmp_zero (a ∷ p) (b ∷ q) (suc n) h k hp hq =
    ground (arith, memcmp_zero p q n (omega arith) (omega arith) hp.1 hq.1)
