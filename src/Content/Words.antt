-- ===== src/Content/Words.antt =====
-- Words and bytes within a block.
use assignments.Base.{
  ℕ, zero, suc, ◌+◌, ◌-◌, ◌<◌, List, [], ◌∷◌, length, get_or, ◌≡◌, refl, ◌∙◌, ap, ◌≢◌, inl, inr,
  true, ◌==◌, ltb, leb, ◌&&◌, if◌then◌else◌, update, arith, ℕ_discrete, ==_refl, ==_ne, word_mod,
  lt→leb_false, le→leb, lt→ltb, Bool-cases,
}
use assignments.Memory.{Memory}
use assignments.Content.{word_at, put_word, bytes_at, put_bytes}

-- A word that is stored is read back, and the others stay.
pub word_at-put_word :
    (m : Memory) (k x j : ℕ)
    → x < word_mod
    → word_at (put_word m k x) j ≡ (if j == k then x else word_at m j)
word_at-put_word m k x j h = elim (ℕ_discrete j k) [
  | yes e ↦ rw (e, ==_refl k) (ground (arith, h))
  | no ne ↦ rw (==_ne j k ne) (ground (arith, ne))
]

-- Bytes that are stored are read back, and the others stay.
pub put_bytes-at :
    (m : Memory) (k : ℕ) (cs : List ℕ) (j : ℕ)
    → put_bytes m k cs j ≡ (if leb k j && ltb j (k + length cs) then get_or cs (j - k) 0 else m j)
put_bytes-at m k [] j = ground arith
put_bytes-at m k (c ∷ cs) j = elim (ℕ_discrete j k) [
  | yes e ↦ rw e (
      put_bytes-at (update m k c) (k + 1) cs k
      ∙ rw
          (
            lt→leb_false (k + 1) k (omega arith),
            ==_refl k,
            le→leb k k (omega arith),
            lt→ltb k (k + suc (length cs)) (omega arith),
            self_sub k,
          )
          refl)
  | no ne ↦
      put_bytes-at (update m k c) (k + 1) cs j
      ∙ rw (==_ne j k ne, shift k j (length cs) ne)
          (elim (Bool-cases (leb k j && ltb j (k + suc (length cs)))) [
            | inr e ↦ rw e refl
            | inl e ↦ rw (e, before k j (length cs) ne e) refl
          ])
]
  where
    self_sub : (k : ℕ) → k - k ≡ 0
    self_sub k = omega arith

    shift :
        (k j n : ℕ) → j ≢ k → (leb (k + 1) j && ltb j (k + 1 + n)) ≡ (leb k j && ltb j (k + suc n))
    shift k j n ne = ground arith

    before : (k j n : ℕ) → j ≢ k → (leb k j && ltb j (k + suc n)) ≡ true → j - k ≡ suc (j - (k + 1))
    before k j n ne e = ground arith

pub bytes_at-get : (m : Memory) (k n j : ℕ) → j < n → get_or (bytes_at m k n) j 0 ≡ m (k + j)
bytes_at-get m k zero j h = absurd (omega arith)
bytes_at-get m k (suc n) zero h = ap m (omega arith)
bytes_at-get m k (suc n) (suc j) h = bytes_at-get m (k + 1) n j (omega arith) ∙ ap m (omega arith)

pub length-bytes_at : (m : Memory) (k n : ℕ) → length (bytes_at m k n) ≡ n
length-bytes_at m k zero = refl
length-bytes_at m k (suc n) = omega (arith, length-bytes_at m (k + 1) n)
