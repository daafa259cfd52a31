-- ===== src/Balloc/Bits.antt =====
-- The bits of a byte, and of a bitmap block.
use native.Mathlib.Nat.{pow-succ', div-div-eq-div-mul, div-one, div-eq_of_lt}
use assignments.Base.{
  ℕ, zero, suc, ◌+◌, ◌-◌, ◌/◌, ◌%◌, ◌^◌, ◌≤◌, ◌≡◌, refl, sym, ◌∙◌, ap, true, false, ◌==◌,
  if◌then◌else◌, arith, ℕ_discrete, dec_lt, ==_refl, ==_ne, ==_iff,
}
use assignments.Memory.{Memory}
use assignments.Balloc.{bit_clear, set_bit, clear_bit}

abbrev bit : ℕ → ℕ → ℕ
bit x k = x / 2 ^ k % 2

bit-suc : (x k : ℕ) → bit x (suc k) ≡ bit (x / 2) k
bit-suc x k =
    ap (λ m. x / m % 2) (pow-succ' 2 k) ∙ sym (ap (λ q. q % 2) (div-div-eq-div-mul x 2 (2 ^ k)))

half-add : (x k : ℕ) → (x + 2 ^ suc k) / 2 ≡ x / 2 + 2 ^ k
half-add x k = omega (arith, pow-succ' 2 k)

half-sub : (x k : ℕ) → (x - 2 ^ suc k) / 2 ≡ x / 2 - 2 ^ k
half-sub x k = omega (arith, pow-succ' 2 k)

bit-zero : (x : ℕ) → bit x 0 ≡ x % 2
bit-zero x = ap (λ q. q % 2) (div-one x)

suc-eq : (j k : ℕ) → (suc j == suc k) ≡ (j == k)
suc-eq j k = ground arith

-- Adding a clear bit sets it and leaves the others.
bit-add : (j k x : ℕ) → bit x k ≡ 0 → bit (x + 2 ^ k) j ≡ (if j == k then 1 else bit x j)
bit-add zero zero x h = omega (arith, h, bit-zero x, bit-zero (x + 1))
bit-add zero (suc k) x h =
    bit-zero (x + 2 ^ suc k)
    ∙ omega (arith, pow-succ' 2 k)
    ∙ sym (bit-zero x)
    ∙ rw (==_ne 0 (suc k) (λ e. absurd (omega (arith, e)))) refl
bit-add (suc j) zero x h =
    bit-suc (x + 1) j
    ∙ ap (λ y. bit y j) (omega (arith, h, bit-zero x))
    ∙ sym (bit-suc x j)
    ∙ rw (==_ne (suc j) 0 (λ e. absurd (omega (arith, e)))) refl
bit-add (suc j) (suc k) x h =
    bit-suc (x + 2 ^ suc k) j
    ∙ ap (λ y. bit y j) (half-add x k)
    ∙ bit-add j k (x / 2) (sym (bit-suc x k) ∙ h)
    ∙ rw (suc-eq j k, bit-suc x j) refl

bit-le : (x k : ℕ) → bit x k ≡ 1 → 2 ^ k ≤ x
bit-le x k h = elim (dec_lt x (2 ^ k)) [
  | yes small ↦ absurd (omega (arith, h, ap (λ q. q % 2) (div-eq_of_lt small)))
  | no large ↦ omega (arith, large)
]

-- Subtracting a set bit clears it and leaves the others.
bit-sub : (j k x : ℕ) → bit x k ≡ 1 → bit (x - 2 ^ k) j ≡ (if j == k then 0 else bit x j)
bit-sub zero zero x h = omega (arith, h, bit-zero x, bit-zero (x - 1))
bit-sub zero (suc k) x h =
    bit-zero (x - 2 ^ suc k)
    ∙ omega (arith, pow-succ' 2 k, bit-le x (suc k) h)
    ∙ sym (bit-zero x)
    ∙ rw (==_ne 0 (suc k) (λ e. absurd (omega (arith, e)))) refl
bit-sub (suc j) zero x h =
    bit-suc (x - 1) j
    ∙ ap (λ y. bit y j) (omega (arith, h, bit-zero x))
    ∙ sym (bit-suc x j)
    ∙ rw (==_ne (suc j) 0 (λ e. absurd (omega (arith, e)))) refl
bit-sub (suc j) (suc k) x h =
    bit-suc (x - 2 ^ suc k) j
    ∙ ap (λ y. bit y j) (half-sub x k)
    ∙ bit-sub j k (x / 2) (sym (bit-suc x k) ∙ h)
    ∙ rw (suc-eq j k, bit-suc x j) refl

-- On a block: a bit is set, or cleared, alone.
pub set_bit-at :
    (m : Memory) (i j : ℕ)
    → bit_clear m i ≡ true
    → bit_clear (set_bit m i) j ≡ (if j == i then false else bit_clear m j)
set_bit-at m i j h = elim (ℕ_discrete (j / 8) (i / 8)) [
  | no ne ↦ rw (==_ne (j / 8) (i / 8) ne, ==_ne j i (λ e. ne (ap (λ n. n / 8) e))) refl
  | yes e ↦
      rw
        (
          e,
          ==_refl (i / 8),
          bit-add (j % 8) (i % 8) (m (i / 8)) ((==_iff (bit (m (i / 8)) (i % 8)) 0).0 h),
        )
        (ground (arith, e))
]

pub clear_bit-at :
    (m : Memory) (i j : ℕ)
    → bit_clear m i ≡ false
    → bit_clear (clear_bit m i) j ≡ (if j == i then true else bit_clear m j)
clear_bit-at m i j h = elim (ℕ_discrete (j / 8) (i / 8)) [
  | no ne ↦ rw (==_ne (j / 8) (i / 8) ne, ==_ne j i (λ e. ne (ap (λ n. n / 8) e))) refl
  | yes e ↦
      rw (e, ==_refl (i / 8), bit-sub (j % 8) (i % 8) (m (i / 8)) (ground (arith, h)))
        (ground (arith, e))
]
