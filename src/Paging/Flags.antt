-- ===== src/Paging/Flags.antt =====
-- `pa | perm | PTE_P` of vm.c: an entry with the page's address above its flags.
use assignments.Base.{
  ℕ, zero, suc, ◌+◌, ◌*◌, ◌/◌, ◌%◌, ◌<◌, true, false, ◌==◌, ◌||◌, if◌then◌else◌, word_mod, ◌≡◌, sym,
  ap, ◌∙◌, arith,
}
use assignments.Kalloc.{page_size}
use assignments.Paging.{bit_or, entry_for, pte_addr, pte_flags, present}

-- An entry of the page `pa`: its flags are those of `perm` and PTE_P.
abbrev pub IsEntry : ℕ → ℕ → ℕ → Type 0
IsEntry e pa perm = (pte_addr e ≡ pa) × (pte_flags e / 2 ≡ perm / 2) × (present e ≡ true)

power : ℕ → ℕ
power zero = 1
power (suc k) = 2 * power k

bit_or-zero : (bits a : ℕ) → a < power bits → bit_or bits a 0 ≡ a
unfolding bit_or power
bit_or-zero zero a h = omega arith
bit_or-zero (suc bits) a h =
    ap (λ r. (if a % 2 == 1 || false then 1 else 0) + 2 * r)
      (bit_or-zero bits (a / 2) (omega (arith, h)))
    ∙ halves a
  where
    halves : (a : ℕ) → (if a % 2 == 1 || false then 1 else 0) + 2 * (a / 2) ≡ a
    halves a = ground arith

double : (q p : ℕ) → q * (2 * p) ≡ 2 * (q * p)
double q p = grind arith

-- Numbers without a common bit are added.
bit_or-disjoint :
    (k bits q b : ℕ)
    → b < power k
    → q * power k < power bits
    → b < power bits
    → bit_or bits (q * power k) b ≡ q * power k + b
unfolding bit_or power
bit_or-disjoint zero bits q b h low small =
    let b_0 : b ≡ 0 = omega (arith, h) in
    let q_1 : q * 1 ≡ q = omega arith in
    rw (b_0, q_1) (bit_or-zero bits q (omega (arith, low)) ∙ omega arith)
bit_or-disjoint (suc k) zero q b h low small = omega (arith, low, small)
bit_or-disjoint (suc k) (suc bits) q b h low small =
    let c = q * power k in
    rw (double q (power k)) (
      ap (λ r. (if 2 * c % 2 == 1 || b % 2 == 1 then 1 else 0) + 2 * r)
        (ap (λ x. bit_or bits x (b / 2)) (half c)
          ∙ bit_or-disjoint k bits q (b / 2) (omega (arith, h))
              (omega (arith, low, double q (power k))) (omega (arith, small)))
      ∙ joined c b)
  where
    half : (c : ℕ) → 2 * c / 2 ≡ c
    half c = omega arith

    joined :
        (c b : ℕ) → (if 2 * c % 2 == 1 || b % 2 == 1 then 1 else 0) + 2 * (c + b / 2) ≡ 2 * c + b
    joined c b = ground arith

bit_or-one : (e : ℕ) → e < word_mod → bit_or 32 e 1 ≡ e / 2 * 2 + 1
unfolding bit_or power
bit_or-one e h =
    ap (λ r. (if e % 2 == 1 || true then 1 else 0) + 2 * r)
      (bit_or-zero 31 (e / 2) (omega (arith, h)))
    ∙ odd e
  where
    odd : (e : ℕ) → (if e % 2 == 1 || true then 1 else 0) + 2 * (e / 2) ≡ e / 2 * 2 + 1
    odd e = ground arith

pub entry_for-IsEntry :
    (pa perm : ℕ)
    → pa % page_size ≡ 0
    → pa < word_mod
    → perm < page_size
    → IsEntry (entry_for pa perm) pa perm
unfolding power
entry_for-IsEntry pa perm aligned low flags =
    rw
      (ap (λ x. bit_or 32 x 1) or_sum ∙ bit_or-one (pa + perm) (omega (arith, low, aligned, flags)))
      (omega (arith, aligned, flags), omega (arith, aligned, flags), ground (arith, aligned, flags))
  where
    pages : pa / 4096 * power 12 ≡ pa
    pages = omega (arith, aligned)

    or_sum : bit_or 32 pa perm ≡ pa + perm
    or_sum =
        ap (λ x. bit_or 32 x perm) (sym pages)
        ∙ bit_or-disjoint 12 32 (pa / 4096) perm flags (omega (arith, pages, low))
            (omega (arith, flags))
        ∙ ap (λ x. x + perm) pages
