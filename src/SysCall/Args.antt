-- ===== src/SysCall/Args.antt =====
-- What of the calling process's memory the functions of syscall.c accept.
use assignments.Base.{
  ℕ, zero, suc, ◌+◌, ◌-◌, ◌≤◌, ◌<◌, ◌≡◌, refl, ◌≢◌, ◌⊎◌, inl, inr, false, leb, if◌then◌else◌,
  word_mod, Option, none, some, arith, ℕ_discrete, Bool-cases, leb→le, ==_ne, subst, ap,
}
use assignments.Memory.{Memory}
use assignments.SysCall.{User, word_at, fetchint, scan_from, fetchstr, argint, argptr}

-- Where user memory ends.
abbrev pub user_top : ℕ
user_top = 0x80000000

-- `fetchint` reads a word exactly if all its bytes are in the process; adding 4 does not wrap.
pub fetchint_lem :
    (p : User) (addr : ℕ)
    → p.sz ≤ user_top
    → addr < word_mod
    → fetchint p addr ≡ (if leb (addr + 4) p.sz then some (word_at p.byte addr) else none)
unfolding fetchint
fetchint_lem p addr small word = ground arith

-- A block that `argptr` accepts, of any size that a call passes, lies in the process.
pub argptr_safe :
    (p : User) (n size a : ℕ)
    → p.sz ≤ user_top
    → size < word_mod
    → argptr p n size ≡ some a
    → (argint p n ≡ some a) × (a < p.sz) × (a + size ≤ p.sz)
unfolding argptr
argptr_safe p n size a small word e = ground arith

-- The first zero byte from `s` on, before `s + rounds`.
abbrev pub EndsAt : Memory → ℕ → ℕ → Type 0
EndsAt m s k = (m (s + k) ≡ 0) × ((j : ℕ) → j < k → m (s + j) ≢ 0)

pub data Scanned (m : Memory) (s rounds len : ℕ) : Option ℕ → Type 0 where
  ended : (k : ℕ) → k < rounds → EndsAt m s k → Scanned m s rounds len (some (len + k))
  endless : ((j : ℕ) → j < rounds → m (s + j) ≢ 0) → Scanned m s rounds len none

nonzero_from :
    (m : Memory) (s k : ℕ)
    → m s ≢ 0
    → ((j : ℕ) → j < k → m (s + 1 + j) ≢ 0)
    → (j : ℕ) → j < suc k
    → m (s + j) ≢ 0
nonzero_from m s k h before j low = elim (ℕ_discrete j 0) [
  | yes e ↦ subst (λ a. m a ≢ 0) (omega (arith, e)) h
  | no other ↦ subst (λ a. m a ≢ 0) (omega (arith, other)) (before (j - 1) (omega arith))
]

later :
    (m : Memory) (s rounds len : ℕ) (o : Option ℕ)
    → m s ≢ 0
    → Scanned m (s + 1) rounds (len + 1) o
    → Scanned m s (suc rounds) len o
later m s rounds len _ h (ended k low (z, before)) =
    subst (λ x. Scanned m s (suc rounds) len (some x)) (omega arith)
      (ended (suc k) (omega arith)
        (subst (λ a. m a ≡ 0) (omega arith) z, nonzero_from m s k h before))
later m s rounds len _ h (endless all) = endless (nonzero_from m s rounds h all)

pub scan_from-Scanned :
    (rounds : ℕ) (m : Memory) (s len : ℕ) → Scanned m s rounds len (scan_from rounds m s len)
unfolding scan_from
scan_from-Scanned zero m s len = endless (λ j h. absurd (omega arith))
scan_from-Scanned (suc rounds) m s len = elim (ℕ_discrete (m s) 0) [
  | yes e ↦ rw e (
      subst (λ x. Scanned m s (suc rounds) len (some x)) (omega arith)
        (ended 0 (omega arith) (subst (λ a. m a ≡ 0) (omega arith) e, λ j h. absurd (omega arith))))
  | no h ↦
      rw (==_ne (m s) 0 h) (later m s rounds len _ h (scan_from-Scanned rounds m (s + 1) (len + 1)))
]

-- `fetchstr` returns the length of the string at `addr`, up to its first zero byte, if the string
-- with that byte lies in the process, and -1 otherwise.
pub fetchstr_lem :
    (p : User) (addr : ℕ)
    → ((len : ℕ) × (addr + len < p.sz) × EndsAt p.byte addr len × (fetchstr p addr ≡ some len))
      ⊎ (((j : ℕ) → addr + j < p.sz → p.byte (addr + j) ≢ 0) × (fetchstr p addr ≡ none))
unfolding fetchstr
fetchstr_lem p addr = elim (Bool-cases (leb p.sz addr)) [
  | inl e ↦ inr (λ j h. absurd (omega (arith, leb→le p.sz addr e)), rw e refl)
  | inr e ↦
      result e (scan_from (p.sz - addr) p.byte addr 0) refl
        (scan_from-Scanned (p.sz - addr) p.byte addr 0)
]
  where
    result :
        leb p.sz addr ≡ false
        → (o : Option ℕ) → scan_from (p.sz - addr) p.byte addr 0 ≡ o
        → Scanned p.byte addr (p.sz - addr) 0 o
        → ((len : ℕ) × (addr + len < p.sz) × EndsAt p.byte addr len × (fetchstr p addr ≡ some len))
          ⊎ (((j : ℕ) → addr + j < p.sz → p.byte (addr + j) ≢ 0) × (fetchstr p addr ≡ none))
    result e _ f (ended k low ends) = inl (k, omega arith, ends, rw (e, f) (ap some (omega arith)))
    result e _ f (endless all) = inr (λ j h. all j (omega arith), rw (e, f) refl)
