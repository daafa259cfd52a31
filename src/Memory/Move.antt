-- ===== src/Memory/Move.antt =====
-- What the moves leave in memory, overlap included.
use assignments.Base.{
  ℕ, zero, suc, ◌+◌, ◌-◌, ◌%◌, ◌/◌, ◌*◌, ◌≤◌, ◌<◌, ◌≡◌, refl, ◌∙◌, ◌⊎◌, inl, inr, ◌==◌, ltb, leb,
  ◌&&◌, if◌then◌else◌, update, arith, Bool-cases, sym, ap, ap₂, ℕ_discrete, ◌≢◌,
}
use assignments.Memory.{
  Memory, copy_down, copy_up, memmove, user_memmove, store_bytes, store_words, memset,
}

-- The memory after `n` bytes at `src` are moved to `dst`.
abbrev pub moved : ℕ → ℕ → ℕ → Memory → Memory
moved dst src n m a = if leb dst a && ltb a (dst + n) then m (src + (a - dst)) else m a

pub copy_up_lem :
    (n d s : ℕ) (m : Memory) (a : ℕ) → (d ≤ s) ⊎ (s + n ≤ d) → copy_up n d s m a ≡ moved d s n m a
unfolding copy_up
copy_up_lem zero d s m a h = ground arith
copy_up_lem (suc n) d s m a h =
    copy_up_lem n (d + 1) (s + 1) (update m d (m s)) a (ground arith) ∙ ground arith

pub copy_down_lem :
    (n d s : ℕ) (m : Memory) (a : ℕ) → s ≤ d → copy_down n (d + n) (s + n) m a ≡ moved d s n m a
unfolding copy_down
copy_down_lem zero d s m a h = ground arith
copy_down_lem (suc n) d s m a h =
    ap₂ (λ x y. copy_down n x y (update m (d + suc n - 1) (m (s + suc n - 1))) a)
      {x = d + suc n - 1} {y = d + n} {u = s + suc n - 1} {v = s + n} (omega arith) (omega arith)
    ∙ copy_down_lem n d s (update m (d + suc n - 1) (m (s + suc n - 1))) a h
    ∙ ground arith

-- The kernel's `memmove` moves the `n` bytes that stood at `src`, whatever the overlap, and changes
-- nothing else.
pub memmove-moved :
    (dst src n : ℕ) (m : Memory) (a : ℕ) → memmove dst src n m a ≡ moved dst src n m a
unfolding memmove
memmove-moved dst src n m a = elim (Bool-cases (ltb src dst && ltb dst (src + n))) [
  | inl e ↦ rw e (copy_down_lem n dst src m a (ground arith))
  | inr e ↦ rw e (copy_up_lem n dst src m a (ground arith))
]

-- The user library's does so only where the source is not overwritten before it is read.
pub user_memmove-moved :
    (dst src n : ℕ) (m : Memory) (a : ℕ)
    → (dst ≤ src) ⊎ (src + n ≤ dst)
    → user_memmove dst src n m a ≡ moved dst src n m a
unfolding user_memmove
user_memmove-moved dst src n m a h = copy_up_lem n dst src m a h

copy_up_below : (n d s : ℕ) (m : Memory) (a : ℕ) → a < d → copy_up n d s m a ≡ m a
unfolding copy_up
copy_up_below zero d s m a h = refl
copy_up_below (suc n) d s m a h =
    copy_up_below n (d + 1) (s + 1) (update m d (m s)) a (omega arith) ∙ ground arith

-- Moved one byte up onto itself, a block becomes copies of its first byte.
copy_up_smears : (n d : ℕ) (m : Memory) (a : ℕ) → d < a → a ≤ d + n → copy_up n (d + 1) d m a ≡ m d
unfolding copy_up
copy_up_smears zero d m a h k = absurd (omega arith)
copy_up_smears (suc n) d m a h k = elim (ℕ_discrete a (d + 1)) [
  | yes e ↦ rw e (
      copy_up_below n (d + 1 + 1) (d + 1) (update m (d + 1) (m d)) (d + 1) (omega arith)
      ∙ ground arith)
  | no ne ↦
      copy_up_smears n (d + 1) (update m (d + 1) (m d)) a (omega arith) (omega arith) ∙ ground arith
]

-- The user library's `memmove` is no `memmove` for overlapping blocks: moving two bytes or more one
-- byte up goes wrong whenever the first two differ.
pub user_memmove_overlap :
    (d n : ℕ) (m : Memory)
    → 1 < n
    → m d ≢ m (d + 1)
    → ¬ ((a : ℕ) → user_memmove (d + 1) d n m a ≡ moved (d + 1) d n m a)
unfolding user_memmove
user_memmove_overlap d n m h differ all = differ (
    sym (copy_up_smears n d m (d + 2) (omega arith) (omega arith))
    ∙ all (d + 2)
    ∙ ground (arith, ap m {x = d + (d + 2 - (d + 1))} {y = d + 1} (omega arith)))

store_bytes_lem :
    (n d c : ℕ) (m : Memory) (a : ℕ)
    → store_bytes n d c m a ≡ (if leb d a && ltb a (d + n) then c % 256 else m a)
unfolding store_bytes
store_bytes_lem zero d c m a = ground arith
store_bytes_lem (suc n) d c m a =
    store_bytes_lem n (d + 1) c (update m d (c % 256)) a ∙ ground arith

store_words_lem :
    (n d b x : ℕ) (m : Memory) (a : ℕ)
    → x % 256 ≡ b
    → x / 256 % 256 ≡ b
    → x / 65536 % 256 ≡ b
    → x / 16777216 % 256 ≡ b
    → store_words n d x m a ≡ (if leb d a && ltb a (d + n * 4) then b else m a)
unfolding store_words
store_words_lem zero d b x m a e1 e2 e3 e4 = ground arith
store_words_lem (suc n) d b x m a e1 e2 e3 e4 =
    store_words_lem n (d + 4) b x _ a e1 e2 e3 e4 ∙ rw (e1, e2, e3, e4) (ground arith)

-- Both ways of `memset` set `n` bytes at `dst` to the low byte of `c`, and nothing else.
pub memset_lem :
    (dst c n : ℕ) (m : Memory) (a : ℕ)
    → memset dst c n m a ≡ (if leb dst a && ltb a (dst + n) then c % 256 else m a)
unfolding memset
memset_lem dst c n m a = elim (Bool-cases (dst % 4 == 0 && n % 4 == 0)) [
  | inl e ↦ rw e (
      store_words_lem (n / 4) dst (c % 256) _ m a (omega arith) (omega arith) (omega arith)
        (omega arith)
      ∙ ap (λ k. if leb dst a && ltb a (dst + k) then c % 256 else m a) {x = n / 4 * 4} {y = n}
          (ground arith))
  | inr e ↦ rw e (store_bytes_lem n dst c m a)
]
