-- ===== src/Pipe/Window.antt =====
-- The bytes in the circular buffer, oldest first.
use assignments.Base.{
  ℕ, zero, suc, ◌+◌, ◌-◌, ◌%◌, ◌≤◌, ◌<◌, List, [], ◌∷◌, ◌++◌, ◌≡◌, refl, ap, ap₂, ◌≢◌, ◌∙◌, get_or,
  set, length, arith, get_or-set_self, get_or-set_ne, length-set, true, ◌↔◌, add32, sub32, word_mod,
}
use assignments.Pipe.{Pipe, pipe_size, put, got, is_full}

-- The `n` bytes from counter `r` on.
abbrev pub window : List ℕ → ℕ → ℕ → List ℕ
window buf r zero = []
window buf r (suc n) = get_or buf (r % pipe_size) 0 ∷ window buf (r + 1) n

abbrev pub used : Pipe → ℕ
used p = sub32 p.nwrite p.nread

abbrev pub free : Pipe → ℕ
free p = pipe_size - used p

abbrev pub contents : Pipe → List ℕ
contents p = window p.buf p.nread (used p)

pub record IsValid (p : Pipe) : Type 0 where
  pub room : pipe_size ≤ length p.buf
  pub read_word : p.nread < word_mod
  pub write_word : p.nwrite < word_mod
  pub fits : used p ≤ pipe_size

pub length-window : (buf : List ℕ) (r n : ℕ) → length (window buf r n) ≡ n
length-window buf r zero = refl
length-window buf r (suc n) = ap suc (length-window buf (r + 1) n)

-- Counters that agree modulo the size show the same bytes, so wrapping at 2 ^ 32 is harmless.
pub window-congr :
    (buf : List ℕ) (r s n : ℕ) → r % pipe_size ≡ s % pipe_size → window buf r n ≡ window buf s n
window-congr buf r s zero e = refl
window-congr buf r s (suc n) e =
    ap₂ ◌∷◌ (ap (λ i. get_or buf i 0) e) (window-congr buf (r + 1) (s + 1) n (omega arith))

window-snoc :
    (buf : List ℕ) (r n : ℕ)
    → window buf r (suc n) ≡ window buf r n ++ get_or buf ((r + n) % pipe_size) 0 ∷ []
window-snoc buf r zero = ap (λ i. get_or buf (i % pipe_size) 0 ∷ []) (omega arith)
window-snoc buf r (suc n) = ap₂ ◌∷◌ refl (
    window-snoc buf (r + 1) n
    ∙ ap (λ i. window buf (r + 1) n ++ get_or buf (i % pipe_size) 0 ∷ []) (omega arith))

window-set_other :
    (buf : List ℕ) (r n j x : ℕ)
    → n ≤ j
    → j < pipe_size
    → window (set buf ((r + j) % pipe_size) x) r n ≡ window buf r n
window-set_other buf r zero j x h k = refl
window-set_other buf r (suc n) j x h k =
    ap₂ ◌∷◌ (get_or-set_ne buf ((r + j) % pipe_size) (r % pipe_size) x 0 (omega arith)) (
      ap (λ i. window (set buf (i % pipe_size) x) (r + 1) n) (omega arith)
      ∙ window-set_other buf (r + 1) n (j - 1) x (omega arith) (omega arith))

-- A byte written just past the window extends it.
window-set :
    (buf : List ℕ) (r n x : ℕ)
    → n < pipe_size
    → pipe_size ≤ length buf
    → window (set buf ((r + n) % pipe_size) x) r (suc n) ≡ window buf r n ++ x ∷ []
window-set buf r n x h room =
    window-snoc (set buf ((r + n) % pipe_size) x) r n
    ∙ ap₂ (λ xs y. xs ++ y ∷ []) (window-set_other buf r n n x (omega arith) h)
        (get_or-set_self buf ((r + n) % pipe_size) x 0 (omega arith))

pub is_full_iff : (p : Pipe) → IsValid p → (is_full p ≡ true) ↔ (free p ≡ 0)
is_full_iff p v = ground arith

module _ (p : Pipe) (x : ℕ) (v : IsValid p) (space : used p < pipe_size) where
  pub used-put : used (put p x) ≡ suc (used p)
  used-put = omega (arith, v)

  pub contents-put : contents (put p x) ≡ contents p ++ x ∷ []
  contents-put =
      ap (λ n. window (set p.buf (p.nwrite % pipe_size) x) p.nread n) used-put
      ∙ ap (λ i. window (set p.buf i x) p.nread (suc (used p))) (omega (arith, v))
      ∙ window-set p.buf p.nread (used p) x space v.room

  pub put-IsValid : IsValid (put p x)
  put-IsValid = omega (arith, v, used-put, length-set p.buf (p.nwrite % pipe_size) x)

module _ (p : Pipe) (v : IsValid p) (some_left : p.nread ≢ p.nwrite) where
  pub used-got : used p ≡ suc (used (got p))
  used-got = omega (arith, v)

  pub contents-got : contents p ≡ get_or p.buf (p.nread % pipe_size) 0 ∷ contents (got p)
  contents-got =
      ap (window p.buf p.nread) used-got
      ∙ ap (λ xs. get_or p.buf (p.nread % pipe_size) 0 ∷ xs)
          (window-congr p.buf (p.nread + 1) (add32 p.nread 1) (used (got p)) (omega (arith, v)))

  pub got-IsValid : IsValid (got p)
  got-IsValid = omega (arith, v, used-got)
