-- ===== src/Console/Editing.antt =====
-- The indices and the unread characters of the console's input ring under the editing of
-- `consoleintr`.
use assignments.Base.{
  ℕ, zero, suc, ◌%◌, ◌≤◌, ◌<◌, List, [], ◌∷◌, length, ◌≡◌, refl, sym, ap, ◌∙◌, ◌≢◌, inl, inr, false,
  ◌==◌, ltb, ◌&&◌, ◌||◌, not, if◌then◌else◌, get_or, set, add32, sub32, word_mod, arith, Bool-cases,
  length-set, get_or-set_ne,
}
use assignments.Console.{input_buf, Input, kill_line, keep, key, consoleintr}

-- The indices are words, in this order, and the buffer is no more than full.
pub record IsValid (s : Input) : Type 0 where
  pub room : length s.buf ≡ input_buf
  pub words : (s.r < word_mod) × (s.w < word_mod) × (s.e < word_mod)
  pub ordered : sub32 s.w s.r ≤ sub32 s.e s.r
  pub fits : sub32 s.e s.r ≤ input_buf

-- The characters from the read index up to the write index, those that a reader may still read,
-- are in `t` what they are in `s`.
pub record Keeps (s t : Input) : Type 0 where
  pub same_index : t.r ≡ s.r
  pub no_less : sub32 s.w s.r ≤ sub32 t.w t.r
  pub unread :
      (k : ℕ)
      → k < sub32 s.w s.r
      → get_or t.buf (add32 s.r k % input_buf) 0 ≡ get_or s.buf (add32 s.r k % input_buf) 0

Keeps-refl : (s : Input) → Keeps s s
Keeps-refl s = record { same_index = refl; no_less = omega arith; unread = λ k h. refl }

Keeps-trans : (s t u : Input) → Keeps s t → Keeps t u → Keeps s u
Keeps-trans s t u a b = record {
  same_index = b.same_index ∙ a.same_index;
  no_less = omega (arith, a.no_less, b.no_less);
  unread = λ k h.
      ap (λ r. get_or u.buf (add32 r k % input_buf) 0) (sym a.same_index)
      ∙ b.unread k (omega (arith, h, a.no_less))
      ∙ ap (λ r. get_or t.buf (add32 r k % input_buf) 0) a.same_index
      ∙ a.unread k h;
}

-- A step that keeps the validity and what is unread.
abbrev Good : Input → Input → Type 0
Good s t = IsValid t × Keeps s t

apart : (a b : ℕ) → (a == b) ≡ false → a ≢ b
apart a b h = ground arith

shorter-IsValid : (s : Input) → s.e ≢ s.w → IsValid s → Good s (record s { e = sub32 s.e 1 })
shorter-IsValid s ne v = (
  record {
    room = v.room;
    words = omega (arith, v.words);
    ordered = omega (arith, v.words, v.ordered, v.fits);
    fits = omega (arith, v.words, v.ordered, v.fits);
  },
  record { same_index = refl; no_less = omega arith; unread = λ k h. refl },
)

kill_line-IsValid : (fuel : ℕ) (s : Input) → IsValid s → Good s (kill_line fuel s)
unfolding kill_line
kill_line-IsValid zero s v = (v, Keeps-refl s)
kill_line-IsValid (suc fuel) s v = elim (Bool-cases (s.e == s.w)) [
  | inl e ↦ rw e (v, Keeps-refl s)
  | inr apart_yet ↦ elim (Bool-cases (get_or s.buf (sub32 s.e 1 % input_buf) 0 == 10)) [
    | inl line ↦ rw (apart_yet, line) (v, Keeps-refl s)
    | inr other ↦
        let t : Input = record s { e = sub32 s.e 1 } in
        let (w, kept) = shorter-IsValid s (apart s.e s.w apart_yet) v in
        let (u, more) = kill_line-IsValid fuel t w in
        rw (apart_yet, other) (u, Keeps-trans s t (kill_line fuel t) kept more)
  ]
]

longer-IsValid :
    (s : Input) (d : ℕ)
    → sub32 s.e s.r < input_buf
    → IsValid s
    → Good s (record s { buf = set s.buf (s.e % input_buf) d; e = add32 s.e 1 })
longer-IsValid s d space v = (
  record {
    room = length-set s.buf (s.e % input_buf) d ∙ v.room;
    words = omega (arith, v.words);
    ordered = omega (arith, v.words, v.ordered, v.fits, space);
    fits = omega (arith, v.words, v.ordered, v.fits, space);
  },
  record {
    same_index = refl;
    no_less = omega arith;
    unread = λ k h.
        get_or-set_ne s.buf (s.e % input_buf) (add32 s.r k % input_buf) d 0
          (λ z. absurd (omega (arith, z, h, v.words, v.ordered, space)));
  },
)

line-IsValid : (s : Input) → IsValid s → Good s (record s { w = s.e })
line-IsValid s v = (
  record { room = v.room; words = omega (arith, v.words); ordered = omega arith; fits = v.fits },
  record { same_index = refl; no_less = v.ordered; unread = λ k h. refl },
)

keep-IsValid : (c : ℕ) (s : Input) → sub32 s.e s.r < input_buf → IsValid s → Good s (keep c s).0
keep-IsValid c s space v =
    let t : Input = record s { buf = set s.buf (s.e % input_buf) d; e = add32 s.e 1 } in
    let (w, kept) = longer-IsValid s d space v in
    elim (Bool-cases (d == 10 || (d == 4 || add32 s.e 1 == add32 s.r input_buf))) [
      | inl e ↦
          let (u, more) = line-IsValid t w in
          rw e (u, Keeps-trans s t (record t { w = t.e }) kept more)
      | inr e ↦ rw e (w, kept)
    ]
  where
    d : ℕ
    d = if c == 13 then 10 else c

key-IsValid : (c : ℕ) (s : Input) → IsValid s → Good s (key c s).0
unfolding key
key-IsValid c s v = elim (Bool-cases (c == 16)) [
  | inl e ↦ rw e (v, Keeps-refl s)
  | inr listing ↦ elim (Bool-cases (c == 21)) [
    | inl e ↦ rw (listing, e) (kill_line-IsValid (sub32 s.e s.w) s v)
    | inr line ↦ elim (Bool-cases (c == 8 || c == 127)) [
      | inl e ↦ elim (Bool-cases (s.e == s.w)) [
        | inl same ↦ rw (listing, line, e, same) (v, Keeps-refl s)
        | inr other ↦ rw (listing, line, e, other) (shorter-IsValid s (apart s.e s.w other) v)
      ]
      | inr erase ↦ elim (Bool-cases (not (c == 0) && ltb (sub32 s.e s.r) input_buf)) [
        | inl e ↦ rw (listing, line, erase, e) (keep-IsValid c s (ground arith) v)
        | inr e ↦ rw (listing, line, erase, e) (v, Keeps-refl s)
      ]
    ]
  ]
]

-- Whatever is typed, `consoleintr` keeps the indices in order and the buffer within its bounds, and
-- the characters of complete lines that are not read yet stay in the buffer as they are.
pub consoleintr-IsValid :
    (cs : List ℕ) (s : Input)
    → IsValid s
    → IsValid (consoleintr cs s).0 × Keeps s (consoleintr cs s).0
unfolding consoleintr
consoleintr-IsValid [] s v = (v, Keeps-refl s)
consoleintr-IsValid (c ∷ cs) s v =
    let (w, kept) = key-IsValid c s v in
    let (u, more) = consoleintr-IsValid cs (key c s).0 w in
    (u, Keeps-trans s (key c s).0 (consoleintr cs (key c s).0).0 kept more)
