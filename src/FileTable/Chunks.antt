-- ===== src/FileTable/Chunks.antt =====
-- `filewrite` of file.c: its branches, and its loop piece by piece.
use assignments.Base.{
  ℕ, zero, suc, ◌+◌, ◌-◌, ◌≤◌, ◌<◌, ◌≡◌, refl, sym, ◌∙◌, ap, ap₂, Bool, ◌⊎◌, inl, inr, ◌==◌, ltb,
  true, false, not, if◌then◌else◌, Option, none, some, Res, ok, panic, check, ◌>>=◌, arith,
  ℕ_discrete, ==_refl, ==_ne, ◌≢◌, dec_lt, add32, int_lt, word_mod, subst, Bool-cases,
}
use assignments.FileTable.{File, Kind, fd_none, fd_pipe, fd_inode, Writers, write_from, filewrite}

module _ {S : Type 0} (ops : Writers S) (ip n off : ℕ) (s : S) where
  -- A transaction writes `m` bytes from byte `k` on: never nothing, and never more than 1536.
  abbrev pub Fits : ℕ → ℕ → Type 0
  Fits k m = (0 < m) × (m ≤ 1536) × (k + m ≤ n)

  -- The file systems that are reached with `k` bytes written, in pieces that `writei` takes whole.
  pub data Reached : ℕ → S → Type 0 where
    start : Reached 0 s
    piece :
        {k : ℕ} {u t : S} (m : ℕ)
        → Reached k u
        → Fits k m
        → ops.writei u ip k (add32 off k) m ≡ (t, some m)
        → Reached (k + m) t

  -- How the loop ends: with all bytes written, at a piece that `writei` refuses, or in a panic at
  -- one of which it writes a part.
  abbrev pub LoopEnds : Res (S × ℕ × ℕ) → Type 0
  LoopEnds r =
      ((t : S) × Reached n t × (r ≡ ok (t, add32 off n, n)))
      ⊎ ((k m : ℕ) × (u t : S) × Reached k u
          × Fits k m
          × (ops.writei u ip k (add32 off k) m ≡ (t, none))
          × (r ≡ ok (t, add32 off k, k)))
      ⊎ ((k m w : ℕ) × (u t : S) × Reached k u
          × Fits k m
          × (ops.writei u ip k (add32 off k) m ≡ (t, some w))
          × (w ≢ m)
          × (r ≡ panic "short filewrite"))

  write_from-LoopEnds :
      (fuel i : ℕ) (u : S)
      → n < 0x80000000
      → i ≤ n
      → n ≤ fuel + i
      → Reached i u
      → LoopEnds (write_from ops fuel ip i n u (add32 off i))
  unfolding write_from
  write_from-LoopEnds zero i u small h enough r =
      let all : i ≡ n = omega (arith, h, enough) in
      inl (u, subst (λ k. Reached k u) all r, rw all refl)
  write_from-LoopEnds (suc fuel) i u small h enough r = elim (dec_lt i n) [
    | no stop ↦
        let all : i ≡ n = omega (arith, h, stop) in
        let past : int_lt n n ≡ false = ground (arith, small) in
        inl (u, subst (λ k. Reached k u) all r, rw (all, past) refl)
    | yes more ↦
        let going : int_lt i n ≡ true = ground (arith, small, more) in
        rw going (
          round (λ k t g l. write_from-LoopEnds fuel k t small g l) more
            (ops.writei u ip i (add32 off i) size) refl)
  ]
    where
      size : ℕ
      size = if ltb 1536 (n - i) then 1536 else n - i

      size-Fits : i < n → Fits i size
      size-Fits more = ground (arith, more)

      wrap : (i w : ℕ) → add32 (add32 off i) w ≡ add32 off (i + w)
      wrap i w = omega arith

      round :
          ((k : ℕ) (t : S)
            → k ≤ n
            → n ≤ fuel + k
            → Reached k t
            → LoopEnds (write_from ops fuel ip k n t (add32 off k)))
          → i < n
          → (q : S × Option ℕ) → ops.writei u ip i (add32 off i) size ≡ q
          → LoopEnds (elim (q.1) [
            | none ↦ ok (q.0, add32 off i, i)
            | some w ↦
                check
                  (w == size)
                  "short filewrite"
                  (write_from ops fuel ip (i + w) n (q.0) (add32 (add32 off i) w))
          ])
      round rest more (t, none) e = inr (inl (i, size, u, t, r, size-Fits more, e, refl))
      round rest more (t, some w) e = elim (ℕ_discrete w size) [
        | no short ↦
            inr (inr (i, size, w, u, t, r, size-Fits more, e, short, rw (==_ne w size short) refl))
        | yes whole ↦
            let fits = size-Fits more in
            rw (whole, ==_refl size, wrap i size)
              (rest (i + size) t (omega (arith, fits)) (omega (arith, fits, enough))
                (piece size r fits (e ∙ ap (λ k. (t, some k)) whole)))
      ]

-- How `filewrite` ends on an inode.
abbrev pub InodeEnds : {S : Type 0} → Writers S → File → ℕ → S → Res (S × File × Option ℕ) → Type 0
InodeEnds {S} ops f n s r =
    ((t : S) × Reached ops f.ip n f.off s n t
      × (r ≡ ok (t, record f { off = add32 f.off n }, some n)))
    ⊎ ((k m : ℕ) × (u t : S) × Reached ops f.ip n f.off s k u
        × Fits ops f.ip n f.off s k m
        × (ops.writei u f.ip k (add32 f.off k) m ≡ (t, none))
        × (r ≡ ok (t, record f { off = add32 f.off k }, none)))
    ⊎ ((k m w : ℕ) × (u t : S) × Reached ops f.ip n f.off s k u
        × Fits ops f.ip n f.off s k m
        × (ops.writei u f.ip k (add32 f.off k) m ≡ (t, some w))
        × (w ≢ m)
        × (r ≡ panic "short filewrite"))

-- For a size that is not negative, `filewrite` refuses a file that is not writable, hands a pipe to
-- `pipewrite`, and panics on a file of no kind. On an inode it writes pieces of at most 1536 bytes,
-- one after the other, and moves the offset with them: it returns `n` when all bytes are written;
-- -1 when `writei` refuses a piece, with the offset after the pieces before it; and it panics when
-- `writei` writes a piece in part.
pub filewrite_lem :
    {S : Type 0} (ops : Writers S) (f : File) (n : ℕ) (s : S)
    → n < 0x80000000
    → f.off < word_mod
    → ((f.writable ≡ false) × (filewrite ops f n s ≡ ok (s, f, none)))
      ⊎ ((f.writable ≡ true)
          × (f.kind ≡ fd_pipe)
          × (filewrite ops f n s
              ≡ ok ((ops.pipewrite s f.pipe n).0, f, (ops.pipewrite s f.pipe n).1)))
      ⊎ ((f.writable ≡ true) × (f.kind ≡ fd_none) × (filewrite ops f n s ≡ panic "filewrite"))
      ⊎ ((f.writable ≡ true) × (f.kind ≡ fd_inode) × InodeEnds ops f n s (filewrite ops f n s))
unfolding filewrite
filewrite_lem {S} ops f n s small word = elim (Bool-cases f.writable) [
  | inr e ↦ inl (e, ap (λ w. body w f.kind) e)
  | inl e ↦ by_kind f.kind refl e
]
  where
    body : Bool → Kind → Res (S × File × Option ℕ)
    body w k =
        let (t, r) = ops.pipewrite s f.pipe n in
        if not w then ok (s, f, none) else elim k [
          | fd_pipe ↦ ok (t, f, r)
          | fd_inode ↦ write_from ops n f.ip 0 n s f.off >>= λ (t, end, i).
              ok (t, record f { off = end }, if i == n then some n else none)
          | fd_none ↦ panic "filewrite"
        ]

    ending :
        (r : Res (S × ℕ × ℕ))
        → LoopEnds ops f.ip n f.off s r
        → InodeEnds ops f n s
            (r >>= λ (t, end, i). ok (t, record f { off = end }, if i == n then some n else none))
    ending r (inl (t, done, e)) = inl (t, done, rw (e, ==_refl n) refl)
    ending r (inr (inl (k, m, u, t, done, fits, e, z))) = inr (
        inl (
          k,
          m,
          u,
          t,
          done,
          fits,
          e,
          rw (z, ==_ne k n (λ q. absurd (omega (arith, q, fits)))) refl,
        ))
    ending r (inr (inr (k, m, w, u, t, done, fits, e, short, z))) =
        inr (inr (k, m, w, u, t, done, fits, e, short, rw z refl))

    no_wrap : (x : ℕ) → x < word_mod → add32 x 0 ≡ x
    no_wrap x h = omega arith

    loop : LoopEnds ops f.ip n f.off s (write_from ops n f.ip 0 n s f.off)
    loop =
        subst (λ o. LoopEnds ops f.ip n f.off s (write_from ops n f.ip 0 n s o))
          (no_wrap f.off word)
          (write_from-LoopEnds ops f.ip n f.off s n 0 s small (omega arith) (omega arith) start)

    by_kind :
        (k : Kind)
        → f.kind ≡ k
        → f.writable ≡ true
        → ((f.writable ≡ false) × (filewrite ops f n s ≡ ok (s, f, none)))
          ⊎ ((f.writable ≡ true)
              × (f.kind ≡ fd_pipe)
              × (filewrite ops f n s
                  ≡ ok ((ops.pipewrite s f.pipe n).0, f, (ops.pipewrite s f.pipe n).1)))
          ⊎ ((f.writable ≡ true) × (f.kind ≡ fd_none) × (filewrite ops f n s ≡ panic "filewrite"))
          ⊎ ((f.writable ≡ true) × (f.kind ≡ fd_inode) × InodeEnds ops f n s (filewrite ops f n s))
    by_kind fd_pipe k e = inr (inl (e, k, ap₂ body e k))
    by_kind fd_none k e = inr (inr (inl (e, k, ap₂ body e k)))
    by_kind fd_inode k e =
        inr (inr (inr (e, k, subst (InodeEnds ops f n s) (sym (ap₂ body e k)) (ending _ loop))))
