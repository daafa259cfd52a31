-- ===== src/Balloc/Fresh.antt =====
-- What `balloc` hands out, and what it and `bfree` leave alone.
use assignments.Base.{
  ℕ, zero, suc, ◌+◌, ◌-◌, ◌*◌, ◌/◌, ◌%◌, ◌≤◌, ◌<◌, ◌≡◌, refl, ◌∙◌, ap, ◌≢◌, ◌⊎◌, inl, inr, Bool,
  true, false, ◌==◌, ltb, if◌then◌else◌, arith, ℕ_discrete, dec_lt, ==_refl, ==_ne, none, some, Res,
  ok, panic, Bool-cases, lt→ltb, ltb→lt,
}
use assignments.Balloc.{
  Fs, bpb, store, bitmap_block, bit_clear, clear_bit, bzero, find_bit, claim, balloc_from, balloc,
  bfree,
}
use assignments.Balloc.Bits.{set_bit-at, clear_bit-at}

-- The bitmap's bit for block `b` is clear.
abbrev pub is_free : Fs → ℕ → Bool
is_free s b = bit_clear (s.content (bitmap_block s b)) (b % bpb)

-- The blocks below `start` hold the boot block, the log, the inodes and the bitmap; they are in use.
pub record Laid (start : ℕ) (s : Fs) : Type 0 where
  pub bitmap : s.size / bpb + s.bmapstart < start
  pub taken : (b : ℕ) → b < start → is_free s b ≡ false

-- A block in use for data.
abbrev pub InUse : ℕ → Fs → ℕ → Type 0
InUse start s b = (start ≤ b) × (b < s.size) × (is_free s b ≡ false)

-- The step from `s` to `t` that allocates block `a`: it was free, is in use and zero, and the other
-- data blocks are as they were.
pub record Allocates (start : ℕ) (s t : Fs) (a : ℕ) : Type 0 where
  pub fresh : is_free s a ≡ true
  pub low : a < s.size
  pub data_block : start ≤ a
  pub zeroed : t.content a ≡ (λ k. 0)
  pub free : (b : ℕ) → b < s.size → is_free t b ≡ (if b == a then false else is_free s b)
  pub kept : (b : ℕ) → start ≤ b → b ≢ a → t.content b ≡ s.content b
  pub same_size : t.size ≡ s.size
  pub same_start : t.bmapstart ≡ s.bmapstart

some-injective : {j k : ℕ} → some j ≡ some k → j ≡ k
some-injective {j} e = ap (λ o. elim o [ some n ↦ n | none ↦ j ]) e

claim-Allocates :
    (start : ℕ) (s : Fs) (b bi : ℕ)
    → Laid start s
    → b % bpb ≡ 0
    → bi < bpb
    → b + bi < s.size
    → bit_clear (s.content (bitmap_block s b)) bi ≡ true
    → Allocates start s (claim s b bi) (b + bi)
unfolding claim bzero
claim-Allocates start s b bi laid aligned inside low clear = record {
  fresh = fresh;
  low = low;
  data_block = above;
  zeroed = rw (==_refl (b + bi)) refl;
  free = free_at;
  kept = λ c h ne.
      rw
        (
          ==_ne c (b + bi) ne,
          ==_ne c (bitmap_block s b) (λ e. absurd (omega (arith, e, laid.bitmap, h))),
        )
        refl;
  same_size = refl;
  same_start = refl;
}
  where
    same_block : bitmap_block s (b + bi) ≡ bitmap_block s b
    same_block = omega (arith, aligned, inside)

    fresh : is_free s (b + bi) ≡ true
    fresh =
        ap (λ k. bit_clear (s.content k) ((b + bi) % bpb)) same_block
        ∙ ap (bit_clear (s.content (bitmap_block s b))) (omega (arith, aligned, inside))
        ∙ clear

    above : start ≤ b + bi
    above = elim (dec_lt (b + bi) start) [
      | yes under ↦ cc (fresh, laid.taken (b + bi) under)
      | no over ↦ omega (arith, over)
    ]

    not_bitmap : (c : ℕ) → c < s.size → bitmap_block s c ≢ b + bi
    not_bitmap c h e = omega (arith, e, above, laid.bitmap, h)

    same_bit : (c : ℕ) → bitmap_block s c ≡ bitmap_block s b → (c % bpb == bi) ≡ (c == b + bi)
    same_bit c e = ground (arith, e, aligned, inside)

    free_at :
        (c : ℕ)
        → c < s.size
        → is_free (claim s b bi) c ≡ (if c == b + bi then false else is_free s c)
    free_at c h = elim (ℕ_discrete (bitmap_block s c) (bitmap_block s b)) [
      | no ne ↦
          rw
            (
              ==_ne (bitmap_block s c) (b + bi) (not_bitmap c h),
              ==_ne (bitmap_block s c) (bitmap_block s b) ne,
              ==_ne c (b + bi) (λ e. ne (ap (bitmap_block s) e ∙ same_block)),
            )
            refl
      | yes e ↦
          rw (==_ne (bitmap_block s c) (b + bi) (not_bitmap c h), e, ==_refl (bitmap_block s b))
            (set_bit-at (s.content (bitmap_block s b)) bi (c % bpb) clear ∙ rw (same_bit c e) refl)
    ]

-- The scan of a bitmap block finds a clear bit, or there is none.
find_bit-cases :
    (r bi b : ℕ) (s : Fs)
    → ((j : ℕ) × (find_bit r bi b s ≡ some j)
        × (j < bi + r)
        × (b + j < s.size)
        × (bit_clear (s.content (bitmap_block s b)) j ≡ true))
      ⊎ ((find_bit r bi b s ≡ none)
          × ((j : ℕ)
              → bi ≤ j
              → j < bi + r
              → b + j < s.size
              → bit_clear (s.content (bitmap_block s b)) j ≡ false))
unfolding find_bit
find_bit-cases zero bi b s = inr (refl, λ j h k l. absurd (omega arith))
find_bit-cases (suc r) bi b s = elim (Bool-cases (ltb (b + bi) s.size)) [
  | inr past ↦ inr (rw past refl, λ j h k l. cc (rw (lt→ltb (b + bi) s.size (omega arith)) at past))
  | inl low ↦ elim (Bool-cases (bit_clear (s.content (bitmap_block s b)) bi)) [
    | inl clear ↦ inl (bi, rw (low, clear) refl, omega arith, ltb→lt (b + bi) s.size low, clear)
    | inr taken ↦ elim (find_bit-cases r (bi + 1) b s) [
      | inl (j, e, below, inside, clear) ↦
          inl (j, rw (low, taken) e, omega (arith, below), inside, clear)
      | inr (e, all) ↦ inr (
        rw (low, taken) e,
        λ j h k l. elim (ℕ_discrete j bi) [
          | yes same ↦ rw same taken
          | no other ↦ all j (omega arith) (omega arith) l
        ],
      )
    ]
  ]
]

-- `balloc` from block `b` on, with rounds enough for the rest of the disk.
abbrev Ballocs : ℕ → Fs → ℕ → Res (Fs × ℕ) → Type 0
Ballocs start s b r =
    ((t : Fs) × (a : ℕ) × (r ≡ ok (t, a)) × Allocates start s t a)
    ⊎ ((r ≡ panic "balloc: out of blocks") × ((c : ℕ) → b ≤ c → c < s.size → is_free s c ≡ false))

balloc_from-Ballocs :
    (start r b : ℕ) (s : Fs)
    → Laid start s
    → b % bpb ≡ 0
    → s.size ≤ b + r * bpb
    → Ballocs start s b (balloc_from r b s)
unfolding balloc_from
balloc_from-Ballocs start zero b s laid aligned enough =
    inr (refl, λ c h k. absurd (omega (arith, enough)))
balloc_from-Ballocs start (suc r) b s laid aligned enough = elim (Bool-cases (ltb b s.size)) [
  | inr past ↦ inr (rw past refl, λ c h k. cc (rw (lt→ltb b s.size (omega arith)) at past))
  | inl low ↦ elim (find_bit-cases bpb 0 b s) [
    | inl (j, e, below, inside, clear) ↦ inl (
      claim s b j,
      b + j,
      rw (low, e) refl,
      claim-Allocates start s b j laid aligned (omega (arith, below)) inside clear,
    )
    | inr (e, all) ↦
        elim (balloc_from-Ballocs start r (b + bpb) s laid (omega (arith, aligned))
          (omega (arith, enough))) [
            | inl (t, a, f, allocates) ↦ inl (t, a, rw (low, e) f, allocates)
            | inr (f, rest) ↦ inr (
              rw (low, e) f,
              λ c h k. elim (dec_lt c (b + bpb)) [
                | no later ↦ rest c (omega (arith, later)) k
                | yes here ↦
                    ap (λ k. bit_clear (s.content k) (c % bpb)) (omega (arith, aligned, h, here))
                    ∙ ap (bit_clear (s.content (bitmap_block s b)))
                        (omega (arith, aligned, h, here))
                    ∙ all (c - b) (omega arith) (omega (arith, here)) (omega (arith, h, k))
              ],
            )
          ]
  ]
]

-- `balloc` takes a block that was free, marks it in use, clears it, and leaves every other data
-- block and every other mark as it was; it panics only if no block of the disk is free.
pub balloc_lem :
    (start : ℕ) (s : Fs)
    → Laid start s
    → ((t : Fs) × (a : ℕ) × (balloc s ≡ ok (t, a)) × Allocates start s t a)
      ⊎ ((balloc s ≡ panic "balloc: out of blocks") × ((c : ℕ) → c < s.size → is_free s c ≡ false))
unfolding balloc
balloc_lem start s laid =
    elim (balloc_from-Ballocs start (s.size / bpb + 1) 0 s laid refl (omega arith)) [
      | inl r ↦ inl r
      | inr (e, all) ↦ inr (e, λ c h. all c (omega arith) h)
    ]

pub Laid-Allocates :
    (start : ℕ) (s t : Fs) (a : ℕ)
    → start ≤ s.size
    → Laid start s
    → Allocates start s t a
    → Laid start t
Laid-Allocates start s t a room laid al = record {
  bitmap = rw (al.same_size, al.same_start) laid.bitmap;
  taken = λ b h. al.free b (omega (arith, room, h)) ∙ ground (arith, laid.taken b h);
}

-- `bfree` of a data block in use clears its mark, and leaves every other mark and every data block
-- as it was; of a free block it panics.
pub bfree_lem :
    (start : ℕ) (s : Fs) (b : ℕ)
    → Laid start s
    → b < s.size
    → (is_free s b ≡ true × (bfree s b ≡ panic "freeing free block"))
      ⊎ ((is_free s b ≡ false)
          × (t : Fs) × (bfree s b ≡ ok t)
          × ((c : ℕ) → c < s.size → is_free t c ≡ (if c == b then true else is_free s c))
          × ((c : ℕ) → start ≤ c → t.content c ≡ s.content c)
          × (t.size ≡ s.size)
          × (t.bmapstart ≡ s.bmapstart))
unfolding bfree
bfree_lem start s b laid low = elim (Bool-cases (is_free s b)) [
  | inl free ↦ inl (free, rw free refl)
  | inr taken ↦ inr (
    taken,
    freed,
    rw taken refl,
    λ c h. elim (ℕ_discrete (bitmap_block s c) (bitmap_block s b)) [
      | no ne ↦
          rw
            (
              ==_ne (bitmap_block s c) (bitmap_block s b) ne,
              ==_ne c b (λ e. ne (ap (bitmap_block s) e)),
            )
            refl
      | yes e ↦
          rw (e, ==_refl (bitmap_block s b))
            (clear_bit-at (s.content (bitmap_block s b)) (b % bpb) (c % bpb) taken
              ∙ rw (same_bit c e) refl)
    ],
    λ c h. rw (==_ne c (bitmap_block s b) (λ e. absurd (omega (arith, e, laid.bitmap, h)))) refl,
    refl,
    refl,
  )
]
  where
    freed : Fs
    freed = store s (bitmap_block s b) (clear_bit (s.content (bitmap_block s b)) (b % bpb))

    same_bit : (c : ℕ) → bitmap_block s c ≡ bitmap_block s b → (c % bpb == b % bpb) ≡ (c == b)
    same_bit c e = ground (arith, e)
