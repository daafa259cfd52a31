-- ===== src/Content/Bmap.antt =====
-- `bmap` of fs.c: the block that it returns, and the files that it leaves.
use assignments.Base.{
  ℕ, ◌-◌, ◌≤◌, ◌<◌, List, get_or, set, ◌≡◌, refl, sym, ◌∙◌, ap, ◌≢◌, ◌⊎◌, inl, inr, true, false,
  ltb, if◌then◌else◌, arith, ℕ_discrete, dec_lt, ==_ne, lt→ltb, le→ltb_false, subst,
  get_or-set_self, Res, ok, panic,
}
use assignments.Balloc.{Fs}
use assignments.Balloc.Fresh.{is_free, Allocates, balloc_lem}
use assignments.Content.{ndirect, nindirect, maxfile, word_at, bmap, bmap_indirect}
use assignments.Content.Map.{indirect, IsFile, entry-word_at, entry-direct_at, entry-none}
use assignments.Content.Grow.{
  Maps, Grows-refl, Grows-trans, with_word, Maps-word, Maps-direct, Grows-indirect,
}

-- At most one block of the disk is free.
abbrev pub Full : Fs → Type 0
Full s = (c d : ℕ) → c < s.size → d < s.size → is_free s c ≡ true → is_free s d ≡ true → c ≡ d

abbrev pub Exhausted : Fs → Type 0
Exhausted s = (c : ℕ) → c < s.size → is_free s c ≡ false

-- The result `r` maps the block, or it is the panic for want of blocks, and then `Lack`.
abbrev pub Mapped : ℕ → Fs → List ℕ → ℕ → Type 0 → Res (Fs × List ℕ × ℕ) → Type 0
Mapped start s addrs bn Lack r =
    ((t : Fs) × (ad : List ℕ) × (b : ℕ) × (r ≡ ok (t, ad, b)) × Maps start s addrs bn t ad b)
    ⊎ ((r ≡ panic "balloc: out of blocks") × Lack)

-- The part of `bmap` that has the indirect block.
bmap_indirect-cases :
    (start bn : ℕ) (s : Fs) (addrs : List ℕ)
    → IsFile start s addrs
    → ndirect ≤ bn
    → bn < maxfile
    → indirect addrs ≢ 0
    → Mapped start s addrs bn (Exhausted s) (bmap_indirect (bn - ndirect) (indirect addrs) s addrs)
unfolding bmap_indirect
bmap_indirect-cases start bn s addrs f above low ne =
    elim (ℕ_discrete (word_at (s.content (indirect addrs)) (bn - ndirect)) 0) [
      | no w ↦ inl (
        s,
        addrs,
        word_at (s.content (indirect addrs)) (bn - ndirect),
        rw (==_ne (word_at (s.content (indirect addrs)) (bn - ndirect)) 0 w) refl,
        record {
          grows = Grows-refl start s addrs f;
          mapped = entry-word_at s addrs bn above low ne;
          some_block = w;
          settled = λ w. refl;
        },
      )
      | yes z ↦ elim (balloc_lem start s f.laid) [
        | inr (e, all) ↦ inr (rw (z, e) refl, all)
        | inl (u, a, e, al) ↦ inl (
          with_word u addrs bn a,
          addrs,
          a,
          rw (z, e) refl,
          Maps-word start bn a s u addrs f above low ne (entry-word_at s addrs bn above low ne ∙ z)
              al,
        )
      ]
    ]

bmap-direct :
    (start bn : ℕ) (s : Fs) (addrs : List ℕ)
    → IsFile start s addrs
    → bn < ndirect
    → Mapped start s addrs bn (Full s) (bmap bn s addrs)
unfolding bmap
bmap-direct start bn s addrs f low = elim (ℕ_discrete (get_or addrs bn 0) 0) [
  | no ne ↦ inl (
    s,
    addrs,
    get_or addrs bn 0,
    rw (lt→ltb bn ndirect low, ==_ne (get_or addrs bn 0) 0 ne) refl,
    record {
      grows = Grows-refl start s addrs f;
      mapped = entry-direct_at s addrs bn low;
      some_block = ne;
      settled = λ w. refl;
    },
  )
  | yes z ↦ elim (balloc_lem start s f.laid) [
    | inr (e, all) ↦
        inr (rw (lt→ltb bn ndirect low, z, e) refl, λ c d h k free _. cc (all c h, free))
    | inl (u, a, e, al) ↦ inl (
      u,
      set addrs bn a,
      a,
      rw (lt→ltb bn ndirect low, z, e) refl,
      Maps-direct start bn a s u addrs f low z al,
    )
  ]
]

Full-Allocates : (start a : ℕ) (s u : Fs) → Allocates start s u a → Exhausted u → Full s
Full-Allocates start a s u al all c d h k free also = this c h free ∙ sym (this d k also)
  where
    this : (c : ℕ) → c < s.size → is_free s c ≡ true → c ≡ a
    this c h free = elim (ℕ_discrete c a) [
      | yes e ↦ e
      | no ne ↦ cc (
        al.free c h,
        ap (λ b. if b then false else is_free s c) (==_ne c a ne),
        all c (rw al.same_size h),
        free,
      )
    ]

-- The indirect block and its entry are both new.
bmap-both :
    (start bn : ℕ) (s : Fs) (addrs : List ℕ)
    → IsFile start s addrs
    → ndirect ≤ bn
    → bn < maxfile
    → indirect addrs ≡ 0
    → Mapped start s addrs bn (Full s) (bmap bn s addrs)
unfolding bmap
bmap-both start bn s addrs f above low z = elim (balloc_lem start s f.laid) [
  | inr (e, all) ↦ inr (rw (shut, inside, z, e) refl, λ c d h k free _. cc (all c h, free))
  | inl (u, a, e, al) ↦
      let listed : indirect (set addrs ndirect a) ≡ a =
        get_or-set_self addrs ndirect a 0 (omega (arith, f.slots)) in
      let first = Grows-indirect start a s u addrs f z al in
      let next : bmap bn s addrs
          ≡ bmap_indirect (bn - ndirect) (indirect (set addrs ndirect a)) u (set addrs ndirect a) =
        rw (shut, inside, z, e, listed) refl in
      subst (Mapped start s addrs bn (Full s)) (sym next)
        (elim (bmap_indirect-cases start bn u (set addrs ndirect a) first.file above low
          (λ y. absurd (omega (arith, listed, y, al.data_block, f.some_meta)))) [
            | inr (g, all) ↦ inr (g, Full-Allocates start a s u al all)
            | inl (t, ad, b, g, maps) ↦ inl (
              t,
              ad,
              b,
              g,
              record {
                grows = Grows-trans start s addrs u (set addrs ndirect a) t ad first maps.grows;
                mapped = maps.mapped;
                some_block = maps.some_block;
                settled = λ ne. absurd (ne (entry-none s addrs bn above low z));
              },
            )
          ])
]
  where
    shut : ltb bn ndirect ≡ false
    shut = le→ltb_false bn ndirect above

    inside : ltb (bn - ndirect) nindirect ≡ true
    inside = lt→ltb (bn - ndirect) nindirect (omega (arith, above, low))

-- `bmap` of a block number below MAXFILE gives the file a block there. Every byte of the file, and
-- every block of another file, is as it was, and the layout of the file stays well-formed. It
-- panics only when at most one block of the disk is free.
pub bmap_lem :
    (start bn : ℕ) (s : Fs) (addrs : List ℕ)
    → IsFile start s addrs
    → bn < maxfile
    → Mapped start s addrs bn (Full s) (bmap bn s addrs)
unfolding bmap
bmap_lem start bn s addrs f low = elim (dec_lt bn ndirect) [
  | yes direct ↦ bmap-direct start bn s addrs f direct
  | no high ↦ elim (ℕ_discrete (indirect addrs) 0) [
    | no ne ↦
        subst (Mapped start s addrs bn (Full s))
          (rw
            (
              le→ltb_false bn ndirect (omega (arith, high)),
              lt→ltb (bn - ndirect) nindirect (omega (arith, low)),
              ==_ne (indirect addrs) 0 ne,
            )
            refl)
          (elim (bmap_indirect-cases start bn s addrs f (omega (arith, high)) low ne) [
            | inl found ↦ inl found
            | inr (e, all) ↦ inr (e, λ c d h k free _. cc (all c h, free))
          ])
    | yes z ↦ bmap-both start bn s addrs f (omega (arith, high)) low z
  ]
]
