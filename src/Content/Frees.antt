-- ===== src/Content/Frees.antt =====
-- The loops of `itrunc` in fs.c.
use assignments.Base.{
  ℕ, zero, suc, ◌+◌, ◌≤◌, ◌<◌, List, length, get_or, set, ◌≡◌, refl, sym, ◌∙◌, ap, ◌≢◌, inl, inr,
  true, false, arith, ℕ_discrete, dec_lt, ==_refl, ==_ne, subst, get_or-set_self, get_or-set_ne,
  length-set, ok,
}
use assignments.Balloc.{Fs}
use assignments.Balloc.Fresh.{is_free, Laid}
use assignments.Content.{ndirect, nindirect, maxfile, word_at}
use assignments.Content.Map.{indirect, entry, IsFile, entry-word_at, entry-direct_at}
use assignments.Balloc.{bfree}
use assignments.Balloc.Fresh.{bfree_lem}
use assignments.Content.{free_direct, free_indirect}

-- `c` is one of the blocks of a file before its block number `n`.
abbrev pub Among : (ℕ → ℕ) → ℕ → ℕ → Type 0
Among blocks n c = (j : ℕ) × (j < n) × (blocks j ≡ c) × (c ≢ 0)

-- The step from `s` to `u` that frees the blocks before number `n`, and changes nothing else.
pub record Frees (start n : ℕ) (s : Fs) (blocks : ℕ → ℕ) (u : Fs) : Type 0 where
  pub freed : (c : ℕ) → c < s.size → Among blocks n c → is_free u c ≡ true
  pub marks : (c : ℕ) → c < s.size → ((a : Among blocks n c) → ⊥) → is_free u c ≡ is_free s c
  pub kept : (c : ℕ) → start ≤ c → u.content c ≡ s.content c
  pub same_size : u.size ≡ s.size
  pub same_start : u.bmapstart ≡ s.bmapstart

module _ (start : ℕ) (s : Fs) (addrs : List ℕ) (f : IsFile start s addrs) where
  pub Frees-none : Frees start 0 s (entry s addrs) s
  Frees-none = record {
    freed = λ c h (j, low, _, _). absurd (omega arith);
    marks = λ c h out. refl;
    kept = λ c h. refl;
    same_size = refl;
    same_start = refl;
  }

  -- A block number that has no block.
  pub Frees-skip :
      (n m : ℕ) (u : Fs)
      → n ≤ m
      → ((j : ℕ) → n ≤ j → j < m → entry s addrs j ≡ 0)
      → Frees start n s (entry s addrs) u
      → Frees start m s (entry s addrs) u
  Frees-skip n m u h none r = record {
    freed = λ c k (j, low, e, ne). elim (dec_lt j n) [
      | yes before ↦ r.freed c k (j, before, e, ne)
      | no after ↦ absurd (ne (sym e ∙ none j (omega (arith, after)) low))
    ];
    marks = λ c k out. r.marks c k (λ (j, low, e, ne). out (j, omega (arith, low, h), e, ne));
    kept = r.kept;
    same_size = r.same_size;
    same_start = r.same_start;
  }

  above : (n c : ℕ) → n ≤ suc maxfile → Among (entry s addrs) n c → start ≤ c × (c < s.size)
  above n c h (j, low, e, ne) = elim (f.owns.owned j (omega (arith, low))) [
    | inl z ↦ absurd (ne (sym e ∙ z))
    | inr (p, q, used) ↦ (rw (sym e) p, rw (sym e) q)
  ]

  pub Laid-Frees :
      (n : ℕ) (u : Fs) → n ≤ suc maxfile → Frees start n s (entry s addrs) u → Laid start u
  Laid-Frees n u h r = record {
    bitmap = rw (r.same_size, r.same_start) f.laid.bitmap;
    taken = λ b low.
        r.marks b (omega (arith, low, f.room)) (λ a. absurd (omega (arith, above n b h a, low)))
        ∙ f.laid.taken b low;
  }

  -- `bfree` of the block with the next number.
  pub Frees-bfree :
      (n b : ℕ) (u : Fs)
      → n ≤ maxfile
      → entry s addrs n ≡ b
      → b ≢ 0
      → Frees start n s (entry s addrs) u
      → (t : Fs) × (bfree u b ≡ ok t) × Frees start (n + 1) s (entry s addrs) t
  Frees-bfree n b u h e ne r =
      let (over, under) = above (n + 1) b (omega (arith, h)) (n, omega arith, e, ne) in
      elim (bfree_lem start u b (Laid-Frees n u (omega (arith, h)) r) (rw r.same_size under)) [
        | inl (free, g) ↦ cc (free, r.marks b under (not_yet n b h e ne), in_use n b h e ne)
        | inr (used, t, g, marks, kept, size, begin) ↦ (
          t,
          g,
          record {
            freed = λ c k (j, low, i, some_block).
                marks c (rw r.same_size k) ∙ elim (ℕ_discrete c b) [
                  | yes same ↦ rw (same, ==_refl b) refl
                  | no other ↦
                      rw (==_ne c b other)
                        (r.freed c k (j, before_n n b c j e i other low, i, some_block))
                ];
            marks = λ c k out. marks c (rw r.same_size k) ∙ elim (ℕ_discrete c b) [
              | yes same ↦ absurd (out (n, omega arith, e ∙ sym same, λ z. ne (sym same ∙ z)))
              | no other ↦ rw (==_ne c b other) (
                  r.marks c k
                    (λ (j, low, i, some_block). out (j, omega (arith, low), i, some_block)))
            ];
            kept = λ c k. kept c k ∙ r.kept c k;
            same_size = size ∙ r.same_size;
            same_start = begin ∙ r.same_start;
          },
        )
      ]
    where
      before_n :
          (n b c j : ℕ) → entry s addrs n ≡ b → entry s addrs j ≡ c → c ≢ b → j < n + 1 → j < n
      before_n n b c j e i other low = elim (ℕ_discrete j n) [
        | yes same ↦ absurd (other (sym i ∙ ap (entry s addrs) same ∙ e))
        | no ne ↦ omega (arith, ne, low)
      ]

      not_yet :
          (n b : ℕ) → n ≤ maxfile → entry s addrs n ≡ b → b ≢ 0 → Among (entry s addrs) n b → ⊥
      not_yet n b h e ne (j, low, i, _) = absurd (
          omega (
            arith,
            low,
            f.owns.distinct j n (omega (arith, low, h)) h (λ z. ne (sym i ∙ z)) (i ∙ sym e),
          ))

      in_use : (n b : ℕ) → n ≤ maxfile → entry s addrs n ≡ b → b ≢ 0 → is_free s b ≡ false
      in_use n b h e ne = elim (f.owns.owned n h) [
        | inl z ↦ absurd (ne (sym e ∙ z))
        | inr used ↦ subst (λ c. is_free s c ≡ false) e (used.2)
      ]

  -- The addresses while the loop over the direct blocks is at block `n`.
  abbrev pub Slots : ℕ → List ℕ → Type 0
  Slots n ad =
      (length ad ≡ 13)
      × ((j : ℕ) → j < n → get_or ad j 0 ≡ 0)
      × ((j : ℕ) → n ≤ j → get_or ad j 0 ≡ get_or addrs j 0)

  pub Slots-set : (n : ℕ) (ad : List ℕ) → n < 13 → Slots n ad → Slots (n + 1) (set ad n 0)
  Slots-set n ad low (len, cleared, left) = (
    length-set ad n 0 ∙ len,
    λ j h. elim (ℕ_discrete n j) [
      | yes e ↦ rw (sym e) (get_or-set_self ad n 0 0 (omega (arith, len)))
      | no ne ↦ get_or-set_ne ad n j 0 0 ne ∙ cleared j (omega (arith, h, ne))
    ],
    λ j h. get_or-set_ne ad n j 0 0 (λ e. absurd (omega (arith, e))) ∙ left j (omega (arith, h)),
  )

  Slots-skip : (n : ℕ) (ad : List ℕ) → get_or ad n 0 ≡ 0 → Slots n ad → Slots (n + 1) ad
  Slots-skip n ad z (len, cleared, left) = (
    len,
    λ j h. elim (ℕ_discrete j n) [ yes e ↦ rw e z | no ne ↦ cleared j (omega (arith, h, ne)) ],
    λ j h. left j (omega (arith, h)),
  )

  Slots-entry : (n : ℕ) (ad : List ℕ) → n < ndirect → Slots n ad → entry s addrs n ≡ get_or ad n 0
  Slots-entry n ad low slots = entry-direct_at s addrs n low ∙ sym (slots.2 n (omega arith))

  one_empty : (n : ℕ) → entry s addrs n ≡ 0 → (j : ℕ) → n ≤ j → j < n + 1 → entry s addrs j ≡ 0
  one_empty n z j h low =
      let same : n ≡ j = omega (arith, h, low) in subst (λ k. entry s addrs k ≡ 0) same z

  pub free_direct-Frees :
      (r n : ℕ) (u : Fs) (ad : List ℕ)
      → r + n ≡ ndirect
      → Slots n ad
      → Frees start n s (entry s addrs) u
      → (t : Fs) × (bd : List ℕ) × (free_direct r n u ad ≡ ok (t, bd))
        × Slots ndirect bd
        × Frees start ndirect s (entry s addrs) t
  unfolding free_direct
  free_direct-Frees zero n u ad e slots r =
      let done : n ≡ ndirect = omega (arith, e) in
      (
        u,
        ad,
        refl,
        subst (λ k. Slots k ad) done slots,
        subst (λ k. Frees start k s (entry s addrs) u) done r,
      )
  free_direct-Frees (suc r) n u ad e slots frees = elim (ℕ_discrete (get_or ad n 0) 0) [
    | yes z ↦
        let (t, bd, g, after, result) =
          free_direct-Frees r (n + 1) u ad (omega (arith, e)) (Slots-skip n ad z slots) (
            Frees-skip n (n + 1) u (omega arith)
              (one_empty n (Slots-entry n ad (omega (arith, e)) slots ∙ z)) frees) in
        (t, bd, rw z g, after, result)
    | no ne ↦
        let (v, g, freed) =
          Frees-bfree n (get_or ad n 0) u (omega (arith, e))
            (Slots-entry n ad (omega (arith, e)) slots) ne frees in
        let (t, bd, h, after, result) =
          free_direct-Frees r (n + 1) v (set ad n 0) (omega (arith, e))
            (Slots-set n ad (omega (arith, e)) slots) freed in
        (t, bd, rw (==_ne (get_or ad n 0) 0 ne, g) h, after, result)
  ]

  pub free_indirect-Frees :
      (r j : ℕ) (u : Fs)
      → r + j ≡ nindirect
      → indirect addrs ≢ 0
      → Frees start (ndirect + j) s (entry s addrs) u
      → (t : Fs) × (free_indirect r j (s.content (indirect addrs)) u ≡ ok t)
        × Frees start maxfile s (entry s addrs) t
  unfolding free_indirect
  free_indirect-Frees zero j u e some_block frees =
      (u, refl, subst (λ k. Frees start k s (entry s addrs) u) (omega (arith, e)) frees)
  free_indirect-Frees (suc r) j u e some_block frees =
      elim (ℕ_discrete (word_at (s.content (indirect addrs)) j) 0) [
        | yes z ↦
            let (t, g, result) = free_indirect-Frees r (j + 1) u (omega (arith, e)) some_block (
              next_frees j u (
                Frees-skip (ndirect + j) (ndirect + j + 1) u (omega arith)
                  (one_empty (ndirect + j) (listed j (omega (arith, e)) some_block ∙ z)) frees)) in
            (t, rw z g, result)
        | no ne ↦
            let (v, g, freed) =
              Frees-bfree (ndirect + j) (word_at (s.content (indirect addrs)) j) u
                (omega (arith, e)) (listed j (omega (arith, e)) some_block) ne frees in
            let (t, h, result) =
              free_indirect-Frees r (j + 1) v (omega (arith, e)) some_block
                (next_frees j v freed) in
            (t, rw (==_ne (word_at (s.content (indirect addrs)) j) 0 ne, g) h, result)
      ]
    where
      next_frees :
          (j : ℕ) (v : Fs)
          → Frees start (ndirect + j + 1) s (entry s addrs) v
          → Frees start (ndirect + (j + 1)) s (entry s addrs) v
      next_frees j v = subst (λ k. Frees start k s (entry s addrs) v) (omega arith)

      listed :
          (j : ℕ)
          → j < nindirect
          → indirect addrs ≢ 0
          → entry s addrs (ndirect + j) ≡ word_at (s.content (indirect addrs)) j
      listed j low some_block =
          entry-word_at s addrs (ndirect + j) (omega arith) (omega (arith, low)) some_block
          ∙ ap (word_at (s.content (indirect addrs))) (omega arith)
