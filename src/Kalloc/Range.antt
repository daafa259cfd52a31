-- ===== src/Kalloc/Range.antt =====
-- `freerange`: which pages the two `kinit`s put on the free list.
use assignments.Base.{
  ℕ, zero, suc, ◌+◌, ◌-◌, ◌/◌, ◌%◌, ◌≤◌, ◌<◌, List, [], ◌∷◌, ◌≡◌, refl, sym, subst, ◌∙◌, true,
  false, arith, dec_lt, ok, All, All-map, le→leb, lt→leb_false,
}
use assignments.Kalloc.{
  Kmem, page_size, kern_base, phys_stop, is_page, page_round_up, freerange_from, freerange, kinit1,
}
use assignments.Kalloc.FreeList.{IsFree, kfree-IsFree}

-- `count` pages from `p` on, the last one first, before `ps`.
abbrev pub freed : ℕ → ℕ → List ℕ → List ℕ
freed zero p ps = ps
freed (suc count) p ps = freed count (p + page_size) (p ∷ ps)

module _ (end_addr vend : ℕ) (top : vend ≤ kern_base + phys_stop) where
  is_page_in_range :
      (p : ℕ)
      → p % page_size ≡ 0
      → end_addr ≤ p
      → kern_base ≤ p
      → p + page_size ≤ vend
      → is_page end_addr p ≡ true
  is_page_in_range p h1 h2 h3 h4 = ground (arith, top)

  -- The loop frees every whole page between `p` and `vend`, if its fuel is enough for them.
  pub freerange_from_lem :
      (fuel : ℕ) (m : Kmem) (p : ℕ) (ps : List ℕ)
      → IsFree end_addr m ps
      → p % page_size ≡ 0
      → end_addr ≤ p
      → kern_base ≤ p
      → All (λ q. q < p) ps
      → (vend - p) / page_size ≤ fuel
      → (n : Kmem) × (freerange_from end_addr fuel m p vend ≡ ok n)
        × IsFree end_addr n (freed ((vend - p) / page_size) p ps)
        × (n.use_lock ≡ m.use_lock)
  unfolding freerange_from
  freerange_from_lem zero m p ps f h1 h2 h3 below enough =
      let none_left : (vend - p) / page_size ≡ 0 = omega arith in (m, refl, rw none_left f, refl)
  freerange_from_lem (suc fuel) m p ps f h1 h2 h3 below enough =
      elim (dec_lt vend (p + page_size)) [
        | yes past ↦
            let none_left : (vend - p) / page_size ≡ 0 = omega arith in
            (m, rw (lt→leb_false (p + page_size) vend past), rw none_left f, refl)
        | no fits ↦
            let count : (vend - p) / page_size ≡ suc ((vend - (p + page_size)) / page_size) =
              omega arith in
            let page = is_page_in_range p h1 h2 h3 (omega arith) in
            let (n, done, g, lock) =
              kfree-IsFree end_addr m ps p f page (All-map _ _ ps (λ q h. omega arith) below) in
            let (k, ends, final, lock') =
              freerange_from_lem fuel n (p + page_size) (p ∷ ps) g (omega arith) (omega arith)
                (omega arith) (omega arith, All-map _ _ ps (λ q h. omega arith) below)
                (omega (arith, count)) in
            (
              k,
              rw (le→leb (p + page_size) vend (omega arith), done) ends,
              subst (λ c. IsFree end_addr k (freed c p ps)) (sym count) final,
              lock' ∙ lock,
            )
      ]

-- `kinit1` on a range of allocatable memory frees exactly its whole pages, does not panic, and
-- leaves the allocator unlocked.
pub kinit1_lem :
    (end_addr vstart vend : ℕ) (m : Kmem)
    → vend ≤ kern_base + phys_stop
    → end_addr ≤ vstart
    → kern_base ≤ vstart
    → vstart ≤ vend
    → m.freelist ≡ 0
    → (n : Kmem) × (kinit1 end_addr m vstart vend ≡ ok n)
      × IsFree end_addr n
          (freed ((vend - page_round_up vstart) / page_size) (page_round_up vstart) [])
      × (n.use_lock ≡ false)
unfolding kinit1 freerange
kinit1_lem end_addr vstart vend m top low base order empty =
    freerange_from_lem end_addr vend top (vend / page_size) (record m { use_lock = false })
      (page_round_up vstart) [] (record { chain = empty; distinct = tt; pages = tt }) (omega arith)
      (omega arith) (omega arith) tt (omega arith)
