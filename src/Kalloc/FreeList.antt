-- ===== src/Kalloc/FreeList.antt =====
-- The free list as a list of pages: what each call does to it.
use assignments.Base.{
  ℕ, ◌+◌, ◌%◌, ◌≤◌, ◌<◌, List, [], ◌∷◌, ◌≡◌, refl, ◌≢◌, true, false, ◌==◌, update, arith, ok, All,
  Distinct, ==_refl,
}
use assignments.Kalloc.{Kmem, page_size, fill_junk, is_page, kfree, kalloc}

-- The list that starts at `p` holds the pages `ps`, in order.
abbrev pub Chain : (ℕ → ℕ) → ℕ → List ℕ → Type 0
Chain word p [] = p ≡ 0
Chain word p (q ∷ qs) = (p ≡ q) × (q ≢ 0) × Chain word (word q) qs

module _ (end_addr : ℕ) where
  -- The free pages are `ps`: distinct pages of allocatable memory, linked in this order.
  pub record IsFree (m : Kmem) (ps : List ℕ) : Type 0 where
    pub chain : Chain m.word m.freelist ps
    pub distinct : Distinct ps
    pub pages : All (λ q. is_page end_addr q ≡ true) ps

  -- What `kfree` accepts: a page boundary, and not the null pointer.
  pub page_aligned : (v : ℕ) → is_page end_addr v ≡ true → (v % page_size ≡ 0) × (v ≢ 0)
  page_aligned v h = ground arith

Chain-congr :
    (word other : ℕ → ℕ) (p : ℕ) (ps : List ℕ)
    → All (λ q. word q ≡ other q) ps
    → Chain word p ps
    → Chain other p ps
Chain-congr word other p [] h c = c
Chain-congr word other p (q ∷ qs) h c =
    (c.0, c.1, Chain-congr word other (other q) qs h.1 (rw (← h.0) c.2))

module _ (end_addr : ℕ) where
  -- A store into a page that is not free does not disturb the free list.
  pub store-IsFree :
      (m : Kmem) (ps : List ℕ) (v a x : ℕ)
      → IsFree end_addr m ps
      → is_page end_addr v ≡ true
      → All (λ q. q ≢ v) ps
      → v ≤ a
      → a < v + page_size
      → IsFree end_addr (record m { word = update m.word a x }) ps
  store-IsFree m ps v a x f page other low high = record {
    chain = Chain-congr m.word (update m.word a x) m.freelist ps (same ps f.pages other) f.chain;
    distinct = f.distinct;
    pages = f.pages;
  }
    where
      same :
          (qs : List ℕ)
          → All (λ q. is_page end_addr q ≡ true) qs
          → All (λ q. q ≢ v) qs
          → All (λ q. m.word q ≡ update m.word a x q) qs
      same [] g h = tt
      same (q ∷ qs) g h = (
        ground (arith, page_aligned end_addr q g.0, page_aligned end_addr v page, h.0),
        same qs g.1 h.1,
      )

  -- `kfree` puts a page at the front, unless it panics: it accepts exactly the pages.
  pub kfree-IsFree :
      (m : Kmem) (ps : List ℕ) (v : ℕ)
      → IsFree end_addr m ps
      → is_page end_addr v ≡ true
      → All (λ q. q ≢ v) ps
      → (n : Kmem) × (kfree end_addr m v ≡ ok n)
        × IsFree end_addr n (v ∷ ps)
        × (n.use_lock ≡ m.use_lock)
  unfolding kfree
  kfree-IsFree m ps v f page other = (
    record m { word = update (fill_junk m.word v) v m.freelist; freelist = v },
    rw page,
    record {
      chain = (
        refl,
        (page_aligned end_addr v page).1,
        rw (==_refl v) (Chain-congr m.word _ m.freelist ps (same ps f.pages other) f.chain),
      );
      distinct = (other, f.distinct);
      pages = (page, f.pages);
    },
    refl,
  )
    where
      same :
          (qs : List ℕ)
          → All (λ q. is_page end_addr q ≡ true) qs
          → All (λ q. q ≢ v) qs
          → All (λ q. m.word q ≡ update (fill_junk m.word v) v m.freelist q) qs
      same [] g h = tt
      same (q ∷ qs) g h = (
        ground (arith, page_aligned end_addr q g.0, page_aligned end_addr v page, h.0),
        same qs g.1 h.1,
      )

  -- `kalloc` takes the first free page and changes no memory, or returns 0 if none is free.
  pub kalloc-IsFree :
      (m : Kmem) (p : ℕ) (ps : List ℕ)
      → IsFree end_addr m (p ∷ ps)
      → ((kalloc m).1 ≡ p)
        × IsFree end_addr (kalloc m).0 ps
        × ((kalloc m).0.word ≡ m.word)
        × (p ≢ 0)
        × All (λ q. q ≢ p) ps
  unfolding kalloc
  kalloc-IsFree m p ps f =
      let some_left : (m.freelist == 0) ≡ false = ground (arith, f.chain) in
      rw some_left (
        f.chain.0,
        record { chain = rw (f.chain.0) f.chain.2; distinct = f.distinct.1; pages = f.pages.1 },
        refl,
        f.chain.1,
        f.distinct.0,
      )

  pub kalloc_none : (m : Kmem) → IsFree end_addr m [] → kalloc m ≡ (m, 0)
  unfolding kalloc
  kalloc_none m f = rw (f.chain)
