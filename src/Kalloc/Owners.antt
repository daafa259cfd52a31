-- ===== src/Kalloc/Owners.antt =====
-- The allocator and its clients: which pages are free and which have an owner.
use assignments.Base.{
  ℕ, ◌+◌, ◌≤◌, ◌<◌, List, [], ◌∷◌, ◌++◌, ◌≡◌, sym, ◌∙◌, ◌≢◌, true, ok, All, Distinct, All-drop,
  Distinct-drop, ok-injective, update, ap, subst,
}
use assignments.Kalloc.{Kmem, page_size, is_page, kfree, kalloc}
use assignments.Kalloc.FreeList.{IsFree, kfree-IsFree, kalloc-IsFree, kalloc_none, store-IsFree}

-- No free page is owned.
abbrev pub Separate : List ℕ → List ℕ → Type 0
Separate ps us = All (λ u. All (λ q. q ≢ u) ps) us

-- The free pages `ps` and the owned pages `us` are distinct pages of allocatable memory.
pub record Owned (end_addr : ℕ) (m : Kmem) (ps us : List ℕ) : Type 0 where
  pub free : IsFree end_addr m ps
  pub distinct : Distinct us
  pub separate : Separate ps us
  pub pages : All (λ q. is_page end_addr q ≡ true) us

-- A client asks for a page, returns one of its pages, or writes into one.
pub data Step (end_addr : ℕ) (m : Kmem) (us : List ℕ) : Kmem → List ℕ → Type 0 where
  allocates : (n : Kmem) (p : ℕ) → kalloc m ≡ (n, p) → p ≢ 0 → Step end_addr m us n (p ∷ us)
  returns :
      (n : Kmem) (before : List ℕ) (v : ℕ) (after : List ℕ)
      → us ≡ before ++ v ∷ after
      → kfree end_addr m v ≡ ok n
      → Step end_addr m us n (before ++ after)
  stores :
      (before : List ℕ) (v : ℕ) (after : List ℕ) (a x : ℕ)
      → us ≡ before ++ v ∷ after
      → v ≤ a
      → a < v + page_size
      → Step end_addr m us (record m { word = update m.word a x }) us

Separate-cons :
    (p : ℕ) (ps us : List ℕ) → Separate (p ∷ ps) us → Separate ps us × All (λ u. u ≢ p) us
Separate-cons p ps [] h = (tt, tt)
Separate-cons p ps (u ∷ us) h =
    let (rest, others) = Separate-cons p ps us h.1 in ((h.0.1, rest), (λ e. h.0.0 (sym e), others))

cons-Separate :
    (p : ℕ) (ps us : List ℕ) → Separate ps us → All (λ u. u ≢ p) us → Separate (p ∷ ps) us
cons-Separate p ps [] h n = tt
cons-Separate p ps (u ∷ us) h n = ((λ e. n.0 (sym e), h.0), cons-Separate p ps us h.1 n.1)

allocates-Owned :
    (end_addr : ℕ) (m : Kmem) (us : List ℕ) (n : Kmem) (p : ℕ) (ps : List ℕ)
    → kalloc m ≡ (n, p)
    → p ≢ 0
    → Owned end_addr m ps us
    → (qs : List ℕ) × Owned end_addr n qs (p ∷ us)
allocates-Owned end_addr m us n p [] e some_page o =
    absurd (some_page (sym (ap (λ (r : Kmem × ℕ). r.1) (sym (kalloc_none end_addr m o.free) ∙ e))))
allocates-Owned end_addr m us n p (q ∷ qs) e some_page o =
    let (first, free, _, _, others) = kalloc-IsFree end_addr m q qs o.free in
    let (separate, fresh) = Separate-cons q qs us o.separate in
    let new : q ≡ p = sym first ∙ ap (λ (r : Kmem × ℕ). r.1) e in
    (
      qs,
      record {
        free = subst (λ k. IsFree end_addr k qs) (ap (λ (r : Kmem × ℕ). r.0) e) free;
        distinct = (subst (λ k. All (λ u. u ≢ k) us) new fresh, o.distinct);
        separate = (subst (λ k. All (λ r. r ≢ k) qs) new others, separate);
        pages = (subst (λ k. is_page end_addr k ≡ true) new o.free.pages.0, o.pages);
      },
    )

returns-Owned :
    (end_addr : ℕ) (m n : Kmem) (before : List ℕ) (v : ℕ) (after ps : List ℕ)
    → kfree end_addr m v ≡ ok n
    → Owned end_addr m ps (before ++ v ∷ after)
    → (qs : List ℕ) × Owned end_addr n qs (before ++ after)
returns-Owned end_addr m n before v after ps e o =
    let (pages, page) = All-drop (λ q. is_page end_addr q ≡ true) before v after o.pages in
    let (separate, apart) = All-drop (λ u. All (λ q. q ≢ u) ps) before v after o.separate in
    let (distinct, others) = Distinct-drop before v after o.distinct in
    let (k, done, free, _) = kfree-IsFree end_addr m ps v o.free page apart in
    (
      v ∷ ps,
      record {
        free = subst (λ j. IsFree end_addr j (v ∷ ps)) (ok-injective (sym done ∙ e)) free;
        distinct = distinct;
        separate = cons-Separate v ps (before ++ after) separate others;
        pages = pages;
      },
    )

-- Every step keeps free and owned pages apart: `kalloc` never hands out a page that has an owner,
-- and an owner that writes into its page never damages the free list.
pub Step-Owned :
    {end_addr : ℕ} {m : Kmem} {us : List ℕ} {n : Kmem} {rs : List ℕ}
    → Step end_addr m us n rs
    → (ps : List ℕ) → Owned end_addr m ps us
    → (qs : List ℕ) × Owned end_addr n qs rs
Step-Owned {end_addr} {m} {us} (allocates n p e some_page) ps o =
    allocates-Owned end_addr m us n p ps e some_page o
Step-Owned {end_addr} {m} (returns n before v after split e) ps o =
    returns-Owned end_addr m n before v after ps e (subst (Owned end_addr m ps) split o)
Step-Owned {end_addr} {m} {us} (stores before v after a x split low high) ps o =
    let page =
      (All-drop (λ q. is_page end_addr q ≡ true) before v after
        (subst (All (λ q. is_page end_addr q ≡ true)) split o.pages)).1 in
    let apart =
      (All-drop (λ u. All (λ q. q ≢ u) ps) before v after
        (subst (Separate ps) split o.separate)).1 in
    (
      ps,
      record {
        free = store-IsFree end_addr m ps v a x o.free page apart low high;
        distinct = o.distinct;
        separate = o.separate;
        pages = o.pages;
      },
    )
