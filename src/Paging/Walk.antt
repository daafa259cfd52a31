-- ===== src/Paging/Walk.antt =====
-- `walkpgdir`: page tables as a map from virtual addresses to entries.
use assignments.Base.{
  ℕ, ◌+◌, ◌%◌, ◌<◌, List, [], ◌∷◌, true, false, ◌==◌, if◌then◌else◌, none, some, ◌≡◌, refl, sym, ap,
  ◌∙◌, ◌≢◌, ◌⊎◌, inl, inr, arith, Bool-cases, ℕ_discrete, ==_refl, ==_ne, subst,
}
use assignments.Kalloc.{page_size}
use assignments.Paging.{
  Mem, pdx, ptx, pte_addr, present, set_word, kalloc_page, clear_page, first_free, make_table,
  walkpgdir,
}

-- The entry that a directory entry leads to, 0 where it has no table; and that of an address.
abbrev pub pte_from : (ℕ → ℕ → ℕ) → ℕ → ℕ → ℕ
pte_from word pde k = if present pde then word (pte_addr pde) k else 0

abbrev pub pte_of : Mem → ℕ → ℕ → ℕ
pte_of m pgdir va = pte_from m.word (m.word pgdir (pdx va)) (ptx va)

-- The page is none of these.
abbrev pub Apart : ℕ → List ℕ → Type 0
Apart p [] = Unit {0}
Apart p (q ∷ qs) = p ≢ q × Apart p qs

-- Free pages: aligned, and each once.
abbrev pub AreFree : List ℕ → Type 0
AreFree [] = Unit {0}
AreFree (p ∷ ps) = (p % page_size ≡ 0) × Apart p ps × AreFree ps

-- A page directory and its tables, which are pages in use, each once.
pub record IsTable (m : Mem) (pgdir : ℕ) : Type 0 where
  pub free_pages : AreFree m.free
  pub dir_apart : Apart pgdir m.free
  pub table_apart :
      (i : ℕ)
      → i < 1024
      → present (m.word pgdir i) ≡ true
      → (pte_addr (m.word pgdir i) ≢ pgdir) × Apart (pte_addr (m.word pgdir i)) m.free
  pub distinct :
      (i j : ℕ)
      → i < 1024
      → j < 1024
      → present (m.word pgdir i) ≡ true
      → present (m.word pgdir j) ≡ true
      → pte_addr (m.word pgdir i) ≡ pte_addr (m.word pgdir j)
      → i ≡ j

-- The step from `m` to `n` finds the table `pgtab` for the address, and may make it.
pub record Finds (m : Mem) (pgdir va : ℕ) (n : Mem) (pgtab : ℕ) : Type 0 where
  pub table : IsTable n pgdir
  pub is_present : present (n.word pgdir (pdx va)) ≡ true
  pub found : pte_addr (n.word pgdir (pdx va)) ≡ pgtab
  pub view : (a : ℕ) → pte_of n pgdir a ≡ pte_of m pgdir a

new_entry : (p : ℕ) → p % page_size ≡ 0 → (present (p + 7) ≡ true) × (pte_addr (p + 7) ≡ p)
new_entry p h = (ground (arith, h), omega (arith, h))

-- A new table: the first of the free pages, which is none of the tables.
module _ (m : Mem) (pgdir va p : ℕ) (ps : List ℕ) (t : IsTable m pgdir)
    (absent : present (m.word pgdir (pdx va)) ≡ false) (free : m.free ≡ p ∷ ps) where
  abbrev with_table : Mem
  with_table = set_word (clear_page (record m { free = ps }) p) pgdir (pdx va) (p + 7)

  page_free : AreFree (p ∷ ps)
  page_free = subst AreFree free t.free_pages

  dir_free : Apart pgdir (p ∷ ps)
  dir_free = subst (Apart pgdir) free t.dir_apart

  table_free :
      (i : ℕ)
      → i < 1024
      → present (m.word pgdir i) ≡ true
      → Apart (pte_addr (m.word pgdir i)) (p ∷ ps)
  table_free i h e = subst (Apart (pte_addr (m.word pgdir i))) free ((t.table_apart i h e).1)

  -- The directory afterwards.
  dir_word : (i : ℕ) → with_table.word pgdir i ≡ (if i == pdx va then p + 7 else m.word pgdir i)
  dir_word i = rw (==_refl pgdir, ==_ne pgdir p (dir_free.0)) refl

  dir_cases :
      (i : ℕ)
      → ((i ≡ pdx va) × (with_table.word pgdir i ≡ p + 7))
        ⊎ ((i ≢ pdx va) × (with_table.word pgdir i ≡ m.word pgdir i))
  dir_cases i = elim (ℕ_discrete i (pdx va)) [
    | yes e ↦ inl (e, dir_word i ∙ rw (e, ==_refl (pdx va)) refl)
    | no ne ↦ inr (ne, dir_word i ∙ rw (==_ne i (pdx va) ne) refl)
  ]

  new_addr : pte_addr (p + 7) ≡ p
  new_addr = (new_entry p (page_free.0)).1

  table-Apart :
      (i : ℕ)
      → i < 1024
      → present (with_table.word pgdir i) ≡ true
      → (pte_addr (with_table.word pgdir i) ≢ pgdir) × Apart (pte_addr (with_table.word pgdir i)) ps
  table-Apart i h e = elim (dir_cases i) [
    | inl (same, w) ↦
        subst (λ q. q ≢ pgdir × Apart q ps) (sym (ap pte_addr w ∙ new_addr))
          (λ z. dir_free.0 (sym z), page_free.1)
    | inr (ne, w) ↦
        let old = sym (ap present w) ∙ e in
        subst (λ q. pte_addr q ≢ pgdir × Apart (pte_addr q) ps) (sym w)
          ((t.table_apart i h old).0, (table_free i h old).1)
  ]

  distinct_after :
      (i j : ℕ)
      → i < 1024
      → j < 1024
      → present (with_table.word pgdir i) ≡ true
      → present (with_table.word pgdir j) ≡ true
      → pte_addr (with_table.word pgdir i) ≡ pte_addr (with_table.word pgdir j)
      → i ≡ j
  distinct_after i j h k e f same = elim (dir_cases i) [
    | inl (is, w) ↦ elim (dir_cases j) [
      | inl (js, v) ↦ is ∙ sym js
      | inr (js, v) ↦ absurd (
          (table_free j k (sym (ap present v) ∙ f)).0
            (sym (ap pte_addr v) ∙ sym same ∙ ap pte_addr w ∙ new_addr))
    ]
    | inr (is, w) ↦ elim (dir_cases j) [
      | inl (js, v) ↦ absurd (
          (table_free i h (sym (ap present w) ∙ e)).0
            (sym (ap pte_addr w) ∙ same ∙ ap pte_addr v ∙ new_addr))
      | inr (js, v) ↦
          t.distinct i j h k (sym (ap present w) ∙ e) (sym (ap present v) ∙ f)
            (sym (ap pte_addr w) ∙ same ∙ ap pte_addr v)
    ]
  ]

  other_word : (q k : ℕ) → q ≢ pgdir → q ≢ p → with_table.word q k ≡ m.word q k
  other_word q k ne other = rw (==_ne q pgdir ne, ==_ne q p other) refl

  new_word : (k : ℕ) → with_table.word p k ≡ 0
  new_word k = rw (==_ne p pgdir (λ z. dir_free.0 (sym z)), ==_refl p) refl

  new_view : (k : ℕ) → pte_from with_table.word (p + 7) k ≡ 0
  new_view k = rw ((new_entry p (page_free.0)).0, new_addr) (new_word k)

  old_view : (k : ℕ) → pte_from m.word (m.word pgdir (pdx va)) k ≡ 0
  old_view k = rw absent refl

  view_after : (a : ℕ) → pte_of with_table pgdir a ≡ pte_of m pgdir a
  view_after a = elim (dir_cases (pdx a)) [
    | inl (same, w) ↦
        ap (λ e. pte_from with_table.word e (ptx a)) w
        ∙ new_view (ptx a)
        ∙ sym (ap (λ i. pte_from m.word (m.word pgdir i) (ptx a)) same ∙ old_view (ptx a))
    | inr (ne, w) ↦
        ap (λ e. pte_from with_table.word e (ptx a)) w
        ∙ elim (Bool-cases (present (m.word pgdir (pdx a)))) [
          | inl e ↦ rw e (
              other_word (pte_addr (m.word pgdir (pdx a))) (ptx a)
                ((t.table_apart (pdx a) (omega arith) e).0)
                ((table_free (pdx a) (omega arith) e).0))
          | inr e ↦ rw e refl
        ]
  ]

  Finds-new : Finds m pgdir va with_table p
  Finds-new = record {
    table = record {
      free_pages = page_free.2;
      dir_apart = dir_free.1;
      table_apart = table-Apart;
      distinct = distinct_after;
    };
    is_present =
        ap present (dir_word (pdx va)) ∙ rw (==_refl (pdx va)) ((new_entry p (page_free.0)).0);
    found = ap pte_addr (dir_word (pdx va)) ∙ rw (==_refl (pdx va)) new_addr;
    view = view_after;
  }

list_cases : (xs : List ℕ) → (xs ≡ []) ⊎ ((x : ℕ) × (ys : List ℕ) × (xs ≡ x ∷ ys))
list_cases [] = inl refl
list_cases (x ∷ ys) = inr (x, ys, refl)

walk_absent :
    (m : Mem) (pgdir va : ℕ)
    → present (m.word pgdir (pdx va)) ≡ false
    → walkpgdir pgdir va true m ≡ make_table pgdir va (kalloc_page m)
unfolding walkpgdir
walk_absent m pgdir va e = rw e refl

-- `walkpgdir` that may allocate finds the table of the address, and makes it if there is none, which
-- changes no entry of any address; without a free page it gives nothing, and changes nothing.
pub walkpgdir_lem :
    (m : Mem) (pgdir va : ℕ)
    → IsTable m pgdir
    → ((n : Mem) × (pgtab : ℕ) × (walkpgdir pgdir va true m ≡ (n, some (pgtab, ptx va)))
        × Finds m pgdir va n pgtab)
      ⊎ ((m.free ≡ []) × (walkpgdir pgdir va true m ≡ (m, none)))
unfolding walkpgdir
walkpgdir_lem m pgdir va t = elim (Bool-cases (present (m.word pgdir (pdx va)))) [
  | inl e ↦ inl (
    m,
    pte_addr (m.word pgdir (pdx va)),
    rw e refl,
    record { table = t; is_present = e; found = refl; view = λ a. refl },
  )
  | inr e ↦ elim (list_cases m.free) [
    | inl z ↦ inr (z, walk_absent m pgdir va e ∙ ap (λ fs. make_table pgdir va (first_free fs m)) z)
    | inr (p, ps, f) ↦ inl (
      with_table m pgdir va p ps t e f,
      p,
      walk_absent m pgdir va e ∙ ap (λ fs. make_table pgdir va (first_free fs m)) f,
      Finds-new m pgdir va p ps t e f,
    )
  ]
]
