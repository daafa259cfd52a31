-- ===== src/Paging/Entry.antt =====
-- A store to an entry of a page table.
use assignments.Base.{
  ℕ, ◌/◌, ◌<◌, ◌==◌, if◌then◌else◌, word_mod, ◌≡◌, refl, sym, ap, ◌∙◌, ◌≢◌, inl, inr, arith,
  Bool-cases, ℕ_discrete, ==_refl, ==_ne, subst,
}
use assignments.Kalloc.{page_size}
use assignments.Paging.{Mem, pdx, ptx, pte_addr, present, set_word}
use assignments.Paging.Walk.{pte_from, pte_of, Apart, IsTable, Finds}

-- The step that writes the entry `e` of the address `va`, in the table that `walkpgdir` has found.
module _ (m n : Mem) (pgdir va pgtab e : ℕ) (f : Finds m pgdir va n pgtab) where
  table_ne : pgtab ≢ pgdir
  table_ne z = (f.table.table_apart (pdx va) (omega arith) f.is_present).0 (f.found ∙ z)

  same_dir : (i : ℕ) → (set_word n pgtab (ptx va) e).word pgdir i ≡ n.word pgdir i
  same_dir i = rw (==_ne pgdir pgtab (λ z. table_ne (sym z))) refl

  pub IsTable-set_word : IsTable (set_word n pgtab (ptx va) e) pgdir
  IsTable-set_word = record {
    free_pages = f.table.free_pages;
    dir_apart = f.table.dir_apart;
    table_apart = λ i h p.
        subst (λ d. (pte_addr d ≢ pgdir) × Apart (pte_addr d) n.free) (sym (same_dir i))
          (f.table.table_apart i h (sym (ap present (same_dir i)) ∙ p));
    distinct = λ i j h k p q same.
        f.table.distinct i j h k (sym (ap present (same_dir i)) ∙ p)
          (sym (ap present (same_dir j)) ∙ q)
          (sym (ap pte_addr (same_dir i)) ∙ same ∙ ap pte_addr (same_dir j));
  }

  at_table :
      (k : ℕ)
      → pte_from (set_word n pgtab (ptx va) e).word (n.word pgdir (pdx va)) k
        ≡ (if k == ptx va then e else n.word pgtab k)
  at_table k = rw (f.is_present, f.found, ==_refl pgtab) refl

  pub before : (k : ℕ) → pte_from n.word (n.word pgdir (pdx va)) k ≡ n.word pgtab k
  before k = rw (f.is_present, f.found) refl

  elsewhere :
      (i k : ℕ)
      → i < 1024
      → i ≢ pdx va
      → pte_from (set_word n pgtab (ptx va) e).word (n.word pgdir i) k
        ≡ pte_from n.word (n.word pgdir i) k
  elsewhere i k h ne = elim (Bool-cases (present (n.word pgdir i))) [
    | inr q ↦ rw q refl
    | inl q ↦
        rw
          (
            q,
            ==_ne (pte_addr (n.word pgdir i)) pgtab (λ z.
                ne (f.table.distinct i (pdx va) h (omega arith) q f.is_present (z ∙ sym f.found))),
          )
          refl
  ]

  -- The entry of `va` is `e`, and every other one is as it was.
  pub pte_of-set_word :
      (a : ℕ)
      → a < word_mod
      → va < word_mod
      → pte_of (set_word n pgtab (ptx va) e) pgdir a
        ≡ (if a / page_size == va / page_size then e else pte_of m pgdir a)
  pte_of-set_word a h k =
      ap (λ d. pte_from (set_word n pgtab (ptx va) e).word d (ptx a)) (same_dir (pdx a))
      ∙ elim (ℕ_discrete (pdx a) (pdx va)) [
        | yes same ↦
            ap (λ i. pte_from (set_word n pgtab (ptx va) e).word (n.word pgdir i) (ptx a)) same
            ∙ at_table (ptx a)
            ∙ ap (λ b. if b then e else n.word pgtab (ptx a)) (same_page a va h k same)
            ∙ ap (λ x. if a / page_size == va / page_size then e else x)
                (sym (before (ptx a))
                  ∙ ap (λ i. pte_from n.word (n.word pgdir i) (ptx a)) (sym same)
                  ∙ f.view a)
        | no ne ↦
            elsewhere (pdx a) (ptx a) (omega arith) ne
            ∙ f.view a
            ∙ sym (
                ap (λ b. if b then e else pte_of m pgdir a)
                  (==_ne (a / page_size) (va / page_size) (λ z. ne (same_dir_index a va z))))
      ]
    where
      same_page :
          (a va : ℕ)
          → a < word_mod
          → va < word_mod
          → pdx a ≡ pdx va
          → (ptx a == ptx va) ≡ (a / page_size == va / page_size)
      same_page a va h k same = ground (arith, same)

      same_dir_index : (a va : ℕ) → a / page_size ≡ va / page_size → pdx a ≡ pdx va
      same_dir_index a va z = omega (arith, z)
