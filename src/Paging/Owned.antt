-- ===== src/Paging/Owned.antt =====
-- The pages of a process, and the release of one of them.
use assignments.Base.{
  ℕ, ◌/◌, ◌%◌, ◌≤◌, ◌<◌, true, false, ◌==◌, ltb, leb, ◌&&◌, if◌then◌else◌, word_mod, add32, ◌≡◌,
  refl, sym, ap, ◌∙◌, ◌≢◌, inl, inr, arith, Bool-cases, ℕ_discrete, ==_refl, ==_ne, subst,
}
use assignments.Kalloc.{page_size, kern_base, is_page}
use assignments.Paging.{Mem, pdx, ptx, pte_addr, present, set_word, freed_page}
use assignments.Paging.Walk.{pte_from, pte_of, Apart, IsTable, Finds}
use assignments.Paging.Entry.{IsTable-set_word, pte_of-set_word}

-- The pages of the process, below `top`: each in one place, in the memory that `kfree` takes, and
-- none of them a table or free.
pub record Owns (m : Mem) (pgdir top : ℕ) : Type 0 where
  pub table : IsTable m pgdir
  pub not_null :
      (x : ℕ) → x < top → present (pte_of m pgdir x) ≡ true → pte_addr (pte_of m pgdir x) ≢ 0
  pub in_memory :
      (x : ℕ)
      → x < top
      → present (pte_of m pgdir x) ≡ true
      → is_page m.end_addr (add32 (pte_addr (pte_of m pgdir x)) kern_base) ≡ true
  pub not_dir :
      (x : ℕ) → x < top → present (pte_of m pgdir x) ≡ true → pte_addr (pte_of m pgdir x) ≢ pgdir
  pub not_table :
      (x i : ℕ)
      → x < top
      → i < 1024
      → present (pte_of m pgdir x) ≡ true
      → present (m.word pgdir i) ≡ true
      → pte_addr (pte_of m pgdir x) ≢ pte_addr (m.word pgdir i)
  pub not_free :
      (x : ℕ)
      → x < top
      → present (pte_of m pgdir x) ≡ true
      → Apart (pte_addr (pte_of m pgdir x)) m.free
  pub once :
      (x y : ℕ)
      → x < top
      → y < top
      → present (pte_of m pgdir x) ≡ true
      → present (pte_of m pgdir y) ≡ true
      → pte_addr (pte_of m pgdir x) ≡ pte_addr (pte_of m pgdir y)
      → x / page_size ≡ y / page_size

-- The entries after the release of the pages from `a` up to `b`.
abbrev pub released : ℕ → ℕ → (ℕ → ℕ) → ℕ → ℕ
released a b before x = if leb a x && ltb x b && present (before x) then 0 else before x

-- The page `p` of the address `a` is freed.
module _ (m : Mem) (pgdir top a : ℕ) (o : Owns m pgdir top) (low : a < top) (limit : top ≤ word_mod)
    (has_table : present (m.word pgdir (pdx a)) ≡ true)
    (mapped : present (pte_of m pgdir a) ≡ true) where
  abbrev pub freed : Mem
  freed = freed_page m (pte_addr (pte_of m pgdir a))

  abbrev pub after : Mem
  after = set_word freed (pte_addr (m.word pgdir (pdx a))) (ptx a) 0

  same_dir : (i : ℕ) → freed.word pgdir i ≡ m.word pgdir i
  same_dir i =
      rw (==_ne pgdir (pte_addr (pte_of m pgdir a)) (λ z. o.not_dir a low mapped (sym z))) refl

  same_tables :
      (i k : ℕ)
      → i < 1024
      → present (m.word pgdir i) ≡ true
      → freed.word (pte_addr (m.word pgdir i)) k ≡ m.word (pte_addr (m.word pgdir i)) k
  same_tables i k h e =
      rw
        (==_ne (pte_addr (m.word pgdir i)) (pte_addr (pte_of m pgdir a))
          (λ z. o.not_table a i low h mapped e (sym z)))
        refl

  freed_view : (x : ℕ) → pte_of freed pgdir x ≡ pte_of m pgdir x
  freed_view x =
      ap (λ d. pte_from freed.word d (ptx x)) (same_dir (pdx x))
      ∙ elim (Bool-cases (present (m.word pgdir (pdx x)))) [
        | inr e ↦ rw e refl
        | inl e ↦ rw e (same_tables (pdx x) (ptx x) (omega arith) e)
      ]

  Finds-freed : Finds m pgdir a freed (pte_addr (m.word pgdir (pdx a)))
  Finds-freed = record {
    table = record {
      free_pages = (aligned (pte_of m pgdir a), o.not_free a low mapped, o.table.free_pages);
      dir_apart = (λ z. o.not_dir a low mapped (sym z), o.table.dir_apart);
      table_apart = λ i h e.
          let old = sym (ap present (same_dir i)) ∙ e in
          subst (λ d. (pte_addr d ≢ pgdir) × Apart (pte_addr d) freed.free) (sym (same_dir i))
            (
              (o.table.table_apart i h old).0,
              ((λ z. o.not_table a i low h mapped old (sym z)), (o.table.table_apart i h old).1),
            );
      distinct = λ i j h k p q same.
          o.table.distinct i j h k (sym (ap present (same_dir i)) ∙ p)
            (sym (ap present (same_dir j)) ∙ q)
            (sym (ap pte_addr (same_dir i)) ∙ same ∙ ap pte_addr (same_dir j));
    };
    is_present = ap present (same_dir (pdx a)) ∙ has_table;
    found = ap pte_addr (same_dir (pdx a));
    view = freed_view;
  }
    where
      aligned : (e : ℕ) → pte_addr e % page_size ≡ 0
      aligned e = omega arith

  pub after_view :
      (x : ℕ)
      → x < word_mod
      → pte_of after pgdir x ≡ (if x / page_size == a / page_size then 0 else pte_of m pgdir x)
  after_view x h =
      pte_of-set_word m freed pgdir a (pte_addr (m.word pgdir (pdx a))) 0 Finds-freed x h
        (omega (arith, low, limit))

  -- An entry that is left is an old one, of another page.
  still :
      (x : ℕ)
      → x < top
      → present (pte_of after pgdir x) ≡ true
      → (pte_of after pgdir x ≡ pte_of m pgdir x)
        × (present (pte_of m pgdir x) ≡ true)
        × (x / page_size ≢ a / page_size)
  still x h e = elim (ℕ_discrete (x / page_size) (a / page_size)) [
    | yes z ↦ cc (gone x z (omega (arith, h, limit)), e)
    | no ne ↦
        let same : pte_of after pgdir x ≡ pte_of m pgdir x =
          after_view x (omega (arith, h, limit))
          ∙ rw (==_ne (x / page_size) (a / page_size) ne) refl in
        (same, ap present (sym same) ∙ e, ne)
  ]
    where
      gone :
          (x : ℕ)
          → x / page_size ≡ a / page_size
          → x < word_mod
          → present (pte_of after pgdir x) ≡ false
      gone x z h =
          let cleared : pte_of after pgdir x ≡ 0 =
            after_view x h ∙ rw (z, ==_refl (a / page_size)) refl in
          ap present cleared

  after_dir : (i : ℕ) → after.word pgdir i ≡ m.word pgdir i
  after_dir i =
      rw
        (==_ne pgdir (pte_addr (m.word pgdir (pdx a)))
          (λ z. (o.table.table_apart (pdx a) (omega arith) has_table).0 (sym z)))
        (same_dir i)

  pub Owns-after : Owns after pgdir top
  Owns-after = record {
    table = IsTable-set_word m freed pgdir a (pte_addr (m.word pgdir (pdx a))) 0 Finds-freed;
    not_null =
        λ x h e z. let (same, p, ne) = still x h e in o.not_null x h p (sym (ap pte_addr same) ∙ z);
    in_memory = λ x h e.
        let (same, p, ne) = still x h e in
        ap (λ d. is_page m.end_addr (add32 (pte_addr d) kern_base)) same ∙ o.in_memory x h p;
    not_dir =
        λ x h e z. let (same, p, ne) = still x h e in o.not_dir x h p (sym (ap pte_addr same) ∙ z);
    not_table = λ x i h k e f z.
        let (same, p, ne) = still x h e in
        o.not_table x i h k p (sym (ap present (after_dir i)) ∙ f)
          (sym (ap pte_addr same) ∙ z ∙ ap pte_addr (after_dir i));
    not_free = λ x h e.
        let (same, p, ne) = still x h e in
        subst (λ d. Apart (pte_addr d) after.free) (sym same)
          ((λ z. ne (o.once x a h low p mapped z)), o.not_free x h p);
    once = λ x y h k e f z.
        let (same, p, ne) = still x h e in
        let (as_well, q, nf) = still y k f in
        o.once x y h k p q (sym (ap pte_addr same) ∙ z ∙ ap pte_addr as_well);
  }
