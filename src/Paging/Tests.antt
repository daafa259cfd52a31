-- ===== src/Paging/Tests.antt =====
-- A page directory at 0x401000, and two free pages.
use assignments.Base.{
  ℕ, List, [], ◌∷◌, Bool, true, false, if◌then◌else◌, ◌==◌, ◌&&◌, ◌≡◌, refl, ◌⊎◌, Option, none,
  some, Res, ok, panic, arith,
}
use assignments.Paging.{
  bit_or, Mem, present, walkpgdir, map_from, mappages, dealloc_from, deallocuvm, alloc_from,
  allocuvm, freevm, clearpteu, uva2ka, free_tables, copy_from, setupkvm, copyuvm,
}
use assignments.Paging.Walk.{pte_of, IsTable, Finds, walkpgdir_lem}

abbrev blank : Mem
blank = record { end_addr = 0x80108000; free = 0x402000 ∷ 0x403000 ∷ []; word = λ p k. 0 }

blank-IsTable : IsTable blank 0x401000
blank-IsTable = record {
  free_pages = (refl, (λ e. absurd (omega (arith, e)), tt), (refl, tt, tt));
  dir_apart = (λ e. absurd (omega (arith, e)), (λ e. absurd (omega (arith, e)), tt));
  table_apart = λ i h e. absurd (false_ne e);
  distinct = λ i j h k e f same. absurd (false_ne e);
}
  where
    false_ne : false ≡ true → ⊥
    false_ne e = cc e

walkpgdir_example :
    ((n : Mem) × (pgtab : ℕ) × (walkpgdir 0x401000 0x5000 true blank ≡ (n, some (pgtab, 5)))
      × Finds blank 0x401000 0x5000 n pgtab)
    ⊎ ((blank.free ≡ []) × (walkpgdir 0x401000 0x5000 true blank ≡ (blank, none)))
walkpgdir_example = walkpgdir_lem blank 0x401000 0x5000 blank-IsTable

-- Growing a process by a page and shrinking it again.
abbrev big_enough : Mem → Bool
big_enough m = present (pte_of m 0x401000 0x4000)

abbrev after_grow : Res (Mem × ℕ) → Bool
after_grow (ok (m, sz)) = big_enough m
after_grow (panic message) = false

grown : after_grow (allocuvm 0x401000 0x4000 0x4800 blank) ≡ true
unfolding allocuvm alloc_from mappages map_from bit_or walkpgdir
grown = refl

abbrev left_free : Res (Mem × ℕ) → List ℕ
left_free (ok (m, sz)) = m.free
left_free (panic message) = []

abbrev shrunk : Res (Mem × ℕ) → Res (Mem × ℕ)
shrunk (ok (m, sz)) = deallocuvm 0x401000 0x4800 0x4000 m
shrunk (panic message) = panic message

returned : left_free (shrunk (allocuvm 0x401000 0x4000 0x4800 blank)) ≡ 0x402000 ∷ []
unfolding allocuvm alloc_from mappages map_from bit_or walkpgdir deallocuvm dealloc_from
returned = refl

-- Two pages do not do for a table and two pages: everything but the table is given back.
not_grown : left_free (allocuvm 0x401000 0x4000 0x5800 blank) ≡ 0x402000 ∷ []
unfolding allocuvm alloc_from mappages map_from bit_or walkpgdir deallocuvm dealloc_from
not_grown = refl

abbrev translated : Res (Mem × ℕ) → Option ℕ
translated (ok (m, sz)) = uva2ka 0 0x401000 0x4000 m
translated (panic message) = none

user_page : translated (allocuvm 0x401000 0x4000 0x4800 blank) ≡ some 0x402000
unfolding allocuvm alloc_from mappages map_from bit_or walkpgdir uva2ka
user_page = refl

-- All pages but the directory's own come back, and then the directory.
abbrev all_freed : Res (Mem × ℕ) → List ℕ
all_freed (ok (m, sz)) = elim (freevm 0x401000 m) [ ok n ↦ n.free | panic message ↦ [] ]
all_freed (panic message) = []

freed : all_freed (allocuvm 0x401000 0x4000 0x4800 blank) ≡ 0x401000 ∷ 0x403000 ∷ 0x402000 ∷ []
unfolding allocuvm alloc_from mappages map_from bit_or walkpgdir freevm free_tables deallocuvm
    dealloc_from
freed = refl

abbrev guarded : Res (Mem × ℕ) → Option ℕ
guarded (ok (m, sz)) = elim (clearpteu 0x401000 0x4000 m) [
  | ok n ↦ uva2ka 0 0x401000 0x4000 n
  | panic message ↦ some 0
]
guarded (panic message) = some 0

no_user_page : guarded (allocuvm 0x401000 0x4000 0x4800 blank) ≡ none
unfolding allocuvm alloc_from mappages map_from bit_or walkpgdir uva2ka clearpteu
no_user_page = refl

-- The copy of a process with one page, into the empty directory at 0x4000.
abbrev parent : Mem
parent = record {
  end_addr = 0x80108000;
  free = 0x406000 ∷ 0x407000 ∷ [];
  word = λ p k.
      if p == 0x401000 && k == 0
      then 0x402007
      else if p == 0x402000 && k == 0
      then 0x403005
      else if p == 0x403000
      then k
      else 0;
}

abbrev copied : Res (Mem × Option ℕ) → ℕ × ℕ
copied (ok (m, d)) = (pte_of m 0x4000 0, m.word 0x406000 9)
copied (panic message) = (0, 0)

child : copied (copy_from 2 0x401000 0x4000 0 100 parent) ≡ (0x406005, 9)
unfolding copy_from walkpgdir mappages map_from bit_or
child = refl

abbrev missing : Res (Mem × Option ℕ) → Bool
missing (ok r) = false
missing (panic message) = true

no_entry : missing (copy_from 2 0x401000 0x4000 0x400000 0x400100 parent) ≡ true
unfolding copy_from walkpgdir
no_entry = refl

abbrev no_pages : Mem
no_pages = record { end_addr = 0x80108000; free = []; word = λ p k. 0 }

no_directory : copyuvm 0x80108000 0x401000 100 no_pages ≡ ok (no_pages, none)
unfolding copyuvm setupkvm
no_directory = refl
