-- ===== src/Paging.antt =====
-- xv6-public/vm.c: page tables. A page of memory is known by its physical address, and is its 1024
-- words; `P2V` and `V2P` cancel. `kalloc` and `kfree` work on the list of free pages (module Kalloc
-- has that list within the pages). An entry of a table has its flags below the page's address.
pub mod Walk
pub mod Entry
pub mod Flags
pub mod Mapping
pub mod Owned
pub mod Release
mod Tests
use assignments.Base.{
  ℕ, zero, suc, ◌+◌, ◌-◌, ◌*◌, ◌/◌, ◌%◌, List, [], ◌∷◌, ◌++◌, Bool, true, false, ◌==◌, ltb, leb,
  ◌&&◌, ◌||◌, not, if◌then◌else◌, update, add32, sub32, word_mod, Option, none, some, Res, ok,
  panic, check, ◌>>=◌, length, take, drop, min,
}
use assignments.Kalloc.{page_size, kern_base, phys_stop, is_page}

abbrev pub dir_size : ℕ
dir_size = 4194304

-- `PDX`, `PTX`, `PTE_ADDR`, `PTE_FLAGS`, `PGROUNDDOWN`, `PGROUNDUP`.
abbrev pub pdx : ℕ → ℕ
pdx va = va / dir_size % 1024

abbrev pub ptx : ℕ → ℕ
ptx va = va / page_size % 1024

abbrev pub pte_addr : ℕ → ℕ
pte_addr e = e / page_size * page_size

abbrev pub pte_flags : ℕ → ℕ
pte_flags e = e % page_size

abbrev pub round_down : ℕ → ℕ
round_down a = a / page_size * page_size

abbrev pub round_up : ℕ → ℕ
round_up a = add32 a 4095 / page_size * page_size

-- `PTE_P` and `PTE_U`.
abbrev pub present : ℕ → Bool
present e = e % 2 == 1

abbrev pub user : ℕ → Bool
user e = e / 4 % 2 == 1

-- `end_addr` is the linker's `end`, which nothing changes.
pub record Mem : Type 0 where
  pub end_addr : ℕ
  pub free : List ℕ
  pub word : ℕ → ℕ → ℕ

abbrev pub set_word : Mem → ℕ → ℕ → ℕ → Mem
set_word m page k x = record m { word = update m.word page (update (m.word page) k x) }

abbrev pub first_free : List ℕ → Mem → Mem × Option ℕ
first_free [] m = (m, none)
first_free (p ∷ ps) m = (record m { free = ps }, some p)

abbrev pub kalloc_page : Mem → Mem × Option ℕ
kalloc_page m = first_free m.free m

abbrev pub freed_page : Mem → ℕ → Mem
freed_page m p = record m { free = p ∷ m.free; word = update m.word p (λ k. 0x01010101) }

-- `kfree(P2V(p))`.
abbrev pub kfree_page : Mem → ℕ → Res Mem
kfree_page m p = check (is_page m.end_addr (add32 p kern_base)) "kfree" (ok (freed_page m p))

abbrev pub clear_page : Mem → ℕ → Mem
clear_page m p = record m { word = update m.word p (λ k. 0) }

-- The part of `walkpgdir` that has the result of `kalloc`.
abbrev pub make_table : ℕ → ℕ → Mem × Option ℕ → Mem × Option (ℕ × ℕ)
make_table pgdir va (n, none) = (n, none)
make_table pgdir va (n, some pgtab) =
    (set_word (clear_page n pgtab) pgdir (pdx va) (pgtab + 7), some (pgtab, ptx va))

-- `walkpgdir`: the memory, and the table and the place in it of the entry.
pub walkpgdir : ℕ → ℕ → Bool → Mem → Mem × Option (ℕ × ℕ)
walkpgdir pgdir va alloc m =
    let pde = m.word pgdir (pdx va) in
    if present pde
    then (m, some (pte_addr pde, ptx va))
    else if not alloc
    then (m, none)
    else make_table pgdir va (kalloc_page m)

-- `a | b`, on the lowest bits.
pub bit_or : ℕ → ℕ → ℕ → ℕ
bit_or zero a b = 0
bit_or (suc bits) a b =
    (if a % 2 == 1 || b % 2 == 1 then 1 else 0) + 2 * bit_or bits (a / 2) (b / 2)

-- `pa | perm | PTE_P`.
abbrev pub entry_for : ℕ → ℕ → ℕ
entry_for pa perm = bit_or 32 (bit_or 32 pa perm) 1

-- A round of `mappages` with the result of `walkpgdir`, and the rounds after it; false is -1.
abbrev pub map_page : Mem × Option (ℕ × ℕ) → ℕ → (Mem → Res (Mem × Bool)) → Res (Mem × Bool)
map_page (n, none) e next = ok (n, false)
map_page (n, some (pgtab, k)) e next =
    check (not (present (n.word pgtab k))) "remap" (next (set_word n pgtab k e))

-- The loop of `mappages` from `a` on. Its rounds are the pages up to `last`.
pub map_from : ℕ → ℕ → ℕ → ℕ → ℕ → ℕ → Mem → Res (Mem × Bool)
map_from zero pgdir a last pa perm m = ok (m, true)
map_from (suc rounds) pgdir a last pa perm m =
    map_page (walkpgdir pgdir a true m) (entry_for pa perm) (λ t.
      let rest = map_from rounds pgdir (add32 a page_size) last (add32 pa page_size) perm t in
      if a == last then ok (t, true) else rest)

pub mappages : ℕ → ℕ → ℕ → ℕ → ℕ → Mem → Res (Mem × Bool)
mappages pgdir va size pa perm m =
    let a = round_down va in
    let last = round_down (sub32 (add32 va size) 1) in
    map_from (sub32 last a / page_size + 1) pgdir a last pa perm m

-- The loop of `deallocuvm`, which skips what has no table. Each round goes on by a page or more.
pub dealloc_from : ℕ → ℕ → ℕ → ℕ → Mem → Res Mem
dealloc_from zero pgdir a oldsz m = ok m
dealloc_from (suc fuel) pgdir a oldsz m =
    let round : Res Mem = elim ((walkpgdir pgdir a false m).1) [
      | none ↦ dealloc_from fuel pgdir ((pdx a + 1) * dir_size % word_mod) oldsz m
      | some (pgtab, k) ↦
          let e = m.word pgtab k in
          let next = kfree_page m (pte_addr e) >>= λ n.
          dealloc_from fuel pgdir (add32 a page_size) oldsz (set_word n pgtab k 0) in
          let rest = dealloc_from fuel pgdir (add32 a page_size) oldsz m in
          if present e then check (not (pte_addr e == 0)) "kfree" next else rest
    ] in
    if ltb a oldsz then round else ok m

pub deallocuvm : ℕ → ℕ → ℕ → Mem → Res (Mem × ℕ)
deallocuvm pgdir oldsz newsz m =
    if leb oldsz newsz
    then ok (m, oldsz)
    else (dealloc_from (oldsz / page_size + 1) pgdir (round_up newsz) oldsz m >>= λ n.
        ok (n, newsz))

-- The loop of `allocuvm`; 0 is the error.
pub alloc_from : ℕ → ℕ → ℕ → ℕ → ℕ → Mem → Res (Mem × ℕ)
alloc_from zero pgdir a oldsz newsz m = ok (m, newsz)
alloc_from (suc fuel) pgdir a oldsz newsz m =
    let fail : Mem → Res (Mem × ℕ) = λ n. deallocuvm pgdir newsz oldsz n >>= λ (t, _). ok (t, 0) in
    let (n, r) = kalloc_page m in
    let round : Res (Mem × ℕ) = elim r [
      | none ↦ fail n
      | some p ↦ mappages pgdir a page_size p 6 (clear_page n p) >>= λ (t, done).
          let rest = alloc_from fuel pgdir (add32 a page_size) oldsz newsz t in
          if done
          then rest
          else (deallocuvm pgdir newsz oldsz t >>= λ (u, _). kfree_page u p >>= λ v. ok (v, 0))
    ] in
    if ltb a newsz then round else ok (m, newsz)

pub allocuvm : ℕ → ℕ → ℕ → Mem → Res (Mem × ℕ)
allocuvm pgdir oldsz newsz m =
    if leb kern_base newsz
    then ok (m, 0)
    else if ltb newsz oldsz
    then ok (m, oldsz)
    else alloc_from (newsz / page_size + 1) pgdir (round_up oldsz) oldsz newsz m

-- The loop of `freevm` over the tables.
pub free_tables : ℕ → ℕ → ℕ → Mem → Res Mem
free_tables zero i pgdir m = ok m
free_tables (suc rounds) i pgdir m =
    let e = m.word pgdir i in
    (if present e then kfree_page m (pte_addr e) else ok m) >>= free_tables rounds (i + 1) pgdir

pub freevm : ℕ → Mem → Res Mem
freevm pgdir m = check (not (pgdir == 0)) "freevm: no pgdir" (
    deallocuvm pgdir kern_base 0 m >>= λ (n, _).
    free_tables 1024 0 pgdir n >>= λ t. kfree_page t pgdir)

pub clearpteu : ℕ → ℕ → Mem → Res Mem
clearpteu pgdir uva m = elim ((walkpgdir pgdir uva false m).1) [
  | none ↦ panic "clearpteu"
  | some (pgtab, k) ↦
      let e = m.word pgtab k in ok (set_word m pgtab k (if user e then e - 4 else e))
]

-- The entry that `uva2ka` reads. Where `walkpgdir` gives no entry, the code reads through a null
-- pointer: the word at address 0 of the kernel's memory is an argument.
pub uva2ka : ℕ → ℕ → ℕ → Mem → Option ℕ
uva2ka null_word pgdir uva m =
    let e : ℕ = elim ((walkpgdir pgdir uva false m).1) [
      | none ↦ null_word
      | some (pgtab, k) ↦ m.word pgtab k
    ] in
    if not (present e) then none else if not (user e) then none else some (pte_addr e)

-- `kmap`: address, physical range and permissions. `data_start` is the linker's `data`.
abbrev pub kmap : ℕ → List (ℕ × ℕ × ℕ × ℕ)
kmap data_start =
    (kern_base, 0, 0x100000, 2)
    ∷ (kern_base + 0x100000, 0x100000, sub32 data_start kern_base, 0)
    ∷ (data_start, sub32 data_start kern_base, phys_stop, 2)
    ∷ (0xFE000000, 0xFE000000, 0, 2)
    ∷ []

-- The loop of `setupkvm`.
pub setup_from : List (ℕ × ℕ × ℕ × ℕ) → ℕ → Mem → Res (Mem × Option ℕ)
setup_from [] pgdir m = ok (m, some pgdir)
setup_from ((virt, start, end, perm) ∷ ks) pgdir m =
    mappages pgdir virt (sub32 end start) start perm m >>= λ (n, done).
    let rest = setup_from ks pgdir n in
    if done then rest else (freevm pgdir n >>= λ t. ok (t, none))

-- The part of `setupkvm` that has the result of `kalloc`.
abbrev pub setup_dir : ℕ → Mem × Option ℕ → Res (Mem × Option ℕ)
setup_dir data_start (m, none) = ok (m, none)
setup_dir data_start (m, some pgdir) =
    check (leb (kern_base + phys_stop) 0xFE000000) "PHYSTOP too high"
      (setup_from (kmap data_start) pgdir (clear_page m pgdir))

-- `setupkvm`; `none` is 0.
pub setupkvm : ℕ → Mem → Res (Mem × Option ℕ)
setupkvm data_start m = setup_dir data_start (kalloc_page m)

-- A page of `copyuvm` with the result of `kalloc`, and the pages after it.
abbrev pub copy_page :
    ℕ → ℕ → ℕ → Mem × Option ℕ → (Mem → Res (Mem × Option ℕ)) → Res (Mem × Option ℕ)
copy_page d i e (m, none) next = freevm d m >>= λ t. ok (t, none)
copy_page d i e (m, some p) next =
    mappages d i page_size p (pte_flags e)
      (record m { word = update m.word p (m.word (pte_addr e)) })
    >>= λ (n, done).
        if done then next n else (kfree_page n p >>= λ t. freevm d t >>= λ u. ok (u, none))

-- The loop of `copyuvm` from page `i` on.
pub copy_from : ℕ → ℕ → ℕ → ℕ → ℕ → Mem → Res (Mem × Option ℕ)
copy_from zero pgdir d i sz m = ok (m, some d)
copy_from (suc fuel) pgdir d i sz m =
    let copy : ℕ → Res (Mem × Option ℕ) = λ e.
      check (present e) "copyuvm: page not present"
        (copy_page d i e (kalloc_page m) (copy_from fuel pgdir d (i + page_size) sz)) in
    let round : Res (Mem × Option ℕ) = elim ((walkpgdir pgdir i false m).1) [
      | none ↦ panic "copyuvm: pte should exist"
      | some (pgtab, k) ↦ copy (m.word pgtab k)
    ] in
    if ltb i sz then round else ok (m, some d)

-- `copyuvm` of a process of `sz` bytes, below KERNBASE; `none` is 0.
pub copyuvm : ℕ → ℕ → ℕ → Mem → Res (Mem × Option ℕ)
copyuvm data_start pgdir sz m = setupkvm data_start m >>= λ (n, r). elim r [
  | none ↦ ok (n, none)
  | some d ↦ copy_from (sz / page_size + 1) pgdir d 0 sz n
]
