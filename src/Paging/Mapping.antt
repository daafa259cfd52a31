-- ===== src/Paging/Mapping.antt =====
-- `mappages`: the entries of a range of pages.
use assignments.Base.{
  ℕ, ◌+◌, ◌-◌, ◌*◌, ◌/◌, ◌≤◌, ◌<◌, [], Bool, true, false, ◌==◌, ltb, leb, ◌&&◌, if◌then◌else◌,
  word_mod, add32, Res, ok, ◌≡◌, ◌⊎◌,
}
use assignments.Kalloc.{page_size}
use assignments.Paging.{Mem, entry_for, map_from}
use assignments.Paging.Walk.{pte_of, IsTable}
use assignments.Paging.Flags.{IsEntry}
use assignments.Paging.Entry.{before}

-- The entries after `r` pages from `a` on are mapped to the pages from `pa` on.
abbrev pub mapped : ℕ → ℕ → ℕ → ℕ → (ℕ → ℕ) → ℕ → ℕ
mapped a pa perm r before x =
    if leb a x && ltb x (a + r * page_size)
    then entry_for (pa + (x / page_size - a / page_size) * page_size) perm
    else before x

abbrev pub Mapped : Mem → ℕ → ℕ → ℕ → ℕ → ℕ → Mem → Type 0
Mapped m pgdir a pa perm r t =
    IsTable t pgdir
    × ((x : ℕ) → x < word_mod → pte_of t pgdir x ≡ mapped a pa perm r (pte_of m pgdir) x)

-- All pages are mapped; or only some, and there is no free page left for a table.
abbrev pub MapResult : Mem → ℕ → ℕ → ℕ → ℕ → ℕ → Res (Mem × Bool) → Type 0
MapResult m pgdir a pa perm pages r =
    ((t : Mem) × (r ≡ ok (t, true)) × Mapped m pgdir a pa perm pages t)
    ⊎ ((t : Mem) × (k : ℕ) × (k < pages)
        × (r ≡ ok (t, false))
        × Mapped m pgdir a pa perm k t
        × (t.free ≡ []))

-- What `map_from` does after a page.
abbrev next_pages : ℕ → ℕ → ℕ → ℕ → ℕ → ℕ → Mem → Res (Mem × Bool)
next_pages r pgdir a last pa perm t =
    if a == last
    then ok (t, true)
    else map_from r pgdir (add32 a page_size) last (add32 pa page_size) perm t

-- The addresses of the first `pages` pages from `a` on have entries of the pages from `pa` on, with
-- the flags and PTE_P; every other address has the entry that it had.
abbrev pub MapsPages : Mem → ℕ → ℕ → ℕ → ℕ → ℕ → Mem → Type 0
MapsPages m pgdir a pa perm pages t =
    IsTable t pgdir
    × ((x : ℕ)
        → x < word_mod
        → a ≤ x
        → x < a + pages * page_size
        → IsEntry (pte_of t pgdir x) (pa + (x / page_size - a / page_size) * page_size) perm)
    × ((x : ℕ)
        → x < word_mod
        → (x < a) ⊎ (a + pages * page_size ≤ x)
        → pte_of t pgdir x ≡ pte_of m pgdir x)
