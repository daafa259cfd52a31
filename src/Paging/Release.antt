-- ===== src/Paging/Release.antt =====
-- `deallocuvm` of vm.c: the entries that it clears and the pages that it frees.
use assignments.Base.{List, [], ◌∷◌, ◌⊎◌, ℕ, ◌≤◌, ◌<◌, true, word_mod, Res, ok, ◌≡◌}
use assignments.Paging.{Mem, pte_addr, present}
use assignments.Paging.Walk.{pte_of}
use assignments.Paging.Owned.{Owns, released}

abbrev pub IsIn : ℕ → List ℕ → Type 0
IsIn p [] = ⊥
IsIn p (q ∷ qs) = (p ≡ q) ⊎ IsIn p qs

-- The pages that are mapped from `a` up to `b` are free in `t`, and so is what was free.
abbrev pub Freed : ℕ → ℕ → Mem → ℕ → Mem → Type 0
Freed a b m pgdir t =
    ((x : ℕ)
      → x < word_mod
      → a ≤ x
      → x < b
      → present (pte_of m pgdir x) ≡ true
      → IsIn (pte_addr (pte_of m pgdir x)) t.free)
    × ((p : ℕ) → IsIn p m.free → IsIn p t.free)

-- The pages from `a` up to `b` are released.
abbrev pub Released : ℕ → ℕ → Mem → ℕ → ℕ → Res Mem → Type 0
Released a b m pgdir top r =
    (t : Mem) × (r ≡ ok t)
    × Owns t pgdir top
    × ((x : ℕ) → x < word_mod → pte_of t pgdir x ≡ released a b (pte_of m pgdir) x)
    × Freed a b m pgdir t
