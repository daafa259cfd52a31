-- ===== src/FileTable/Counts.antt =====
-- The reference counts of file.c against the references that there are.
use assignments.Base.{
  ℕ, zero, suc, ◌+◌, ◌≤◌, ◌<◌, List, [], ◌∷◌, ◌≡◌, refl, sym, ◌∙◌, ◌≢◌, ◌⊎◌, inl, inr, ◌==◌,
  if◌then◌else◌, update, add32, Option, none, some, ok, arith, ℕ_discrete, ==_refl, ==_ne, length,
}
use assignments.FileTable.{nfile, File, find_unused, filealloc, filedup}

-- How many of the references `hs` are to file `i`.
abbrev pub refs_to : ℕ → List ℕ → ℕ
refs_to i [] = 0
refs_to i (h ∷ hs) = (if h == i then 1 else 0) + refs_to i hs

refs_to-le : (i : ℕ) (hs : List ℕ) → refs_to i hs ≤ length hs
refs_to-le i [] = omega arith
refs_to-le i (h ∷ hs) = ground (arith, refs_to-le i hs)

-- Every count in the table is right, and the references are too few to overflow an `int`.
pub record Counted (files : ℕ → File) (hs : List ℕ) : Type 0 where
  pub exact : (i : ℕ) → i < nfile → (files i).ref ≡ refs_to i hs
  pub few : length hs < 0x7FFFFFFF

-- Taking one more reference, or one less, to file `i`.
changed-Counted :
    (files : ℕ → File) (hs ks : List ℕ) (i : ℕ) (f : File)
    → Counted files hs
    → f.ref ≡ refs_to i ks
    → ((j : ℕ) → j ≢ i → refs_to j ks ≡ refs_to j hs)
    → length ks < 0x7FFFFFFF
    → Counted (update files i f) ks
changed-Counted files hs ks i f v at_i others few = record {
  exact = λ j h. elim (ℕ_discrete j i) [
    | yes e ↦ rw (e, ==_refl i) at_i
    | no ne ↦ rw (==_ne j i ne) (v.exact j h ∙ sym (others j ne))
  ];
  few = few;
}

-- What the scan for an unused file returns.
abbrev pub UnusedBelow : (ℕ → File) → ℕ → Option ℕ → Type 0
UnusedBelow files top none = Unit {0}
UnusedBelow files top (some j) = (j < top) × ((files j).ref ≡ 0)

find_unused-UnusedBelow :
    (r i : ℕ) (files : ℕ → File) → UnusedBelow files (i + r) (find_unused r i files)
unfolding find_unused
find_unused-UnusedBelow zero i files = tt
find_unused-UnusedBelow (suc r) i files = elim (ℕ_discrete (files i).ref 0) [
  | yes e ↦ rw e (omega arith, e)
  | no ne ↦
      rw (==_ne (files i).ref 0 ne)
        (wider (find_unused r (i + 1) files) (find_unused-UnusedBelow r (i + 1) files))
]
  where
    wider : (o : Option ℕ) → UnusedBelow files (i + 1 + r) o → UnusedBelow files (i + suc r) o
    wider none h = tt
    wider (some j) h = (omega (arith, h.0), h.1)

-- `filealloc` hands out a file to which there is no reference, or fails and changes nothing.
pub filealloc-Counted :
    (files : ℕ → File) (hs : List ℕ)
    → Counted files hs
    → length hs + 1 < 0x7FFFFFFF
    → (filealloc files ≡ (files, none))
      ⊎ ((i : ℕ) × (i < nfile)
          × (refs_to i hs ≡ 0)
          × ((filealloc files).1 ≡ some i)
          × Counted (filealloc files).0 (i ∷ hs))
unfolding filealloc
filealloc-Counted files hs v few =
    result (find_unused nfile 0 files) refl (find_unused-UnusedBelow nfile 0 files)
  where
    result :
        (o : Option ℕ)
        → find_unused nfile 0 files ≡ o
        → UnusedBelow files (0 + nfile) o
        → (filealloc files ≡ (files, none))
          ⊎ ((i : ℕ) × (i < nfile)
              × (refs_to i hs ≡ 0)
              × ((filealloc files).1 ≡ some i)
              × Counted (filealloc files).0 (i ∷ hs))
    result none e h = inl (rw (filealloc, e) refl)
    result (some i) e (low, free) =
        let none_held : refs_to i hs ≡ 0 = sym (v.exact i low) ∙ free in
        inr (
          i,
          omega (arith, low),
          none_held,
          rw (filealloc, e) refl,
          rw (filealloc, e)
              (changed-Counted files hs (i ∷ hs) i (record (files i) { ref = 1 }) v
                (rw (==_refl i, none_held) refl) (λ j ne. ground (arith, ne)) (omega (arith, few))),
        )

-- `filedup` of a file to which there is a reference adds one and does not panic.
pub filedup-Counted :
    (files : ℕ → File) (hs : List ℕ) (i : ℕ)
    → i < nfile
    → 0 < refs_to i hs
    → length hs + 1 < 0x7FFFFFFF
    → Counted files hs
    → (gs : ℕ → File) × (filedup i files ≡ ok gs) × Counted gs (i ∷ hs)
unfolding filedup
filedup-Counted files hs i low held few v = (
  update files i (record (files i) { ref = add32 (files i).ref 1 }),
  ground (arith, v.exact i low, refs_to-le i hs),
  changed-Counted files hs (i ∷ hs) i (record (files i) { ref = add32 (files i).ref 1 }) v
      (rw (v.exact i low, ==_refl i) (omega (arith, refs_to-le i hs))) (λ j ne. ground (arith, ne))
      (omega (arith, few)),
)
