-- ===== src/Bcache/Pinned.antt =====
-- `bget` of bio.c and the blocks that have a reference or are dirty.
use assignments.Base.{
  ℕ, ◌<◌, List, [], ◌∷◌, ◌≡◌, refl, ap, inl, inr, Bool, true, false, ◌==◌, ◌&&◌, ◌||◌, not,
  if◌then◌else◌, Option, none, some, ok, arith, Bool-cases, ok-injective,
}
use assignments.Buffers.{Block}
use assignments.Bcache.Unique.{count, CachedAs, find_cached-CachedAs}
use assignments.Bcache.{Buf, is_block, find_cached, is_spare, recycled, recycle, bget}

-- What the cache holds for a block: its words, whether they are valid, and whether they are dirty.
abbrev pub View : Type 0
View = Block × Bool × Bool

abbrev pub lookup : ℕ → ℕ → List Buf → Option View
lookup d n [] = none
lookup d n (b ∷ bs) = if is_block d n b then some (b.words, b.valid, b.dirty) else lookup d n bs

-- The block's buffer has a reference or is dirty.
abbrev pub pinned : ℕ → ℕ → List Buf → Bool
pinned d n [] = false
pinned d n (b ∷ bs) = if is_block d n b then (not (b.refcnt == 0) || b.dirty) else pinned d n bs

abbrev pub Same : ℕ → ℕ → List Buf → Option (List Buf × ℕ) → Type 0
Same d n bs none = Unit {0}
Same d n bs (some (cs, s)) = lookup d n cs ≡ lookup d n bs

find_cached-Same : (dev blockno d n : ℕ) (bs : List Buf) → Same d n bs (find_cached dev blockno bs)
unfolding find_cached
find_cached-Same dev blockno d n [] = tt
find_cached-Same dev blockno d n (b ∷ bs) = elim (Bool-cases (is_block dev blockno b)) [
  | inl e ↦ rw e refl
  | inr e ↦ rw e (longer (find_cached dev blockno bs) (find_cached-Same dev blockno d n bs))
]
  where
    longer :
        (o : Option (List Buf × ℕ))
        → Same d n bs o
        → Same d n (b ∷ bs) (elim o [ none ↦ none | some (cs, s) ↦ some (b ∷ cs, s) ])
    longer none h = tt
    longer (some (cs, s)) h =
        ap (λ o. if is_block d n b then some (b.words, b.valid, b.dirty) else o) h

pinned-count : (d n : ℕ) (bs : List Buf) → pinned d n bs ≡ true → 0 < count d n bs
pinned-count d n [] h = cc
pinned-count d n (b ∷ bs) h = elim (Bool-cases (is_block d n b)) [
  | inl e ↦ rw e (omega arith)
  | inr e ↦ rw e (omega (arith, pinned-count d n bs (rw e at h)))
]

not_spare : (b : Buf) → (not (b.refcnt == 0) || b.dirty) ≡ true → ¬ (is_spare b ≡ true)
not_spare b h spare = ground (arith, h, spare)

recycle-Same :
    (dev blockno d n : ℕ) (bs : List Buf)
    → (dev == d && blockno == n) ≡ false
    → pinned d n bs ≡ true
    → Same d n bs (recycle dev blockno bs)
unfolding recycle
recycle-Same dev blockno d n [] other h = tt
recycle-Same dev blockno d n (b ∷ bs) other h = elim (Bool-cases (is_block d n b)) [
  | inl e ↦ held e (recycle dev blockno bs)
  | inr e ↦ passed e (recycle dev blockno bs) (recycle-Same dev blockno d n bs other (rw e at h))
]
  where
    next : Option (List Buf × ℕ) → Option (List Buf × ℕ)
    next o = elim o [
      | some (cs, s) ↦ some (b ∷ cs, s)
      | none ↦ if is_spare b then some (recycled dev blockno b ∷ bs, b.slot) else none
    ]

    held : is_block d n b ≡ true → (o : Option (List Buf × ℕ)) → Same d n (b ∷ bs) (next o)
    held e (some (cs, s)) = rw e refl
    held e none = elim (Bool-cases (is_spare b)) [
      | inl spare ↦ absurd (not_spare b (rw e at h) spare)
      | inr busy ↦ rw busy tt
    ]

    passed :
        is_block d n b ≡ false
        → (o : Option (List Buf × ℕ)) → Same d n bs o
        → Same d n (b ∷ bs) (next o)
    passed e (some (cs, s)) same = rw e same
    passed e none same = elim (Bool-cases (is_spare b)) [
      | inl spare ↦ rw (spare, other, e) refl
      | inr busy ↦ rw busy tt
    ]

-- Whatever block is asked for, `bget` leaves a block whose buffer has a reference or is dirty in
-- the cache, with its words and flags.
pub bget-pinned :
    (dev blockno d n : ℕ) (bs cs : List Buf) (s : ℕ)
    → pinned d n bs ≡ true
    → bget dev blockno bs ≡ ok (cs, s)
    → lookup d n cs ≡ lookup d n bs
unfolding bget
bget-pinned dev blockno d n bs cs s pin e =
    cached (find_cached dev blockno bs) refl (find_cached-Same dev blockno d n bs)
      (find_cached-CachedAs dev blockno bs)
  where
    different : count dev blockno bs ≡ 0 → (dev == d && blockno == n) ≡ false
    different none_yet = elim (Bool-cases (dev == d && blockno == n)) [
      | inl same ↦
          let (dev_d, blockno_n) : (dev ≡ d) × (blockno ≡ n) = (ground arith, ground arith) in
          absurd (omega (arith, pinned-count d n bs pin, rw (dev_d, blockno_n) at none_yet))
      | inr other ↦ other
    ]

    fresh :
        find_cached dev blockno bs ≡ none
        → (o : Option (List Buf × ℕ)) → recycle dev blockno bs ≡ o
        → Same d n bs o
        → lookup d n cs ≡ lookup d n bs
    fresh f none r same = cc (rw (bget, f, r) at e)
    fresh f (some (ds, t)) r same =
        rw (ap (λ (q : List Buf × ℕ). q.0) (ok-injective (rw (bget, f, r) at e))) at same

    cached :
        (o : Option (List Buf × ℕ))
        → find_cached dev blockno bs ≡ o
        → Same d n bs o
        → CachedAs dev blockno bs o
        → lookup d n cs ≡ lookup d n bs
    cached none f same none_yet =
        fresh f (recycle dev blockno bs) refl
          (recycle-Same dev blockno d n bs (different none_yet) pin)
    cached (some (ds, t)) f same counts =
        rw (ap (λ (q : List Buf × ℕ). q.0) (ok-injective (rw (bget, f) at e))) at same
