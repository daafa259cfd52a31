-- ===== src/Bcache/Unique.antt =====
-- `bget` and `brelse` of bio.c: how many buffers hold a block.
use assignments.Base.{
  ℕ, ◌+◌, ◌≤◌, List, [], ◌∷◌, ◌≡◌, refl, sym, ◌∙◌, ap, ◌≢◌, inl, inr, false, ◌==◌, ◌&&◌, sub32,
  if◌then◌else◌, Option, none, some, ok, arith, Bool-cases, ok-injective, subst,
}
use assignments.Bcache.{
  Buf, is_block, find_cached, is_spare, recycled, recycle, bget, at_slot, take_out, released,
  brelse,
}

-- How many buffers hold the block.
abbrev pub count : ℕ → ℕ → List Buf → ℕ
count dev blockno [] = 0
count dev blockno (b ∷ bs) = (if is_block dev blockno b then 1 else 0) + count dev blockno bs

-- What a scan for a block finds.
abbrev pub CachedAs : ℕ → ℕ → List Buf → Option (List Buf × ℕ) → Type 0
CachedAs dev blockno bs none = count dev blockno bs ≡ 0
CachedAs dev blockno bs (some (cs, s)) = (d n : ℕ) → count d n cs ≡ count d n bs

pub find_cached-CachedAs :
    (dev blockno : ℕ) (bs : List Buf) → CachedAs dev blockno bs (find_cached dev blockno bs)
unfolding find_cached
find_cached-CachedAs dev blockno [] = refl
find_cached-CachedAs dev blockno (b ∷ bs) = elim (Bool-cases (is_block dev blockno b)) [
  | inl e ↦ rw e (λ d n. refl)
  | inr e ↦ rw e (longer e (find_cached dev blockno bs) (find_cached-CachedAs dev blockno bs))
]
  where
    longer :
        is_block dev blockno b ≡ false
        → (o : Option (List Buf × ℕ)) → CachedAs dev blockno bs o
        → CachedAs dev blockno (b ∷ bs) (elim o [ none ↦ none | some (cs, s) ↦ some (b ∷ cs, s) ])
    longer e none h = rw e (omega (arith, h))
    longer e (some (cs, s)) h = λ d n. ap (λ k. (if is_block d n b then 1 else 0) + k) (h d n)

abbrev pub RecycledAs : ℕ → ℕ → List Buf → Option (List Buf × ℕ) → Type 0
RecycledAs dev blockno bs none = Unit {0}
RecycledAs dev blockno bs (some (cs, s)) =
    (d n : ℕ) → count d n cs ≤ count d n bs + (if d == dev && n == blockno then 1 else 0)

pub recycle-RecycledAs :
    (dev blockno : ℕ) (bs : List Buf) → RecycledAs dev blockno bs (recycle dev blockno bs)
unfolding recycle
recycle-RecycledAs dev blockno [] = tt
recycle-RecycledAs dev blockno (b ∷ bs) =
    longer (recycle dev blockno bs) (recycle-RecycledAs dev blockno bs)
  where
    longer :
        (o : Option (List Buf × ℕ))
        → RecycledAs dev blockno bs o
        → RecycledAs dev blockno (b ∷ bs) (elim o [
          | some (cs, s) ↦ some (b ∷ cs, s)
          | none ↦ if is_spare b then some (recycled dev blockno b ∷ bs, b.slot) else none
        ])
    longer none h = elim (Bool-cases (is_spare b)) [
      | inl e ↦ rw e (λ d n. ground arith)
      | inr e ↦ rw e tt
    ]
    longer (some (cs, s)) h = λ d n. omega (arith, h d n)

-- No block of a real device, a number other than 0, is in two buffers.
abbrev pub Once : List Buf → Type 0
Once bs = (d n : ℕ) → d ≢ 0 → count d n bs ≤ 1

-- `bget` keeps every block in at most one buffer.
pub bget-Once :
    (dev blockno : ℕ) (bs cs : List Buf) (s : ℕ)
    → Once bs
    → bget dev blockno bs ≡ ok (cs, s)
    → Once cs
unfolding bget
bget-Once dev blockno bs cs s once e =
    cached (find_cached dev blockno bs) refl (find_cached-CachedAs dev blockno bs)
  where
    fresh :
        find_cached dev blockno bs ≡ none
        → count dev blockno bs ≡ 0
        → (o : Option (List Buf × ℕ)) → recycle dev blockno bs ≡ o
        → RecycledAs dev blockno bs o
        → Once cs
    fresh f none_yet none r h = cc (rw (bget, f, r) at e)
    fresh f none_yet (some (ds, t)) r h =
        subst Once (ap (λ (q : List Buf × ℕ). q.0) (ok-injective (rw (bget, f, r) at e)))
          (λ d n real. ground (arith, h d n, once d n real, none_yet))

    cached :
        (o : Option (List Buf × ℕ))
        → find_cached dev blockno bs ≡ o
        → CachedAs dev blockno bs o
        → Once cs
    cached none f h = fresh f h (recycle dev blockno bs) refl (recycle-RecycledAs dev blockno bs)
    cached (some (ds, t)) f h =
        subst Once (ap (λ (q : List Buf × ℕ). q.0) (ok-injective (rw (bget, f) at e)))
          (λ d n real. omega (arith, h d n, once d n real))

abbrev pub TakenAs : List Buf → Option (Buf × List Buf) → Type 0
TakenAs bs none = Unit {0}
TakenAs bs (some (b, cs)) =
    (d n : ℕ) → count d n bs ≡ (if is_block d n b then 1 else 0) + count d n cs

take_out-TakenAs : (s : ℕ) (bs : List Buf) → TakenAs bs (take_out s bs)
unfolding take_out
take_out-TakenAs s [] = tt
take_out-TakenAs s (b ∷ bs) = elim (Bool-cases (b.slot == s)) [
  | inl e ↦ rw e (λ d n. refl)
  | inr e ↦ rw e (longer (take_out s bs) (take_out-TakenAs s bs))
]
  where
    longer :
        (o : Option (Buf × List Buf))
        → TakenAs bs o
        → TakenAs (b ∷ bs) (elim o [ none ↦ none | some (c, cs) ↦ some (c, b ∷ cs) ])
    longer none h = tt
    longer (some (c, cs)) h = λ d n. omega (arith, h d n)

at_slot-count : (s d n : ℕ) (bs : List Buf) → count d n (at_slot s released bs) ≡ count d n bs
unfolding at_slot
at_slot-count s d n [] = refl
at_slot-count s d n (b ∷ bs) = elim (Bool-cases (b.slot == s)) [
  | inl e ↦ rw e refl
  | inr e ↦ rw e (omega (arith, at_slot-count s d n bs))
]

-- `brelse` changes the order of the buffers and a count of references, and keeps the blocks that
-- are cached.
pub brelse-count :
    (s d n : ℕ) (bs cs : List Buf) → brelse s bs ≡ ok cs → count d n cs ≡ count d n bs
unfolding brelse
brelse-count s d n bs cs e = taken (take_out s bs) refl (take_out-TakenAs s bs)
  where
    taken :
        (o : Option (Buf × List Buf))
        → take_out s bs ≡ o
        → TakenAs bs o
        → count d n cs ≡ count d n bs
    taken none t h = cc (rw (brelse, t) at e)
    taken (some (b, others)) t h = elim (Bool-cases b.locked) [
      | inr free ↦ cc (rw (brelse, t, free) at e)
      | inl held ↦ elim (Bool-cases (sub32 b.refcnt 1 == 0)) [
        | inl last ↦
            ap (count d n) (sym (ok-injective (rw (brelse, t, held, last) at e))) ∙ sym (h d n)
        | inr more ↦
            ap (count d n) (sym (ok-injective (rw (brelse, t, held, more) at e)))
            ∙ at_slot-count s d n bs
      ]
    ]
