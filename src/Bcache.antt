-- ===== src/Bcache.antt =====
-- xv6-public/bio.c: the buffer cache. The list of buffers stands in the order of `bcache.head.next`,
-- the most recently used first; a buffer is known by its place `slot` in `bcache.buf`. The sleep
-- lock that `bget` takes at its end is the flag `locked`; a caller that finds it held sleeps there.
pub mod Unique
pub mod Pinned
mod Tests
use assignments.Base.{
  ℕ, zero, suc, ◌+◌, ◌-◌, List, [], ◌∷◌, Bool, true, false, ◌==◌, ◌&&◌, ◌||◌, not, add32, sub32,
  if◌then◌else◌, Option, none, some, Res, ok, panic, check, ◌>>=◌,
}
use assignments.Buffers.{Block}

-- `struct buf`, with B_VALID and B_DIRTY as flags.
pub record Buf : Type 0 where
  pub slot : ℕ
  pub dev : ℕ
  pub blockno : ℕ
  pub valid : Bool
  pub dirty : Bool
  pub refcnt : ℕ
  pub locked : Bool
  pub words : Block

abbrev pub is_block : ℕ → ℕ → Buf → Bool
is_block dev blockno b = b.dev == dev && b.blockno == blockno

-- The first loop of `bget`: the cached buffer, with one reference more.
pub find_cached : ℕ → ℕ → List Buf → Option (List Buf × ℕ)
find_cached dev blockno [] = none
find_cached dev blockno (b ∷ bs) =
    let rest = find_cached dev blockno bs in
    if is_block dev blockno b
    then some (record b { refcnt = add32 b.refcnt 1 } ∷ bs, b.slot)
    else elim rest [ none ↦ none | some (cs, s) ↦ some (b ∷ cs, s) ]

abbrev pub is_spare : Buf → Bool
is_spare b = b.refcnt == 0 && not b.dirty

abbrev pub recycled : ℕ → ℕ → Buf → Buf
recycled dev blockno b = record b {
  dev = dev;
  blockno = blockno;
  valid = false;
  dirty = false;
  refcnt = 1;
}

-- The second loop, which starts at the least recently used buffer: the last spare one.
pub recycle : ℕ → ℕ → List Buf → Option (List Buf × ℕ)
recycle dev blockno [] = none
recycle dev blockno (b ∷ bs) = elim (recycle dev blockno bs) [
  | some (cs, s) ↦ some (b ∷ cs, s)
  | none ↦ if is_spare b then some (recycled dev blockno b ∷ bs, b.slot) else none
]

-- `bget`, up to `acquiresleep`.
pub bget : ℕ → ℕ → List Buf → Res (List Buf × ℕ)
unfolding find_cached recycle
bget dev blockno bs = elim (find_cached dev blockno bs) [
  | some r ↦ ok r
  | none ↦ elim (recycle dev blockno bs) [ some r ↦ ok r | none ↦ panic "bget: no buffers" ]
]

-- Applies `f` to the buffer in slot `s`.
pub at_slot : ℕ → (Buf → Buf) → List Buf → List Buf
at_slot s f [] = []
at_slot s f (b ∷ bs) = let rest = at_slot s f bs in if b.slot == s then f b ∷ bs else b ∷ rest

-- `bread` once it has the buffer's lock: a buffer that is not valid is read by `iderw`.
pub read_in : (ℕ → Block) → Buf → Buf
read_in disk b =
    if b.valid then b else record b { words = disk b.blockno; valid = true; dirty = false }

-- `brelse` of the buffer in slot `s`, after the check of its lock: the buffer, without its lock and
-- with one reference less, and the others.
pub take_out : ℕ → List Buf → Option (Buf × List Buf)
take_out s [] = none
take_out s (b ∷ bs) =
    let rest = take_out s bs in
    if b.slot == s
    then some (b, bs)
    else elim rest [ none ↦ none | some (c, cs) ↦ some (c, b ∷ cs) ]

abbrev pub released : Buf → Buf
released b = record b { locked = false; refcnt = sub32 b.refcnt 1 }

pub brelse : ℕ → List Buf → Res (List Buf)
unfolding take_out at_slot
brelse s bs = elim (take_out s bs) [
  | none ↦ panic "brelse"
  | some (b, others) ↦
      check b.locked "brelse"
        (ok (if sub32 b.refcnt 1 == 0 then released b ∷ others else at_slot s released bs))
]
