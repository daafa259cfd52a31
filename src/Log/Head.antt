-- ===== src/Log/Head.antt =====
-- The header block: what `write_head` writes, `read_head` reads.
use assignments.Base.{
  ℕ, zero, suc, ◌+◌, ◌≤◌, ◌<◌, List, ◌∷◌, ◌≡◌, refl, ap₂, get_or, set, length, arith, length-set,
  get_or-set_self, get_or-set_ne,
}
use assignments.Log.{copy_from}
use assignments.Log.Replay.{entries}

pub length-copy_from :
    (a b r i : ℕ) (src dst : List ℕ) → length (copy_from a b r i src dst) ≡ length dst
unfolding copy_from
length-copy_from a b zero i src dst = refl
length-copy_from a b (suc r) i src dst = omega (
  arith,
  length-copy_from a b r (i + 1) src (set dst (i + a) (get_or src (i + b) 0)),
  length-set dst (i + a) (get_or src (i + b) 0),
)

-- The copy leaves the entries below its range alone.
pub copy_from_below :
    (a b r i : ℕ) (src dst : List ℕ) (j : ℕ)
    → j < i + a
    → get_or (copy_from a b r i src dst) j 0 ≡ get_or dst j 0
unfolding copy_from
copy_from_below a b zero i src dst j h = refl
copy_from_below a b (suc r) i src dst j h = ground (
  arith,
  copy_from_below a b r (i + 1) src (set dst (i + a) (get_or src (i + b) 0)) j (omega arith),
  get_or-set_ne dst (i + a) j (get_or src (i + b) 0) 0,
)

pub entries-copy_from :
    (a b r i : ℕ) (src dst : List ℕ)
    → i + a + r ≤ length dst
    → entries (copy_from a b r i src dst) a r i ≡ entries src b r i
unfolding copy_from
entries-copy_from a b zero i src dst h = refl
entries-copy_from a b (suc r) i src dst h =
    ap₂ ◌∷◌
      (ground (
        arith,
        copy_from_below a b r (i + 1) src (set dst (i + a) v) (i + a) (omega arith),
        get_or-set_self dst (i + a) v 0 (omega arith),
      ))
      (entries-copy_from a b r (i + 1) src (set dst (i + a) v)
        (omega (arith, length-set dst (i + a) v)))
  where
    v : ℕ
    v = get_or src (i + b) 0
