-- ===== src/Log/Write.antt =====
-- `log_write`: which blocks the transaction holds afterwards.
use native.Mathlib.Nat.{add-zero}
use assignments.Base.{
  All-snoc, ℕ, zero, suc, ◌+◌, ◌≤◌, ◌<◌, List, [], ◌∷◌, ◌++◌, ◌≡◌, refl, sym, ◌∙◌, ap, ap₂, ◌⊎◌,
  inl, inr, ◌≢◌, get_or, set, length, arith, ℕ_discrete, ok, length-append, length-set,
  get_or-set_self, get_or-set_ne,
}
use assignments.Log.{System, log_size, find_from, recorded, log_write}
use assignments.Log.Replay.{entries, IsHome, All, Distinct, Listed, length-entries}
use assignments.Log.Phases.{Listed-cases}
use assignments.Log.Finish.{Fits}

Distinct-snoc : (ts : List ℕ) (b : ℕ) → Distinct ts → All (λ t. t ≢ b) ts → Distinct (ts ++ b ∷ [])
Distinct-snoc [] b d n = (tt, tt)
Distinct-snoc (t ∷ ts) b d n =
    (All-snoc (λ u. u ≢ t) ts b d.0 (λ e. n.0 (sym e)), Distinct-snoc ts b d.1 n.1)

pub Listed-append_left : (b : ℕ) (ts us : List ℕ) → Listed b ts → Listed b (ts ++ us)
Listed-append_left b [] us h = elim h [ ]
Listed-append_left b (t ∷ ts) us (inl e) = inl e
Listed-append_left b (t ∷ ts) us (inr h) = inr (Listed-append_left b ts us h)

pub Listed-snoc : (b : ℕ) (ts : List ℕ) → Listed b (ts ++ b ∷ [])
Listed-snoc b [] = inl refl
Listed-snoc b (t ∷ ts) = inr (Listed-snoc b ts)

pub find_from_bounds :
    (r i : ℕ) (block : List ℕ) (b : ℕ)
    → (i ≤ find_from r i block b) × (find_from r i block b ≤ i + r)
unfolding find_from
find_from_bounds zero i block b = omega arith
find_from_bounds (suc r) i block b = ground (arith, find_from_bounds r (i + 1) block b)

find_from-Listed :
    (r i : ℕ) (block : List ℕ) (b : ℕ)
    → Listed b (entries block 0 r i)
    → (find_from r i block b < i + r) × (get_or block (find_from r i block b) 0 ≡ b)
unfolding find_from
find_from-Listed zero i block b h = elim h [ ]
find_from-Listed (suc r) i block b h =
    ground (arith, add-zero i, find_from-Listed r (i + 1) block b)

find_from_unlisted :
    (r i : ℕ) (block : List ℕ) (b : ℕ)
    → All (λ t. t ≢ b) (entries block 0 r i)
    → find_from r i block b ≡ i + r
unfolding find_from
find_from_unlisted zero i block b h = omega arith
find_from_unlisted (suc r) i block b h =
    ground (arith, add-zero i, h.0, find_from_unlisted r (i + 1) block b h.1)

-- Writing an entry outside the range, or over an equal entry, does not show.
entries-set_other :
    (block : List ℕ) (k v r i : ℕ)
    → (i + r ≤ k) ⊎ ((k < length block) × (get_or block k 0 ≡ v))
    → entries (set block k v) 0 r i ≡ entries block 0 r i
entries-set_other block k v zero i h = refl
entries-set_other block k v (suc r) i h =
    ap₂ ◌∷◌
      (ground (
        arith,
        ℕ_discrete k (i + 0),
        get_or-set_ne block k (i + 0) v 0,
        get_or-set_self block k v 0,
      ))
      (entries-set_other block k v r (i + 1) (ground arith))

entries-snoc :
    (block : List ℕ) (r i : ℕ)
    → entries block 0 (suc r) i ≡ entries block 0 r i ++ get_or block (i + r) 0 ∷ []
entries-snoc block zero i = refl
entries-snoc block (suc r) i = ap₂ ◌∷◌ refl (
    entries-snoc block r (i + 1)
    ∙ ap (λ k. entries block 0 r (i + 1) ++ get_or block k 0 ∷ []) (omega arith))

-- The block numbers of the transaction, in the order of their log blocks.
abbrev pub logged_blocks : System → List ℕ
logged_blocks s = entries s.block 0 s.n 0

log_write-ok : (s t : System) (b : ℕ) → log_write s b ≡ ok t → t ≡ recorded s b
unfolding log_write
log_write-ok s t b e = ground arith

recorded-Listed :
    (s : System) (b : ℕ)
    → s.n ≤ length s.block
    → Listed b (logged_blocks s)
    → (logged_blocks (recorded s b) ≡ logged_blocks s) × ((recorded s b).n ≡ s.n)
unfolding recorded
recorded-Listed s b room h =
    let (below, found) = find_from-Listed s.n 0 s.block b h in
    let k : ℕ = find_from s.n 0 s.block b in
    let same : (recorded s b).n ≡ s.n = ground arith in
    (rw same (entries-set_other s.block k b s.n 0 (inr (omega arith, found))), same)

recorded_unlisted :
    (s : System) (b : ℕ)
    → s.n < length s.block
    → All (λ u. u ≢ b) (logged_blocks s)
    → (logged_blocks (recorded s b) ≡ logged_blocks s ++ b ∷ []) × ((recorded s b).n ≡ s.n + 1)
unfolding recorded
recorded_unlisted s b room h =
    let at_end : find_from s.n 0 s.block b ≡ s.n =
      find_from_unlisted s.n 0 s.block b h ∙ omega arith in
    let more : (recorded s b).n ≡ suc s.n = ground arith in
    (
      ap₂ (λ k m. entries (set s.block k b) 0 m 0) at_end more
          ∙ (entries-snoc (set s.block s.n b) s.n 0
              ∙ ap (λ k. entries (set s.block s.n b) 0 s.n 0 ++ get_or (set s.block s.n b) k 0 ∷ [])
                  (omega arith)
              ∙ ap₂ (λ ts v. ts ++ v ∷ [])
                  (entries-set_other s.block s.n b s.n 0 (inl (omega arith)))
                  (get_or-set_self s.block s.n b 0 room)),
      omega arith,
    )

-- Absorption: a block that the transaction already holds takes no more room.
pub log_write-Listed :
    (s t : System) (b : ℕ)
    → s.n ≤ length s.block
    → Listed b (logged_blocks s)
    → log_write s b ≡ ok t
    → (logged_blocks t ≡ logged_blocks s) × (t.n ≡ s.n)
log_write-Listed s t b room h e = rw (log_write-ok s t b e) (recorded-Listed s b room h)

-- Any other block is appended.
pub log_write_unlisted :
    (s t : System) (b : ℕ)
    → s.n < length s.block
    → All (λ u. u ≢ b) (logged_blocks s)
    → log_write s b ≡ ok t
    → (logged_blocks t ≡ logged_blocks s ++ b ∷ []) × (t.n ≡ s.n + 1)
log_write_unlisted s t b room h e = rw (log_write-ok s t b e) (recorded_unlisted s b room h)

pub log_write-length :
    (s t : System) (b : ℕ) → log_write s b ≡ ok t → length t.block ≡ length s.block
unfolding recorded
log_write-length s t b e =
    rw (log_write-ok s t b e) (length-set s.block (find_from s.n 0 s.block b) b)

log_write-start : (s t : System) (b : ℕ) → log_write s b ≡ ok t → t.start ≡ s.start
unfolding recorded
log_write-start s t b e = ap (λ (u : System). u.start) (log_write-ok s t b e)

-- Whichever it is, a successful `log_write` keeps the transaction replayable: its blocks stay
-- distinct, home, and in the log, with `b` among them, and they grow by one at most.
pub log_write-Fits :
    (s t : System) (b : ℕ)
    → s.n < length s.block
    → s.n < log_size
    → Fits s.start (logged_blocks s)
    → IsHome s.start b
    → log_write s b ≡ ok t
    → Fits s.start (logged_blocks t)
      × Listed b (logged_blocks t)
      × (t.n ≤ s.n + 1)
      × (length t.block ≡ length s.block)
      × (t.start ≡ s.start)
log_write-Fits s t b room few fits home e = elim (Listed-cases b (logged_blocks s)) [
  | inl old ↦
      let (same, count) = log_write-Listed s t b (omega arith) old e in
      (rw same fits, rw same old, omega arith, log_write-length s t b e, log_write-start s t b e)
  | inr new ↦
      let (grown, count) = log_write_unlisted s t b room new e in
      (
        rw grown (record {
          homes = All-snoc (IsHome s.start) (logged_blocks s) b fits.homes home;
          distinct = Distinct-snoc (logged_blocks s) b fits.distinct new;
          few =
              omega
                (arith, length-append (logged_blocks s) (b ∷ []), length-entries s.block 0 s.n 0);
        }),
        rw grown (Listed-snoc b (logged_blocks s)),
        omega arith,
        log_write-length s t b e,
        log_write-start s t b e,
      )
]
