-- ===== src/Log/Reserve.antt =====
-- The reservation of log space: system calls between `begin_op` and `end_op`, each with the number
-- of blocks that it may still add to the transaction, at most MAXOPBLOCKS in all.
use assignments.Base.{
  ℕ, suc, ◌+◌, ◌-◌, ◌*◌, ◌≤◌, ◌<◌, List, [], ◌∷◌, ◌++◌, ◌≡◌, refl, sym, ◌∙◌, get_or, length, arith,
  true, false, some, ok, length-append,
}
use assignments.Buffers.{Block, modify}
use assignments.Log.{
  System, Log, log_size, max_op_blocks, begin_op, log_write, end_op, end_op_first, end_op_last,
  commit, recorded,
}
use assignments.Log.Replay.{IsHome, All, Listed}
use assignments.Log.Finish.{Fits}
use assignments.Log.Commit.{Ready}
use assignments.Log.Write.{logged_blocks, log_write-Listed, log_write-Fits, log_write-length}

abbrev pub total : List ℕ → ℕ
total [] = 0
total (q ∷ qs) = q + total qs

-- One step of the machine, and what the active system calls may still log.
pub data Step (s : System) (qs : List ℕ) : System → List ℕ → Type 0 where
  begins :
      (l : Log) → begin_op s.log ≡ some l → Step s qs (record s { log = l }) (max_op_blocks ∷ qs)
  modifies :
      (b : ℕ) (words : Block)
      → IsHome s.start b
      → Step s qs (record s { buffers = modify s.buffers b words }) qs
  absorbs :
      (b : ℕ) (t : System) → Listed b (logged_blocks s) → log_write s b ≡ ok t → Step s qs t qs
  logs :
      (b : ℕ) (t : System) (before : List ℕ) (q : ℕ) (after : List ℕ)
      → qs ≡ before ++ suc q ∷ after
      → IsHome s.start b
      → log_write s b ≡ ok t
      → Step s qs t (before ++ q ∷ after)
  ends :
      (t : System) (before : List ℕ) (q : ℕ) (after : List ℕ)
      → qs ≡ before ++ q ∷ after
      → log_size + log_size + 1 < s.disk.power
      → end_op s ≡ ok t
      → Step s qs t (before ++ after)

pub data Reach (s : System) (qs : List ℕ) : System → List ℕ → Type 0 where
  here : Reach s qs s qs
  next : {t u : System} {ps rs : List ℕ} → Reach s qs t ps → Step t ps u rs → Reach s qs u rs

pub record Inv (s : System) (qs : List ℕ) : Type 0 where
  pub fits : Fits s.start (logged_blocks s)
  pub room : log_size < length (s.content s.start)
  pub idle : get_or (s.disk.blocks s.start) 0 0 ≡ 0
  pub disk_room : log_size < length (s.disk.blocks s.start)
  pub full : length s.block ≡ log_size
  pub sized : log_size < s.size
  pub quiet : s.committing ≡ false
  pub counted : s.outstanding ≡ length qs
  pub bounded : length qs ≤ 3
  pub quotas : All (λ q. q ≤ max_op_blocks) qs
  pub reserved : s.n + total qs ≤ log_size

pub total-append : (ps qs : List ℕ) → total (ps ++ qs) ≡ total ps + total qs
total-append [] qs = omega arith
total-append (p ∷ ps) qs = omega (arith, total-append ps qs)

pub total-le :
    (qs : List ℕ) → All (λ q. q ≤ max_op_blocks) qs → total qs ≤ length qs * max_op_blocks
total-le [] h = omega arith
total-le (q ∷ qs) h = omega (arith, total-le qs h.1, h.0)

All-lower :
    (ps : List ℕ) (q : ℕ) (rs : List ℕ)
    → All (λ k. k ≤ max_op_blocks) (ps ++ suc q ∷ rs)
    → All (λ k. k ≤ max_op_blocks) (ps ++ q ∷ rs)
All-lower [] q rs h = (omega (arith, h.0), h.1)
All-lower (p ∷ ps) q rs h = (h.0, All-lower ps q rs h.1)

pub begins-Inv :
    (s : System) (qs : List ℕ) (l : Log)
    → begin_op s.log ≡ some l
    → Inv s qs
    → Inv (record s { log = l }) (max_op_blocks ∷ qs)
unfolding begin_op
begins-Inv s qs l e v = ground (arith, total-le qs v.quotas)

-- In a state that satisfies the invariant, a system call that has not used up its blocks can log
-- one more: `log_write` does not panic.
pub log_write_total :
    (s : System) (before : List ℕ) (q : ℕ) (after : List ℕ) (b : ℕ)
    → Inv s (before ++ suc q ∷ after)
    → log_write s b ≡ ok (recorded s b)
unfolding log_write
log_write_total s before q after b v =
    ground (arith, total-append before (suc q ∷ after), length-append before (suc q ∷ after), v)

pub Inv-Ready : {s : System} {qs : List ℕ} → Inv s qs → Ready s
Inv-Ready v = record { fits = v.fits; room = v.room; idle = v.idle; disk_room = v.disk_room }

-- `log_write` changes the log's entries and a flag, and nothing else.
recorded_frame :
    (s t : System) (b : ℕ)
    → log_write s b ≡ ok t
    → t ≡ record s {
      log = record s.log { n = t.n; block = t.block };
      buffers = record s.buffers { dirty = t.dirty };
    }
unfolding log_write recorded
recorded_frame s t b e = ground arith

frame-Inv :
    (s t : System) (b : ℕ) (qs rs : List ℕ)
    → log_write s b ≡ ok t
    → Inv s qs
    → Fits s.start (logged_blocks t)
    → length t.block ≡ length s.block
    → length rs ≡ length qs
    → All (λ q. q ≤ max_op_blocks) rs
    → t.n + total rs ≤ log_size
    → Inv t rs
frame-Inv s t b qs rs e v fits same len quotas reserved = rw (recorded_frame s t b e) (record {
  fits = fits;
  room = v.room;
  idle = v.idle;
  disk_room = v.disk_room;
  full = same ∙ v.full;
  sized = v.sized;
  quiet = v.quiet;
  counted = v.counted ∙ sym len;
  bounded = omega (arith, v.bounded);
  quotas = quotas;
  reserved = reserved;
})

pub absorbs-Inv :
    (s t : System) (qs : List ℕ) (b : ℕ)
    → Listed b (logged_blocks s)
    → log_write s b ≡ ok t
    → Inv s qs
    → Inv t qs
absorbs-Inv s t qs b old e v =
    let (same, count) = log_write-Listed s t b (omega (arith, v.full, v.reserved)) old e in
    frame-Inv s t b qs qs e v (rw same v.fits) (log_write-length s t b e) refl v.quotas
      (omega (arith, v.reserved))

pub logs-Inv :
    (s t : System) (before : List ℕ) (q : ℕ) (after : List ℕ) (b : ℕ)
    → IsHome s.start b
    → log_write s b ≡ ok t
    → Inv s (before ++ suc q ∷ after)
    → Inv t (before ++ q ∷ after)
logs-Inv s t before q after b home e v =
    let few : s.n < log_size = omega (arith, v.reserved, total-append before (suc q ∷ after)) in
    let (fits, listed, grown, len, start) =
      log_write-Fits s t b (omega (arith, v.full)) few v.fits home e in
    frame-Inv s t b (before ++ suc q ∷ after) (before ++ q ∷ after) e v fits len
      (omega (arith, length-append before (suc q ∷ after), length-append before (q ∷ after)))
      (All-lower before q after v.quotas)
      (omega
        (arith, v.reserved, total-append before (suc q ∷ after), total-append before (q ∷ after)))

-- The state in which the last `end_op` commits.
abbrev pub committing : System → System
committing s = record s { log = record s.log { outstanding = 0; committing = true } }

pub end_op_commits :
    (s : System)
    → s.outstanding ≡ 1
    → s.committing ≡ false
    → end_op s
      ≡ ok (record (commit (committing s)) { log = end_op_last (commit (committing s)).log })
unfolding end_op end_op_first
end_op_commits s one quiet = rw (one, quiet)

pub end_op_leaves :
    (s : System)
    → 1 < s.outstanding
    → s.outstanding ≤ 3
    → s.committing ≡ false
    → end_op s
      ≡ ok (record s { log = record s.log { outstanding = s.outstanding - 1; committing = false } })
unfolding end_op end_op_first
end_op_leaves s many few quiet = rw quiet (ground arith)
