-- ===== src/Log/Commit.antt =====
-- `commit` of log.c, and a power failure during it.
use assignments.Base.{
  ℕ, ◌+◌, ◌≤◌, ◌<◌, ◌≡◌, refl, sym, ◌∙◌, ap, ◌⊎◌, inl, inr, ◌≢◌, get_or, length, set, length-set,
  arith, ℕ_discrete, subst, lt→ltb,
}
use assignments.Buffers.{Block, Disk}
use assignments.Log.{
  System, Log, log_size, write_head, write_log, write_log_from, commit, recover_from_log,
}
use assignments.Log.Replay.{
  entries, targets, logical, changed, IsHome, overlay-Logged, overlay-congr, changed-congr, Logged,
}
use assignments.Log.Head.{length-copy_from}
use assignments.Log.Phases.{
  log-write_log_from, power-write_log_from, write_log_from_other, write_log_from_synced,
  write_log_from-Logged,
}
use assignments.Log.Crash.{rebooted, recover_from_log_total}
use assignments.Log.Finish.{
  Fits, IsReplayable, Pending, finish, head_words, targets-head_words, write_head_cases, n-le,
  no_targets, Home-ne_start, finish-logical, write_head_content, finish_off, finish-IsReplayable,
  IsReplayable-idle,
}

-- The state in which `end_op` commits: an empty log on the disk, and a transaction that fits.
pub record Ready (s : System) : Type 0 where
  pub fits : Fits s.start (entries s.block 0 s.n 0)
  pub room : log_size < length (s.content s.start)
  pub idle : get_or (s.disk.blocks s.start) 0 0 ≡ 0
  pub disk_room : log_size < length (s.disk.blocks s.start)

-- `write_log` with the log, which it leaves alone, in sight.
abbrev pub after_log : System → System
after_log s = record s { buffers = (write_log s).buffers }

write_log-eq : (s : System) → write_log s ≡ after_log s
unfolding write_log
write_log-eq s =
    λ i. record { log = log-write_log_from s.n 0 s i; buffers = (write_log_from s.n 0 s).buffers }

module _ (s : System) (ready : Ready s) where
  n_few : s.n ≤ log_size
  n_few = n-le s ready.fits

  after_log-start :
      ((after_log s).content s.start ≡ s.content s.start)
      × ((after_log s).disk.blocks s.start ≡ s.disk.blocks s.start)
  unfolding write_log
  after_log-start = write_log_from_other s.n 0 s s.start (inl (omega arith))

  after_log-home : (b : ℕ) → IsHome s.start b → (after_log s).disk.blocks b ≡ s.disk.blocks b
  unfolding write_log
  after_log-home b home = (write_log_from_other s.n 0 s b (ground (arith, n_few))).1

  after_log-old :
      (b : ℕ) → IsHome s.start b → logical s.start (after_log s).disk.blocks b ≡ s.disk.blocks b
  after_log-old b home =
      rw (after_log-start.1, no_targets (s.disk.blocks s.start) ready.idle) (after_log-home b home)

  module _ (on : 0 < (after_log s).disk.power) where
    enough : s.n ≤ s.disk.power
    unfolding write_log
    enough = omega (arith, power-write_log_from s.n 0 s)

    head_listed : targets (head_words (after_log s)) ≡ entries s.block 0 s.n 0
    head_listed =
        targets-head_words (after_log s) (rw (after_log-start.0) (omega (arith, n_few, ready.room)))

    after_log-Logged :
        Logged (after_log s).disk.blocks (s.start + 1) (entries s.block 0 s.n 0) s.content
    unfolding write_log
    after_log-Logged =
        subst
          (λ k. Logged (write_log_from s.n 0 s).disk.blocks k (entries s.block 0 s.n 0) s.content)
          (omega arith)
          (write_log_from-Logged s.n 0 s s.content ready.fits.homes (λ j h. refl)
            (omega (arith, n_few)) enough)

    module _ (head : (write_head (after_log s)).disk.blocks s.start ≡ head_words (after_log s))
        (others : (j : ℕ)
          → j ≢ s.start
          → (write_head (after_log s)).disk.blocks j ≡ (after_log s).disk.blocks j) where
      pub head-Pending : Pending (write_head (after_log s))
      unfolding write_head write_log
      head-Pending = record {
        listed = rw head head_listed;
        fits = ready.fits;
        room = rw ((write_head_content (after_log s)).0) (
            omega (
              arith,
              length-copy_from 1 0 s.n 0 s.block (set ((after_log s).content s.start) 0 s.n),
              length-set ((after_log s).content s.start) 0 s.n,
              ap length (after_log-start.0),
              ready.room,
            ));
        synced = λ j p q.
            (write_head_content (after_log s)).1 j (omega arith)
            ∙ write_log_from_synced s.n 0 s j enough (omega arith) (omega arith)
            ∙ sym (others j (omega arith));
      }

      pub head-new :
          (b : ℕ)
          → IsHome s.start b
          → logical s.start (write_head (after_log s)).disk.blocks b
            ≡ changed (entries s.block 0 s.n 0) s.content s.disk.blocks b
      head-new b home =
          rw (head, head_listed)
            (overlay-congr (entries s.block 0 s.n 0) (s.start + 1) _ (after_log s).disk.blocks b
                (λ j p q. others j (omega arith)) (inl (others b (Home-ne_start home)))
              ∙ overlay-Logged (entries s.block 0 s.n 0) (s.start + 1) (after_log s).disk.blocks
                  s.content b after_log-Logged
              ∙ changed-congr (entries s.block 0 s.n 0) s.content (after_log s).disk.blocks
                  s.disk.blocks b (after_log-home b home))

pub commit-eq : (s : System) → 0 < s.n → commit s ≡ finish (write_head (after_log s))
unfolding commit
commit-eq s h = rw (lt→ltb 0 s.n h, write_log-eq s)

pub commit_empty : (s : System) → s.n ≡ 0 → commit s ≡ s
unfolding commit
commit_empty s e = ground arith

-- How the disk stands at the end of a run: every home block old, or every home block new.
abbrev pub IsOld : System → (ℕ → Block) → Type 0
IsOld s d = (b : ℕ) → IsHome s.start b → logical s.start d b ≡ s.disk.blocks b

abbrev pub IsNew : System → (ℕ → Block) → Type 0
IsNew s d =
    (b : ℕ)
    → IsHome s.start b
    → logical s.start d b ≡ changed (entries s.block 0 s.n 0) s.content s.disk.blocks b

write_head-start : (s : System) → (write_head s).start ≡ s.start
unfolding write_head
write_head-start s = refl

-- What the disk must be like when the power has failed.
abbrev pub IsAtomic : System → (ℕ → Block) → Type 0
IsAtomic s d = IsReplayable s.start d × (IsOld s d ⊎ IsNew s d)

after_log-IsAtomic : (s : System) → Ready s → IsAtomic s (after_log s).disk.blocks
after_log-IsAtomic s ready = (
  IsReplayable-idle s.start (after_log s).disk.blocks (rw ((after_log-start s ready).1) ready.idle)
      (rw ((after_log-start s ready).1) ready.disk_room),
  inl (after_log-old s ready),
)

commit-IsAtomic_full :
    (s : System) → Ready s → 0 < s.n → IsAtomic s (finish (write_head (after_log s))).disk.blocks
unfolding write_head
commit-IsAtomic_full s ready h = elim (write_head_cases (after_log s)) [
  | inl (off, same) ↦
      rw (finish_off (write_head (after_log s)) (ap (λ (d : Disk). d.power) same ∙ off))
        (rw same (after_log-IsAtomic s ready))
  | inr (on, head, others) ↦
      let p = head-Pending s ready on head others in
      (
        finish-IsReplayable (write_head (after_log s)) p
            (rw (head, ← (write_head_content (after_log s)).0) p.room),
        inr λ b home.
            finish-logical (write_head (after_log s)) b p home
            ∙ head-new s ready on head others b home,
      )
]

-- If the power fails at any disk write of `commit`, recovery can replay the disk, which stands for
-- the blocks before the transaction or for all blocks of the transaction.
pub commit-IsAtomic : (s : System) → Ready s → IsAtomic s (commit s).disk.blocks
commit-IsAtomic s ready = elim (ℕ_discrete s.n 0) [
  | yes e ↦ rw (commit_empty s e) (
    IsReplayable-idle s.start s.disk.blocks ready.idle ready.disk_room,
    inl λ b home. rw (no_targets (s.disk.blocks s.start) ready.idle),
  )
  | no ne ↦ rw (commit-eq s (omega arith)) (commit-IsAtomic_full s ready (omega arith))
]

-- After a crash at any point of `commit`, and a reboot whose recovery is not interrupted, every
-- home block is as before the transaction, or every home block is as the transaction left it.
pub commit_crash_recovers :
    (s : System) (l : Log) (power : ℕ)
    → Ready s
    → l.start ≡ s.start
    → length l.block ≡ log_size
    → log_size < power
    → let d = (recover_from_log (rebooted l (commit s).disk power)).disk.blocks in
      ((b : ℕ) → IsHome s.start b → d b ≡ s.disk.blocks b)
      ⊎ ((b : ℕ)
          → IsHome s.start b
          → d b ≡ changed (entries s.block 0 s.n 0) s.content s.disk.blocks b)
commit_crash_recovers s l power ready start_eq full on = settle (commit-IsAtomic s ready)
  where
    d : ℕ → Block
    d = (recover_from_log (rebooted l (commit s).disk power)).disk.blocks

    recovered :
        IsReplayable s.start (commit s).disk.blocks
        → (b : ℕ) → IsHome s.start b
        → d b ≡ logical s.start (commit s).disk.blocks b
    recovered ok b home =
        (recover_from_log_total l (commit s).disk power b full (rw start_eq ok) (rw start_eq home)
          on).1
        ∙ ap (λ k. logical k (commit s).disk.blocks b) start_eq

    settle :
        IsAtomic s (commit s).disk.blocks
        → ((b : ℕ) → IsHome s.start b → d b ≡ s.disk.blocks b)
          ⊎ ((b : ℕ)
              → IsHome s.start b
              → d b ≡ changed (entries s.block 0 s.n 0) s.content s.disk.blocks b)
    settle (ok, inl old) = inl λ b home. recovered ok b home ∙ old b home
    settle (ok, inr new) = inr λ b home. recovered ok b home ∙ new b home
