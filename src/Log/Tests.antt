-- ===== src/Log/Tests.antt =====
-- Runs of the log, and concrete cases of its theorems.
use assignments.Base.{
  ℕ, ◌∷◌, [], List, ◌≡◌, refl, ◌⊎◌, inr, ◌≤◌, arith, false, none, some, ok, panic, length, get_or,
  replicate, if◌then◌else◌, ◌==◌, Listed,
}
use assignments.Buffers.{Block, Disk, boot, modify}
use assignments.Log.{
  Log, System, copy_from, read_head, write_head, install_from, install_trans, commit,
  recover_from_log, initlog, begin_op, recorded, log_write,
}
use assignments.Log.Replay.{changed, logical, IsHome}
use assignments.Log.Finish.{Fits, IsReplayable}
use assignments.Log.Crash.{rebooted, recover_from_log-logical, recover_from_log_total}
use assignments.Log.Commit.{Ready, commit_crash_recovers}
use assignments.Log.Total.{IsDone, commit_total}
use assignments.Log.Write.{logged_blocks, log_write-Fits}
use assignments.Log.Reserve.{begins, modifies, logs, Reach, here, next, Inv, log_write_total}
use assignments.Log.History.{Reach-Inv, Reach-crash_safe}

abbrev empty_block : Block
empty_block = replicate 128 0

abbrev empty_disk : ℕ → Disk
empty_disk power = record { blocks = λ b. empty_block; power = power }

abbrev idle_log : Log
idle_log = record {
  start = 2;
  size = 31;
  outstanding = 0;
  committing = false;
  n = 0;
  block = replicate 30 0;
}

abbrev idle : System
idle = record { log = idle_log; buffers = boot (empty_disk 100) 100 }

abbrev nothing : List ℕ
nothing = []

idle-Inv : Inv idle nothing
idle-Inv = record {
  fits = record { homes = tt; distinct = tt; few = omega arith };
  room = omega arith;
  idle = refl;
  disk_room = omega arith;
  full = refl;
  sized = omega arith;
  quiet = refl;
  counted = refl;
  bounded = omega arith;
  quotas = tt;
  reserved = omega arith;
}

abbrev one_active : Log
one_active = record idle_log { outstanding = 1 }

abbrev begun : System
begun = record idle { log = one_active }

abbrev sevens : Block
sevens = replicate 128 7

abbrev modified : System
modified = record begun { buffers = modify begun.buffers 40 sevens }

IsHome-40 : IsHome 2 40
IsHome-40 = inr (omega arith)

begin_op_idle : begin_op idle_log ≡ some one_active
unfolding begin_op
begin_op_idle = refl

log_write-modified : log_write modified 40 ≡ ok (recorded modified 40)
unfolding log_write
log_write-modified = refl

one_write : Reach idle nothing (recorded modified 40) (9 ∷ [])
one_write =
    next (next (next here (begins one_active begin_op_idle)) (modifies 40 sevens IsHome-40))
      (logs 40 (recorded modified 40) [] 9 [] refl IsHome-40 log_write-modified)

Reach-Inv_example : Inv (recorded modified 40) (9 ∷ [])
Reach-Inv_example = Reach-Inv one_write idle-Inv

-- The log in memory after a boot.
abbrev booted_log : Log
booted_log = record idle_log { block = replicate 30 5 }

Reach-crash_safe_example :
    ((b : ℕ)
      → IsHome 2 b
      → (recover_from_log (rebooted booted_log (commit (recorded modified 40)).disk 31)).disk.blocks
          b
        ≡ (recorded modified 40).disk.blocks b)
    ⊎ ((b : ℕ)
        → IsHome 2 b
        → (recover_from_log
              (rebooted booted_log (commit (recorded modified 40)).disk 31)).disk.blocks
            b
          ≡ changed
              (logged_blocks (recorded modified 40))
              (recorded modified 40).content
              (recorded modified 40).disk.blocks
              b)
unfolding recorded
Reach-crash_safe_example =
    Reach-crash_safe idle (recorded modified 40) nothing (9 ∷ []) booted_log 31 one_write idle-Inv
      refl refl (omega arith)

-- One block of a transaction, on a disk that loses power after two more writes.
abbrev logged_log : Log
logged_log = record one_active { n = 1; block = 40 ∷ replicate 29 0 }

abbrev logged : ℕ → System
logged power = record {
  log = logged_log;
  buffers = record (modify modified.buffers 40 sevens) { disk = empty_disk power };
}

logged-Ready : (power : ℕ) → Ready (logged power)
logged-Ready power = record {
  fits = record { homes = (IsHome-40, tt); distinct = (tt, tt); few = omega arith };
  room = omega arith;
  idle = refl;
  disk_room = omega arith;
}

commit_crash_recovers_example :
    ((b : ℕ)
      → IsHome 2 b
      → (recover_from_log (rebooted booted_log (commit (logged 2)).disk 31)).disk.blocks b
        ≡ empty_block)
    ⊎ ((b : ℕ)
        → IsHome 2 b
        → (recover_from_log (rebooted booted_log (commit (logged 2)).disk 31)).disk.blocks b
          ≡ changed (40 ∷ []) (logged 2).content (λ b. empty_block) b)
commit_crash_recovers_example =
    commit_crash_recovers (logged 2) booted_log 31 (logged-Ready 2) refl refl (omega arith)

commit_total_example : IsDone (logged 4) (commit (logged 4))
commit_total_example = commit_total (logged 4) (logged-Ready 4) (omega arith)

log_write_total_example : log_write modified 40 ≡ ok (recorded modified 40)
log_write_total_example = log_write_total modified [] 9 [] 40 (
    Reach-Inv (next (next here (begins one_active begin_op_idle)) (modifies 40 sevens IsHome-40))
      idle-Inv)

log_write-Fits_example :
    Fits 2 (logged_blocks (recorded modified 40))
    × Listed 40 (logged_blocks (recorded modified 40))
    × ((recorded modified 40).n ≤ 1)
    × (length (recorded modified 40).block ≡ 30)
    × ((recorded modified 40).start ≡ 2)
log_write-Fits_example =
    log_write-Fits modified (recorded modified 40) 40 (omega arith) (omega arith)
      (record { homes = tt; distinct = tt; few = omega arith }) IsHome-40 log_write-modified

-- A disk whose log holds a committed transaction.
abbrev committed : ℕ → Block
committed b = if b == 2 then 1 ∷ 40 ∷ replicate 126 0 else if b == 3 then sevens else empty_block

committed-IsReplayable : IsReplayable 2 committed
committed-IsReplayable = record {
  fits = record { homes = (IsHome-40, tt); distinct = (tt, tt); few = omega arith };
  room = omega arith;
}

abbrev committed_disk : Disk
committed_disk = record { blocks = committed; power = 0 }

recover_from_log-logical_example :
    logical 2 (recover_from_log (rebooted booted_log committed_disk 1)).disk.blocks 40
    ≡ logical 2 committed 40
recover_from_log-logical_example =
    recover_from_log-logical booted_log committed_disk 1 40 refl committed-IsReplayable IsHome-40

recover_from_log_total_example :
    (get_or ((recover_from_log (rebooted booted_log committed_disk 31)).disk.blocks 2) 0 0 ≡ 0)
    × ((recover_from_log (rebooted booted_log committed_disk 31)).disk.blocks 40
        ≡ logical 2 committed 40)
recover_from_log_total_example =
    recover_from_log_total booted_log committed_disk 31 40 refl committed-IsReplayable IsHome-40
      (omega arith)

-- `initlog` finds the log and replays it.
abbrev with_super : ℕ → Block
with_super b = if b == 1 then 1000 ∷ 940 ∷ 200 ∷ 31 ∷ 2 ∷ [] else committed b

initlog_replays :
    get_or
      ((initlog (record {
        log = booted_log;
        buffers = boot (record { blocks = with_super; power = 0 }) 31;
      })).disk.blocks
        40)
      0
      0
    ≡ 7
unfolding initlog recover_from_log read_head install_trans install_from write_head copy_from
initlog_replays = refl

-- `log_write` outside of a transaction panics.
log_write_outside : log_write idle 40 ≡ panic "log_write outside of trans"
unfolding log_write
log_write_outside = refl

-- The fourth system call waits: its blocks might not fit.
begin_op_waits : begin_op (record idle_log { outstanding = 3 }) ≡ none
unfolding begin_op
begin_op_waits = refl
