-- ===== src/Log/Crash.antt =====
-- What a power failure at any disk write of `commit` or of `recover_from_log` leaves behind.
use assignments.Base.{ℕ, ◌<◌, ◌≡◌, refl, sym, get_or, length, arith}
use assignments.Buffers.{Disk, boot}
use assignments.Log.{System, Log, log_size, copy_from, read_head, recover_from_log}
use assignments.Log.Replay.{entries, targets, logical, IsHome, length-entries}
use assignments.Log.Head.{entries-copy_from}
use assignments.Log.Finish.{
  IsReplayable, Pending, finish, n-le, no_targets, finish-logical, finish-clean,
}

-- The machine after a reboot: an in-memory log of LOGSIZE entries, and nothing cached.
abbrev pub rebooted : Log → Disk → ℕ → System
rebooted l d power = record { log = l; buffers = boot d power }

read_head-Pending :
    (l : Log) (d : Disk) (power : ℕ)
    → length l.block ≡ log_size
    → IsReplayable l.start d.blocks
    → Pending (read_head (rebooted l d power))
unfolding read_head
read_head-Pending l d power full ok = record {
  listed = sym same;
  fits = rw same ok.fits;
  room = ok.room;
  synced = λ j p q. refl;
}
  where
    n : ℕ
    n = get_or (d.blocks l.start) 0 0

    same : entries (copy_from 0 1 n 0 (d.blocks l.start) l.block) 0 n 0 ≡ targets (d.blocks l.start)
    same =
        entries-copy_from 0 1 n 0 (d.blocks l.start) l.block
          (omega (arith, full, ok.fits.few, length-entries (d.blocks l.start) 1 n 0))

-- Recovery, interrupted by a power failure after any number of disk writes, leaves a disk that
-- stands for the same home blocks as before.
pub recover_from_log-logical :
    (l : Log) (d : Disk) (power b : ℕ)
    → length l.block ≡ log_size
    → IsReplayable l.start d.blocks
    → IsHome l.start b
    → logical l.start (recover_from_log (rebooted l d power)).disk.blocks b
      ≡ logical l.start d.blocks b
unfolding recover_from_log read_head
recover_from_log-logical l d power b full ok home =
    finish-logical (read_head (rebooted l d power)) b (read_head-Pending l d power full ok) home

-- If the power lasts for LOGSIZE + 1 writes, recovery ends with an empty log and every home block
-- as the disk stood for it.
pub recover_from_log_total :
    (l : Log) (d : Disk) (power b : ℕ)
    → length l.block ≡ log_size
    → IsReplayable l.start d.blocks
    → IsHome l.start b
    → log_size < power
    → (get_or ((recover_from_log (rebooted l d power)).disk.blocks l.start) 0 0 ≡ 0)
      × ((recover_from_log (rebooted l d power)).disk.blocks b ≡ logical l.start d.blocks b)
unfolding recover_from_log read_head
recover_from_log_total l d power b full ok home on = (clean, rw (no_targets _ clean) at same)
  where
    s : System
    s = read_head (rebooted l d power)

    pending : Pending s
    pending = read_head-Pending l d power full ok

    clean : get_or ((finish s).disk.blocks l.start) 0 0 ≡ 0
    clean = finish-clean s pending (omega (arith, n-le s pending.fits))

    same : logical l.start (finish s).disk.blocks b ≡ logical l.start d.blocks b
    same = finish-logical s b pending home
