-- ===== src/Log/History.antt =====
-- log.c under any history of system calls.
use assignments.Base.{
  ok-injective, All-drop, ℕ, ◌+◌, ◌≤◌, ◌<◌, List, [], ◌∷◌, ◌++◌, ◌≡◌, refl, sym, ◌∙◌, ap, ◌⊎◌,
  subst, ℕ_discrete, length, arith, ok, length-append,
}
use assignments.Buffers.{Block, modify}
use assignments.Log.{
  System, Log, log_size, max_op_blocks, end_op, end_op_last, commit, recover_from_log,
}
use assignments.Log.Crash.{rebooted}
use assignments.Log.Replay.{changed, IsHome}
use assignments.Log.Finish.{Home-ne_start}
use assignments.Log.Commit.{Ready, commit-IsAtomic, commit_crash_recovers}
use assignments.Log.Total.{commit_total, commit-frame}
use assignments.Log.Write.{logged_blocks}
use assignments.Log.Reserve.{
  Inv, Step, begins, modifies, absorbs, logs, ends, Reach, here, next, total-append, begins-Inv,
  absorbs-Inv, logs-Inv, end_op_commits, end_op_leaves, committing, Inv-Ready,
}

nil_of_length : (qs : List ℕ) → length qs ≡ 0 → qs ≡ []
nil_of_length [] e = refl
nil_of_length (q ∷ qs) e = absurd (omega arith)

-- After the commit of the last system call the log is empty.
committed-Inv :
    (s : System)
    → Ready s
    → length s.block ≡ log_size
    → log_size < s.size
    → s.n + s.n + 1 < s.disk.power
    → Inv (record (commit (committing s)) { log = end_op_last (commit (committing s)).log }) []
unfolding end_op_last
committed-Inv s ready full sized power =
    let s' : System = committing s in
    let ready' : Ready s' = record {
      fits = ready.fits;
      room = ready.room;
      idle = ready.idle;
      disk_room = ready.disk_room;
    } in
    let (log, room) = commit-frame s' ready' power in
    let done = commit_total s' ready' power in
    let atomic = commit-IsAtomic s' ready' in
    rw (ap end_op_last log) (record {
      fits = record { homes = tt; distinct = tt; few = omega arith };
      room = room;
      idle = done.2;
      disk_room = atomic.0.room;
      full = full;
      sized = sized;
      quiet = refl;
      counted = refl;
      bounded = omega arith;
      quotas = tt;
      reserved = omega arith;
    })

ends-Inv :
    (s t : System) (before : List ℕ) (q : ℕ) (after : List ℕ)
    → log_size + log_size + 1 < s.disk.power
    → end_op s ≡ ok t
    → Inv s (before ++ q ∷ after)
    → Inv t (before ++ after)
ends-Inv s t before q after power e v = elim (ℕ_discrete (length (before ++ after)) 0) [
  | yes none_left ↦
      subst (λ u. Inv u (before ++ after))
        (ok-injective (sym (end_op_commits s (omega (arith, lengths, v.counted)) v.quiet) ∙ e))
        (rw (nil_of_length (before ++ after) none_left)
          (committed-Inv s (Inv-Ready v) v.full v.sized (omega (arith, v.reserved))))
  | no some_left ↦
      subst (λ u. Inv u (before ++ after))
        (ok-injective (
          sym (
            end_op_leaves s (omega (arith, lengths, v.counted))
              (omega (arith, v.counted, v.bounded)) v.quiet)
          ∙ e))
        (record {
          fits = v.fits;
          room = v.room;
          idle = v.idle;
          disk_room = v.disk_room;
          full = v.full;
          sized = v.sized;
          quiet = refl;
          counted = omega (arith, lengths, v.counted);
          bounded = omega (arith, lengths, v.bounded);
          quotas = (All-drop (λ k. k ≤ max_op_blocks) before q after v.quotas).0;
          reserved =
              omega (arith, v.reserved, total-append before (q ∷ after), total-append before after);
        })
]
  where
    lengths : length (before ++ q ∷ after) ≡ length (before ++ after) + 1
    lengths = omega (arith, length-append before (q ∷ after), length-append before after)

modifies-Inv :
    (s : System) (qs : List ℕ) (b : ℕ) (words : Block)
    → IsHome s.start b
    → Inv s qs
    → Inv (record s { buffers = modify s.buffers b words }) qs
modifies-Inv s qs b words home v = record {
  fits = v.fits;
  room = ground (arith, Home-ne_start home, v.room);
  idle = v.idle;
  disk_room = v.disk_room;
  full = v.full;
  sized = v.sized;
  quiet = v.quiet;
  counted = v.counted;
  bounded = v.bounded;
  quotas = v.quotas;
  reserved = v.reserved;
}

Step-Inv : {s t : System} {qs rs : List ℕ} → Step s qs t rs → Inv s qs → Inv t rs
Step-Inv {s} {qs = qs} (begins l e) v = begins-Inv s qs l e v
Step-Inv {s} {qs = qs} (modifies b words home) v = modifies-Inv s qs b words home v
Step-Inv {s} {qs = qs} (absorbs b t old e) v = absorbs-Inv s t qs b old e v
Step-Inv {s} (logs b t before q after split home e) v =
    logs-Inv s t before q after b home e (subst (Inv s) split v)
Step-Inv {s} (ends t before q after split power e) v =
    ends-Inv s t before q after power e (subst (Inv s) split v)

-- Every state that system calls reach from a state with the invariant has the invariant: the log
-- never overflows, and it can be committed and replayed.
pub Reach-Inv :
    {s : System} {qs : List ℕ} {t : System} {rs : List ℕ} → Reach s qs t rs → Inv s qs → Inv t rs
Reach-Inv here v = v
Reach-Inv (next r st) v = Step-Inv st (Reach-Inv r v)

-- In every such state, whatever system calls have done so far, a power failure at any disk write
-- of a commit loses the whole transaction or none of it, once the recovery of the
-- next boot, with any log `l` in memory, has run.
pub Reach-crash_safe :
    (s t : System) (qs rs : List ℕ) (l : Log) (power : ℕ)
    → Reach s qs t rs
    → Inv s qs
    → l.start ≡ t.start
    → length l.block ≡ log_size
    → log_size < power
    → let d = (recover_from_log (rebooted l (commit t).disk power)).disk.blocks in
      ((b : ℕ) → IsHome t.start b → d b ≡ t.disk.blocks b)
      ⊎ ((b : ℕ) → IsHome t.start b → d b ≡ changed (logged_blocks t) t.content t.disk.blocks b)
Reach-crash_safe s t qs rs l power r v at full on =
    commit_crash_recovers t l power (Inv-Ready (Reach-Inv r v)) at full on
