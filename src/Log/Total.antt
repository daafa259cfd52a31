-- ===== src/Log/Total.antt =====
-- `commit` of log.c with power for all its writes.
use assignments.Base.{
  ℕ, ◌+◌, ◌-◌, ◌<◌, ◌≡◌, refl, sym, ◌∙◌, ap, ◌≢◌, get_or, length, length-set, arith, ℕ_discrete,
}
use assignments.Log.{System, Log, log_size, copy_from, write_head, write_log, commit, install_trans}
use assignments.Log.Replay.{entries, overlay, changed, IsHome}
use assignments.Log.Phases.{power-write_log_from}
use assignments.Log.Finish.{
  Pending, finish, cleared, head_words, write_head_cases, no_targets, finish-logical, finish-clean,
  write_head_content, install_trans-log, install_trans-start,
}
use assignments.Log.Commit.{Ready, after_log, commit-eq, commit_empty, head-Pending, head-new}

write_head-power : (s : System) → (write_head s).disk.power ≡ s.disk.power - 1
unfolding write_head
write_head-power s = ground arith

write_head-n : (s : System) → (write_head s).n ≡ s.n
unfolding write_head
write_head-n s = refl

after_log-power : (s : System) → (after_log s).disk.power ≡ s.disk.power - s.n
unfolding write_log
after_log-power s = power-write_log_from s.n 0 s

-- What a completed commit leaves: every home block of the transaction in place, and an empty log.
abbrev pub IsDone : System → System → Type 0
IsDone s t =
    ((b : ℕ)
      → IsHome s.start b
      → t.disk.blocks b ≡ changed (entries s.block 0 s.n 0) s.content s.disk.blocks b)
    × (t.n ≡ 0)
    × (get_or (t.disk.blocks s.start) 0 0 ≡ 0)

commit_head-IsDone :
    (s : System)
    → (ready : Ready s) → s.n + s.n + 1 < s.disk.power
    → (0 < (after_log s).disk.power)
    → ((write_head (after_log s)).disk.blocks s.start ≡ head_words (after_log s))
    → ((j : ℕ)
        → j ≢ s.start
        → (write_head (after_log s)).disk.blocks j ≡ (after_log s).disk.blocks j)
    → IsDone s (finish (write_head (after_log s)))
unfolding write_head
commit_head-IsDone s ready power on head others =
    let p = head-Pending s ready on head others in
    let clean =
      finish-clean (write_head (after_log s)) p
        (omega (arith, after_log-power s, write_head-power (after_log s))) in
    (
      λ b home.
          sym (
            ap (λ ts. overlay ts (s.start + 1) (finish (write_head (after_log s))).disk.blocks b)
              (no_targets ((finish (write_head (after_log s))).disk.blocks s.start) clean))
          ∙ finish-logical (write_head (after_log s)) b p home
          ∙ head-new s ready on head others b home,
      refl,
      clean,
    )

-- With power for all its writes, `commit` brings every block of the transaction home and leaves
-- an empty log, in memory and on the disk.
pub commit_total : (s : System) → Ready s → s.n + s.n + 1 < s.disk.power → IsDone s (commit s)
commit_total s ready power = elim (ℕ_discrete s.n 0) [
  | yes e ↦ rw (commit_empty s e) (λ b home. rw e, e, ready.idle)
  | no ne ↦ rw (commit-eq s (omega arith)) (
      ground (
        arith,
        after_log-power s,
        write_head_cases (after_log s),
        commit_head-IsDone s ready power,
      ))
]

finish-log : (s : System) → (finish s).log ≡ record s.log { n = 0 }
unfolding write_head
finish-log s = ap (λ (l : Log). record l { n = 0 }) (install_trans-log s)

finish-length : (s : System) → Pending s → log_size < length ((finish s).content s.start)
unfolding copy_from
finish-length s p = omega (
  arith,
  ap (λ k. length ((finish s).content k)) (sym start_eq),
  ap length ((write_head_content (cleared (install_trans s))).0),
  length-set ((install_trans s).content (install_trans s).start) 0 0,
  ap length (ap (install_trans s).content start_eq ∙ (install_trans-start s p.fits).0),
  p.room,
)
  where
    start_eq : (install_trans s).start ≡ s.start
    start_eq = ap (λ (l : Log). l.start) (install_trans-log s)

head_frame :
    (s : System)
    → (ready : Ready s) → (0 < (after_log s).disk.power)
    → ((write_head (after_log s)).disk.blocks s.start ≡ head_words (after_log s))
    → ((j : ℕ)
        → j ≢ s.start
        → (write_head (after_log s)).disk.blocks j ≡ (after_log s).disk.blocks j)
    → ((finish (write_head (after_log s))).log ≡ record s.log { n = 0 })
      × (log_size < length ((finish (write_head (after_log s))).content s.start))
unfolding write_head
head_frame s ready on head others = (
  finish-log (write_head (after_log s)),
  finish-length (write_head (after_log s)) (head-Pending s ready on head others),
)

-- A commit with power changes nothing of the log in memory but `n`, and keeps the header's buffer.
pub commit-frame :
    (s : System)
    → Ready s
    → s.n + s.n + 1 < s.disk.power
    → ((commit s).log ≡ record s.log { n = 0 }) × (log_size < length ((commit s).content s.start))
commit-frame s ready power = elim (ℕ_discrete s.n 0) [
  | yes e ↦ rw (commit_empty s e) (ap (λ k. record s.log { n = k }) e, ready.room)
  | no ne ↦
      rw (commit-eq s (omega arith))
        (ground (arith, after_log-power s, write_head_cases (after_log s), head_frame s ready))
]
