-- ===== src/Proc/Times.antt =====
-- `getprocesstimedetails`: how it leaves the lock of the process table.
use assignments.Base.{
  ℕ, zero, suc, ◌+◌, ◌≤◌, ◌<◌, List, ◌≡◌, refl, ◌⊎◌, inl, inr, Bool, true, false, ◌==◌, ◌&&◌, ◌||◌,
  arith, ok, panic, Bool-cases, ℕ_discrete,
}
use assignments.Proc.{nproc, minus_one, RtcDate, Proc, Ptable, acquire}
use assignments.Proc.Report.{times_from, process_time_details}

-- A process of this pid one of whose dates was never set.
abbrev pub lacks_date : ℕ → Proc → Bool
lacks_date pid p =
    p.pid == pid && (p.created.year == 0 || (p.switched_out.year == 0 || p.switched_in.year == 0))

-- The loop leaves early exactly if it meets such a process.
pub times_from_lem :
    (r i pid : ℕ) (procs : ℕ → Proc)
    → ((times_from r i pid procs).1 ≡ true
        × ((j : ℕ) × (i ≤ j) × (j < i + r) × (lacks_date pid (procs j) ≡ true)))
      ⊎ ((times_from r i pid procs).1 ≡ false
          × ((j : ℕ) → i ≤ j → j < i + r → lacks_date pid (procs j) ≡ false))
unfolding times_from
times_from_lem zero i pid procs = inr (refl, λ j h k. absurd (omega arith))
times_from_lem (suc r) i pid procs = elim (Bool-cases (lacks_date pid (procs i))) [
  | inl e ↦ inl (ground (arith, e), (i, omega arith, omega arith, e))
  | inr e ↦ elim (times_from_lem r (i + 1) pid procs) [
    | inl (early, (j, low, high, hit)) ↦
        inl (ground (arith, e, early), (j, omega arith, omega arith, hit))
    | inr (late, rest) ↦ inr (
      ground (arith, e, late),
      λ j low high. elim (ℕ_discrete j i) [
        | yes same ↦ rw same e
        | no other ↦ rest j (omega arith) (omega arith)
      ],
    )
  ]
]

-- `getprocesstimedetails` gives the lock back and returns 0, unless a process with the pid has a
-- date whose year is 0, never set: then it returns -1 with the lock still held, and whoever takes
-- the lock next on that processor panics.
pub process_time_details_lem :
    (pid : ℕ) (t : Ptable)
    → t.locked ≡ false
    → (dates : List RtcDate) × ((process_time_details pid t
            ≡ ok (record t { locked = true }, dates, minus_one)
          × (acquire (record t { locked = true }) ≡ panic "acquire")
          × ((j : ℕ) × (j < nproc) × (lacks_date pid (t.procs j) ≡ true)))
        ⊎ (process_time_details pid t ≡ ok (record t { locked = false }, dates, 0)
            × ((j : ℕ) → j < nproc → lacks_date pid (t.procs j) ≡ false)))
unfolding process_time_details
process_time_details_lem pid t free = (
  (times_from nproc 0 pid t.procs).0,
  elim (times_from_lem nproc 0 pid t.procs) [
    | inl (early, (j, low, high, hit)) ↦ inl (rw (free, early) refl, refl, (j, omega arith, hit))
    | inr (late, rest) ↦ inr (rw (free, late) refl, λ j h. rest j (omega arith) (omega arith))
  ],
)
