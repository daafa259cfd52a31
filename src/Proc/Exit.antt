-- ===== src/Proc/Exit.antt =====
-- `exit` of proc.c: from the end of a process to the adoption of its children.
use assignments.Base.{
  ℕ, ◌+◌, ◌<◌, ◌≡◌, refl, ap, ◌∙◌, ◌⊎◌, inl, inr, ◌≢◌, true, false, ◌==◌, ltb, leb, ◌&&◌,
  if◌then◌else◌, update, arith, ℕ_discrete, ==_refl, ==_ne, ok, lt→ltb, le→leb,
}
use assignments.Proc.{
  nproc, sleeping, runnable, zombie, is_unused, is_zombie, Proc, Ptable, none_open, wakeup1_from,
  reparent_from, exit_table, exit, open_files,
}
use assignments.Proc.Slots.{Passed}
use assignments.Proc.Reparent.{reparent_from-Passed}
use assignments.Proc.Invariant.{is_active, Inv, Mild}
use assignments.Proc.Calls.{wakeup1_from-Mild}
use assignments.Proc.Ends.{Ends, Ends-Inv}

module _ (i status : ℕ) (t : Ptable) where
  -- The slot of the process when it has closed its files.
  abbrev closing : Proc
  closing = record (t.procs i) { exitstatus = status; ofile = none_open (t.procs i).ofile; cwd = 0 }

  abbrev closed : ℕ → Proc
  closed = update t.procs i closing

  abbrev woke : ℕ → Proc
  woke = wakeup1_from nproc 0 (closed i).parent closed

  abbrev passed : ℕ → Proc
  passed = reparent_from nproc 0 (i + 1) t.initproc woke

  -- The table that `exit` leaves.
  abbrev pub ended_table : Ptable
  ended_table = record t {
    locked = true;
    procs = update passed i (record (passed i) { state = zombie });
  }

  closed-Mild : (k : ℕ) → Mild (t.procs k) (closed k)
  closed-Mild k = elim (ℕ_discrete k i) [
    | yes e ↦
        rw (e, ==_refl i)
          (record {
            unused_same = refl;
            zombie_same = refl;
            active_kept = λ h. h;
            pid_same = refl;
            parent_same = refl;
          })
    | no ne ↦ rw (==_ne k i ne) (record {
      unused_same = refl;
      zombie_same = refl;
      active_kept = λ h. h;
      pid_same = refl;
      parent_same = refl;
    })
  ]

  woke-Mild : (k : ℕ) → Mild (t.procs k) (woke k)
  woke-Mild k =
      let a = closed-Mild k in
      let b = wakeup1_from-Mild (closed i).parent closed k in
      record {
        unused_same = b.unused_same ∙ a.unused_same;
        zombie_same = b.zombie_same ∙ a.zombie_same;
        active_kept = λ h. b.active_kept (a.active_kept h);
        pid_same = b.pid_same ∙ a.pid_same;
        parent_same = b.parent_same ∙ a.parent_same;
      }

  passed-Passed :
      (k : ℕ) → Passed (leb 0 k && ltb k (0 + nproc)) (i + 1) t.initproc (woke k) (passed k)
  passed-Passed k = reparent_from-Passed nproc 0 (i + 1) t.initproc woke k

  passed-states :
      (k : ℕ)
      → (is_unused (passed k).state ≡ is_unused (t.procs k).state)
        × (is_zombie (passed k).state ≡ is_zombie (t.procs k).state)
        × (is_active (t.procs k).state ≡ true → is_active (passed k).state ≡ true)
  passed-states k =
      let m = woke-Mild k in
      let (u, z, a) = same (passed-Passed k).woke in
      (u ∙ m.unused_same, z ∙ m.zombie_same, λ h. a (m.active_kept h))
    where
      same :
          ((passed k).state ≡ (woke k).state)
            ⊎ (((woke k).state ≡ sleeping)
                × ((woke k).chan ≡ t.initproc)
                × ((passed k).state ≡ runnable))
          → (is_unused (passed k).state ≡ is_unused (woke k).state)
            × (is_zombie (passed k).state ≡ is_zombie (woke k).state)
            × (is_active (woke k).state ≡ true → is_active (passed k).state ≡ true)
      same (inl e) = (ap is_unused e, ap is_zombie e, λ h. ap is_active e ∙ h)
      same (inr (a, b, c)) = (rw (a, c), rw (a, c), λ h. rw c)

  passed-parent :
      (k : ℕ)
      → k < nproc
      → (passed k).parent ≡ (if (t.procs k).parent == i + 1 then t.initproc else (t.procs k).parent)
  passed-parent k h =
      rw (← (woke-Mild k).parent_same)
        ((passed-Passed k).parent ∙ rw (le→leb 0 k (omega arith), lt→ltb k (0 + nproc) h))

  final-other : (k : ℕ) → k ≢ i → ended_table.procs k ≡ passed k
  final-other k ne = rw (==_ne k i ne)

  final-same :
      (k : ℕ) → ended_table.procs k ≡ record (passed k) { state = (ended_table.procs k).state }
  final-same k = elim (ℕ_discrete k i) [ yes e ↦ rw (e, ==_refl i) | no ne ↦ rw (==_ne k i ne) ]

  pub ended-Ends : Ends i t ended_table
  ended-Ends = record {
    pid = λ k.
        ap (λ (p : Proc). p.pid) (final-same k) ∙ (passed-Passed k).pid ∙ (woke-Mild k).pid_same;
    free = λ k ne. ap (λ p. is_unused p.state) (final-other k ne) ∙ (passed-states k).0;
    alive = λ k ne h. ap (λ p. is_active p.state) (final-other k ne) ∙ (passed-states k).2 h;
    dead = λ k ne. ap (λ p. is_zombie p.state) (final-other k ne) ∙ (passed-states k).1;
    parent = λ k h. ap (λ (p : Proc). p.parent) (final-same k) ∙ passed-parent k h;
    ended = rw (==_refl i);
    next = refl;
    init = refl;
  }

  pub exit_lem :
      t.locked ≡ false
      → i + 1 ≢ t.initproc
      → is_active (t.procs i).state ≡ true
      → Inv t
      → (u : Ptable) × (exit i status t ≡ ok (u, open_files (t.procs i).ofile, (t.procs i).cwd))
        × Ends i t u
        × (u.locked ≡ true)
        × Inv u
  unfolding exit exit_table
  exit_lem free other alive v = (
    ended_table,
    rw (==_ne (i + 1) t.initproc other, free),
    ended-Ends,
    refl,
    Ends-Inv t ended_table i ended-Ends v alive other,
  )
