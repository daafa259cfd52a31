-- ===== src/Proc/Reap.antt =====
-- `wait` of proc.c: how its three endings come about.
use assignments.Base.{
  ℕ, ◌+◌, ◌<◌, ◌≡◌, refl, sym, ap, ◌⊎◌, inl, inr, ◌≢◌, true, false, update, arith, Bool-cases,
  Option, none, ok,
}
use assignments.Proc.{nproc, State, sleeping, zombie, is_zombie, Proc, Ptable, find_slot}
use assignments.Proc.Slots.{Found, found, missing, find_slot-Found}
use assignments.Proc.Invariant.{is_active, active_live, active_not_zombie, Inv}
use assignments.Proc.Calls.{update-Inv}
use assignments.Proc.Ends.{Reaps-Inv}
use assignments.Proc.Wait.{reaped, failed, waits, reap, is_child, is_dead_child, wait}

-- The table when the process of slot `i` sleeps on its own address.
abbrev pub asleep_table : ℕ → Ptable → Ptable
asleep_table i t = record t {
  locked = true;
  procs = update t.procs i (record (t.procs i) { chan = i + 1; state = sleeping });
}

-- No child has exited.
abbrev pub NoneDead : ℕ → Ptable → Type 0
NoneDead i t = (j : ℕ) → j < nproc → (t.procs j).parent ≡ i + 1 → (t.procs j).state ≢ zombie

-- The three ways in which a round of `wait` ends.
abbrev pub Waits : ℕ → Ptable → Type 0
Waits i t =
    ((j : ℕ) × (j < nproc)
      × ((t.procs j).parent ≡ i + 1)
      × ((t.procs j).state ≡ zombie)
      × (wait i t
          ≡ ok (
            record t { locked = false; procs = update t.procs j (reap (t.procs j)) },
            reaped (t.procs j).pid (t.procs j).exitstatus,
          ))
      × Inv (record t { locked = false; procs = update t.procs j (reap (t.procs j)) }))
    ⊎ ((((j : ℕ) → j < nproc → (t.procs j).parent ≢ i + 1)
          ⊎ (((t.procs i).killed ≡ true) × NoneDead i t))
        × (wait i t ≡ ok (record t { locked = false }, failed)))
    ⊎ (NoneDead i t
        × ((j : ℕ) × (j < nproc) × ((t.procs j).parent ≡ i + 1))
        × ((t.procs i).killed ≡ false)
        × (wait i t ≡ ok (asleep_table i t, waits))
        × Inv (asleep_table i t))

is_zombie_eq : (s : State) → is_zombie s ≡ true → s ≡ zombie
is_zombie_eq s h = ground arith

dead_child : (a : ℕ) (p : Proc) → is_dead_child a p ≡ true → (p.parent ≡ a) × (p.state ≡ zombie)
dead_child a p h = (ground arith, is_zombie_eq p.state (ground arith))

not_dead : (a : ℕ) (p : Proc) → is_dead_child a p ≡ false → p.parent ≡ a → p.state ≢ zombie
not_dead a p h e z = ground arith

not_child : (a : ℕ) (p : Proc) → is_child a p ≡ false → p.parent ≢ a
not_child a p h e = ground arith

asleep-Inv :
    (i : ℕ) (t : Ptable) → is_active (t.procs i).state ≡ true → Inv t → Inv (asleep_table i t)
asleep-Inv i t alive v =
    update-Inv t i (record (t.procs i) { chan = i + 1; state = sleeping }) true
      (record {
        unused_same = sym (active_live (t.procs i).state alive);
        zombie_same = sym (active_not_zombie (t.procs i).state alive);
        active_kept = λ h. refl;
        pid_same = refl;
        parent_same = refl;
      })
      v

pub unlocked : {t : Ptable} → Inv t → Inv (record t { locked = false })
unlocked v = record {
  pids = v.pids;
  unique = v.unique;
  parents = v.parents;
  init = v.init;
  issued = v.issued;
}

-- `wait` by an active process reaps an exited child of its own and returns its pid and status; it
-- fails if the process has no child, or is killed and no child has exited; and it sleeps with the
-- lock held if the process has a child, is not killed, and no child has exited.
pub wait_lem :
    (i : ℕ) (t : Ptable) → t.locked ≡ false → is_active (t.procs i).state ≡ true → Inv t → Waits i t
unfolding wait
wait_lem i t free alive v =
    dead (find_slot (is_dead_child (i + 1)) nproc 0 t.procs) refl
      (find_slot-Found (is_dead_child (i + 1)) nproc 0 t.procs)
  where
    kids :
        find_slot (is_dead_child (i + 1)) nproc 0 t.procs ≡ none
        → ((j : ℕ) → j < nproc → (t.procs j).parent ≡ i + 1 → (t.procs j).state ≢ zombie)
        → (o : Option ℕ) → find_slot (is_child (i + 1)) nproc 0 t.procs ≡ o
        → Found (is_child (i + 1)) t.procs 0 (0 + nproc) o
        → Waits i t
    kids d all _ e (missing lone) = inr (
        inl (
          inl (λ j h. not_child (i + 1) (t.procs j) (lone j (omega arith) (omega arith))),
          ground (arith, free, d, e),
        ))
    kids d all _ e (found j low high hit first) = elim (Bool-cases (t.procs i).killed) [
      | inl k ↦ inr (inl (inr (k, all), ground (arith, free, d, e, k)))
      | inr k ↦ inr (
          inr (
            all,
            (j, omega arith, ground (arith, hit)),
            k,
            ground (arith, free, d, e, k),
            asleep-Inv i t alive v,
          ))
    ]

    dead :
        (o : Option ℕ)
        → find_slot (is_dead_child (i + 1)) nproc 0 t.procs ≡ o
        → Found (is_dead_child (i + 1)) t.procs 0 (0 + nproc) o
        → Waits i t
    dead _ e (found j low high hit first) =
        let (mine, over) = dead_child (i + 1) (t.procs j) hit in
        inl (
          j,
          omega arith,
          mine,
          over,
          ground (arith, free, e),
          Reaps-Inv (record t { locked = false }) j (reap (t.procs j)) (unlocked v)
              (ap is_active over) refl refl,
        )
    dead _ e (missing all) =
        kids e (λ j h. not_dead (i + 1) (t.procs j) (all j (omega arith) (omega arith)))
          (find_slot (is_child (i + 1)) nproc 0 t.procs) refl
          (find_slot-Found (is_child (i + 1)) nproc 0 t.procs)
