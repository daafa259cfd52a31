-- ===== src/Proc/History.antt =====
-- proc.c under any sequence of calls and turns of the schedulers.
use assignments.Base.{
  ℕ, ◌+◌, ◌-◌, ◌≤◌, ◌<◌, ◌≡◌, refl, sym, ap, ◌∙◌, inl, inr, ◌≢◌, Bool, true, false, arith, subst,
  ℕ_discrete, ==_refl, ==_ne, Option, Res, ok, ok-injective, List, word_mod,
}
use assignments.Proc.{
  State, unused, embryo, is_unused, is_zombie, give_up, set_stack, allocproc_slot, nproc, sleeping,
  runnable, running, is_runnable, RtcDate, Proc, Ptable, find_slot, wakeup, kill, exit,
}
use assignments.Proc.Slots.{Found, found, missing, find_slot-Found}
use assignments.Proc.Invariant.{
  is_active, active_live, active_not_zombie, Inv, Mild, Mild-Inv, Adopts-Inv, Fills-Inv,
}
use assignments.Proc.Ends.{Reaps-Inv}
use assignments.Proc.Calls.{update-Inv, Kills, kill_lem, wakeup_lem}
use assignments.Proc.Exit.{exit_lem}
use assignments.Proc.Wait.{
  Waited, wait, sleep, resume, yield, schedule, set_pgdir, copy_process, start_process,
}
use assignments.Proc.Reap.{unlocked, Waits, wait_lem}
use assignments.Proc.Fork.{is_free, started, allocproc_slot-none, allocproc_slot-some}

-- One section of a system call or one turn of a scheduler. A call that takes the lock waits until it is free. The
-- processes that call are active, and pids are issued as long as they fit a word.
pub data Step (t : Ptable) : Ptable → Type 0 where
  kills : (pid r : ℕ) (u : Ptable) → t.locked ≡ false → kill pid t ≡ ok (u, r) → Step t u
  wakes : (chan : ℕ) (u : Ptable) → t.locked ≡ false → wakeup chan t ≡ ok u → Step t u
  exits :
      (i status cwd : ℕ) (files : List ℕ) (u : Ptable)
      → t.locked ≡ false
      → is_active (t.procs i).state ≡ true
      → i + 1 ≢ t.initproc
      → exit i status t ≡ ok (u, files, cwd)
      → Step t u
  waits_for :
      (i : ℕ) (w : Waited) (u : Ptable)
      → t.locked ≡ false
      → is_active (t.procs i).state ≡ true
      → wait i t ≡ ok (u, w)
      → Step t u
  -- `fork`, section by section, in slot `j`: the slot is taken; it gets a stack; what the parent has
  -- is copied; the child starts. A call without memory gives the slot up before the copy, so
  -- before the child has a parent.
  allocates :
      (now : RtcDate) (u : Ptable) (slot : Option ℕ)
      → t.locked ≡ false
      → t.next_pid + 1 < word_mod
      → allocproc_slot now t ≡ ok (u, slot)
      → Step t u
  stacks : (page j : ℕ) → (t.procs j).state ≡ embryo → Step t (set_stack page j t)
  maps : (pgdir j : ℕ) → (t.procs j).state ≡ embryo → Step t (set_pgdir pgdir j t)
  gives_up : (j : ℕ) → (t.procs j).state ≡ embryo → (t.procs j).parent ≡ 0 → Step t (give_up j t)
  copies :
      (i j : ℕ)
      → i < nproc
      → is_active (t.procs i).state ≡ true
      → (t.procs j).state ≡ embryo
      → Step t (copy_process i j t)
  starts :
      (j : ℕ) (u : Ptable)
      → t.locked ≡ false
      → (t.procs j).state ≡ embryo
      → start_process j t ≡ ok u
      → Step t u
  sleeps_on :
      (i chan : ℕ) (u : Ptable)
      → t.locked ≡ false
      → is_active (t.procs i).state ≡ true
      → sleep i chan t ≡ ok u
      → Step t u
  resumes : (i : ℕ) (u : Ptable) → t.locked ≡ true → resume i t ≡ ok u → Step t u
  yields :
      (i : ℕ) (u : Ptable)
      → t.locked ≡ false
      → is_active (t.procs i).state ≡ true
      → yield i t ≡ ok u
      → Step t u
  schedules : (now : RtcDate) (i : ℕ) → i ≤ nproc → Step t (schedule now i t).0
  locks : (b : Bool) → Step t (record t { locked = b })

pub data Runs (t : Ptable) : Ptable → Type 0 where
  here : Runs t t
  next : {u w : Ptable} → Runs t u → Step u w → Runs t w

same_table :
    {A : Type 0} {u v : Ptable} {a b : A}
    → ◌≡◌ {A = Res (Ptable × A)} (ok (u, a)) (ok (v, b))
    → u ≡ v
same_table {A} e = ap (λ (r : Ptable × A). r.0) (ok-injective e)

Kills-Inv : {t u : Ptable} {pid r : ℕ} → Kills pid t → kill pid t ≡ ok (u, r) → Inv t → Inv u
Kills-Inv (inl (i, _, _, _, e, v)) h _ = subst Inv (same_table (sym e ∙ h)) v
Kills-Inv (inr (_, e)) h v = subst Inv (same_table (sym e ∙ h)) (unlocked v)

Waits-Inv : {t u : Ptable} (i : ℕ) {w : Waited} → Waits i t → wait i t ≡ ok (u, w) → Inv t → Inv u
Waits-Inv i (inl (j, _, _, _, e, v)) h _ = subst Inv (same_table (sym e ∙ h)) v
Waits-Inv i (inr (inl (_, e))) h v = subst Inv (same_table (sym e ∙ h)) (unlocked v)
Waits-Inv i (inr (inr (_, _, _, e, v))) h _ = subst Inv (same_table (sym e ∙ h)) v

-- A change of the state of an active process to another state of an active process.
active-Mild :
    (p q : Proc)
    → is_active p.state ≡ true
    → is_active q.state ≡ true
    → q.pid ≡ p.pid
    → q.parent ≡ p.parent
    → Mild p q
active-Mild p q h k pid parent = record {
  unused_same = active_live q.state k ∙ sym (active_live p.state h);
  zombie_same = active_not_zombie q.state k ∙ sym (active_not_zombie p.state h);
  active_kept = λ l. k;
  pid_same = pid;
  parent_same = parent;
}

sleeps-Inv :
    (t u : Ptable) (i chan : ℕ)
    → t.locked ≡ false
    → is_active (t.procs i).state ≡ true
    → sleep i chan t ≡ ok u
    → Inv t
    → Inv u
unfolding sleep
sleeps-Inv t u i chan free alive e v =
    let asleep : Proc = record (t.procs i) { chan = chan; state = sleeping } in
    subst Inv (ok-injective (rw free at e))
      (update-Inv t i asleep true (active-Mild (t.procs i) asleep alive refl refl refl) v)

yields-Inv :
    (t u : Ptable) (i : ℕ)
    → t.locked ≡ false
    → is_active (t.procs i).state ≡ true
    → yield i t ≡ ok u
    → Inv t
    → Inv u
unfolding yield
yields-Inv t u i free alive e v =
    let ready : Proc = record (t.procs i) { state = runnable } in
    subst Inv (ok-injective (rw free at e))
      (update-Inv t i ready true (active-Mild (t.procs i) ready alive refl refl refl) v)

resumes-Inv : (t u : Ptable) (i : ℕ) → t.locked ≡ true → resume i t ≡ ok u → Inv t → Inv u
unfolding resume
resumes-Inv t u i held e v = subst Inv (ok-injective (rw held at e)) (
    update-Inv t i (record (t.procs i) { chan = 0 }) false
      (record {
        unused_same = refl;
        zombie_same = refl;
        active_kept = λ h. h;
        pid_same = refl;
        parent_same = refl;
      })
      v)

schedules-Inv : (now : RtcDate) (i : ℕ) (t : Ptable) → Inv t → Inv (schedule now i t).0
unfolding schedule
schedules-Inv now i t v =
    turn (find_slot (λ p. is_runnable p.state) (nproc - i) i t.procs) refl
      (find_slot-Found (λ p. is_runnable p.state) (nproc - i) i t.procs)
  where
    turn :
        (o : Option ℕ)
        → find_slot (λ p. is_runnable p.state) (nproc - i) i t.procs ≡ o
        → Found (λ p. is_runnable p.state) t.procs i (i + (nproc - i)) o
        → Inv (schedule now i t).0
    turn _ e (missing _) = rw (schedule, e) v
    turn _ e (found j _ _ hit _) =
        let chosen : Proc = record (t.procs j) { switched_in = now; state = running } in
        rw (schedule, e)
          (update-Inv t j chosen t.locked
            (active-Mild (t.procs j) chosen (ground (arith, hit)) refl refl refl) v)

allocates-Inv :
    (now : RtcDate) (t u : Ptable) (slot : Option ℕ)
    → t.locked ≡ false
    → t.next_pid + 1 < word_mod
    → allocproc_slot now t ≡ ok (u, slot)
    → Inv t
    → Inv u
allocates-Inv now t u slot free room e v =
    taken (find_slot is_free nproc 0 t.procs) refl (find_slot-Found is_free nproc 0 t.procs)
  where
    taken :
        (o : Option ℕ)
        → find_slot is_free nproc 0 t.procs ≡ o
        → Found is_free t.procs 0 (0 + nproc) o
        → Inv u
    taken _ first (missing all) =
        subst Inv (same_table (sym (allocproc_slot-none now 0 0 0 t free first) ∙ e)) (unlocked v)
    taken _ first (found j _ high hit _) =
        subst Inv (same_table (sym (allocproc_slot-some now 0 0 0 t j free first room) ∙ e)) (
          unlocked (
            Fills-Inv t j (started now t.next_pid (t.procs j)) (omega arith) hit
              (record { pid = inr refl; parent = inl (no_parent j (omega arith) hit) }) v))
      where
        no_parent :
            (j : ℕ) → j < nproc → is_unused (t.procs j).state ≡ true → (t.procs j).parent ≡ 0
        no_parent j low idle = elim (v.parents j low) [ inl z ↦ z | inr (l, _) ↦ cc (l, idle) ]

not_active : (s : State) → s ≡ embryo → is_active s ≡ false
not_active s e = ap is_active e

gives_up-Inv :
    (t : Ptable) (j : ℕ)
    → (t.procs j).state ≡ embryo
    → (t.procs j).parent ≡ 0
    → Inv t
    → Inv (give_up j t)
gives_up-Inv t j new orphan v =
    Reaps-Inv t j (record (t.procs j) { kstack = 0; state = unused }) v
      (not_active (t.procs j).state new) refl orphan

copies-Inv :
    (t : Ptable) (i j : ℕ)
    → i < nproc
    → is_active (t.procs i).state ≡ true
    → (t.procs j).state ≡ embryo
    → Inv t
    → Inv (copy_process i j t)
copies-Inv t i j low alive new v =
    Adopts-Inv t (copy_process i j t) (λ k. (same k).0) (λ k. (same k).1) (λ k. (same k).2)
      (λ k. elim (ℕ_discrete k j) [
        | yes e ↦ inr (
          ap is_unused (ap (λ x. (t.procs x).state) e ∙ new),
          rw (e, ==_refl j) (i, refl, low, alive),
        )
        | no ne ↦ inl (rw (==_ne k j ne) refl)
      ])
      refl refl v
  where
    same :
        (k : ℕ)
        → (is_unused ((copy_process i j t).procs k).state ≡ is_unused (t.procs k).state)
          × (is_active (t.procs k).state ≡ true
              → is_active ((copy_process i j t).procs k).state ≡ true)
          × (((copy_process i j t).procs k).pid ≡ (t.procs k).pid)
    same k = elim (ℕ_discrete k j) [
      | yes e ↦ rw (e, ==_refl j) (refl, λ h. h, refl)
      | no ne ↦ rw (==_ne k j ne) (refl, λ h. h, refl)
    ]

starts-Inv :
    (t u : Ptable) (j : ℕ)
    → t.locked ≡ false
    → (t.procs j).state ≡ embryo
    → start_process j t ≡ ok u
    → Inv t
    → Inv u
starts-Inv t u j free new e v =
    let ready : Proc = record (t.procs j) { state = runnable } in
    subst Inv (ok-injective (rw free at e)) (
      update-Inv t j ready false
        (record {
          unused_same = sym (ap is_unused new);
          zombie_same = sym (ap is_zombie new);
          active_kept = λ h. refl;
          pid_same = refl;
          parent_same = refl;
        })
        v)

Step-Inv : {t u : Ptable} → Step t u → Inv t → Inv u
Step-Inv {t} (kills pid r u free e) v = Kills-Inv (kill_lem pid t free v) e v
Step-Inv {t} (wakes chan u free e) v =
    let (w, done, _, _, keeps) = wakeup_lem chan t free v in
    subst Inv (ok-injective (sym done ∙ e)) keeps
Step-Inv {t} (exits i status cwd files u free alive other e) v =
    let (w, done, _, _, keeps) = exit_lem i status t free other alive v in
    subst Inv (ap (λ (r : Ptable × List ℕ × ℕ). r.0) (ok-injective (sym done ∙ e))) keeps
Step-Inv {t} (waits_for i w u free alive e) v = Waits-Inv i (wait_lem i t free alive v) e v
Step-Inv {t} (allocates now u slot free room e) v = allocates-Inv now t u slot free room e v
Step-Inv {t} (stacks page j new) v =
    update-Inv t j (record (t.procs j) { kstack = page }) t.locked
      (record {
        unused_same = refl;
        zombie_same = refl;
        active_kept = λ h. h;
        pid_same = refl;
        parent_same = refl;
      })
      v
Step-Inv {t} (maps pgdir j new) v =
    update-Inv t j (record (t.procs j) { pgdir = pgdir }) t.locked
      (record {
        unused_same = refl;
        zombie_same = refl;
        active_kept = λ h. h;
        pid_same = refl;
        parent_same = refl;
      })
      v
Step-Inv {t} (gives_up j new orphan) v = gives_up-Inv t j new orphan v
Step-Inv {t} (copies i j low alive new) v = copies-Inv t i j low alive new v
Step-Inv {t} (starts j u free new e) v = starts-Inv t u j free new e v
Step-Inv {t} (sleeps_on i chan u free alive e) v = sleeps-Inv t u i chan free alive e v
Step-Inv {t} (resumes i u held e) v = resumes-Inv t u i held e v
Step-Inv {t} (yields i u free alive e) v = yields-Inv t u i free alive e v
Step-Inv {t} (schedules now i low) v = schedules-Inv now i t v
Step-Inv {t} (locks b) v =
    Mild-Inv t _
      (λ j. record {
        unused_same = refl;
        zombie_same = refl;
        active_kept = λ h. h;
        pid_same = refl;
        parent_same = refl;
      })
      refl refl v

-- Every table that is reached from a table with the invariant, by turns of the schedulers and by
-- sections of the calls that come between each other, those of a `fork` without memory included,
-- has it, as long as the next pid fits a word: the pids in use are distinct and issued, init is
-- alive, and the parent of a process, if it has one, is a process that can still wait for it.
pub Runs-Inv : {t u : Ptable} → Runs t u → Inv t → Inv u
Runs-Inv here v = v
Runs-Inv (next r st) v = Step-Inv st (Runs-Inv r v)
