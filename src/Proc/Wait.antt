-- ===== src/Proc/Wait.antt =====
-- xv6-public/proc.c: `wait`, `sleep`, `yield`, `fork`, and the scheduler's choice.
use assignments.Base.{
  ℕ, zero, suc, ◌+◌, ◌-◌, List, [], ◌∷◌, Bool, false, ◌==◌, ◌&&◌, if◌then◌else◌, update, set,
  Option, none, some, Res, ok, ◌>>=◌,
}
use assignments.CString.{safestrcpy}
use assignments.Proc.{
  nproc, minus_one, unused, sleeping, runnable, running, is_runnable, is_zombie, RtcDate, Proc,
  Ptable, acquire, release, find_slot, allocproc, give_up,
}

-- How a round of `wait` ends: with a pid and the child's status, with no child, or asleep.
pub data Waited : Type 0 where
  reaped : ℕ → ℕ → Waited
  failed : Waited
  waits : Waited

-- The child's slot after `wait`; its stack page and page table are freed.
abbrev pub reap : Proc → Proc
reap p = record p {
  kstack = 0;
  pid = 0;
  parent = 0;
  name = set p.name 0 0;
  killed = false;
  state = unused;
}

-- A child, and one that has exited, of the process at address `curproc`.
abbrev pub is_child : ℕ → Proc → Bool
is_child curproc p = p.parent == curproc

abbrev pub is_dead_child : ℕ → Proc → Bool
is_dead_child curproc p = p.parent == curproc && is_zombie p.state

-- One scan of `wait` by slot `i`. Asleep, it holds the lock on its way to `sched`.
unfoldable pub wait : ℕ → Ptable → Res (Ptable × Waited)
wait i t = acquire t >>= λ u. elim (find_slot (is_dead_child (i + 1)) nproc 0 u.procs) [
  | some j ↦
      let p = u.procs j in
      release (record u { procs = update u.procs j (reap p) }) >>= λ v.
      ok (v, reaped p.pid p.exitstatus)
  | none ↦ elim (find_slot (is_child (i + 1)) nproc 0 u.procs) [
    | none ↦ release u >>= λ v. ok (v, failed)
    | some _ ↦
        if (u.procs i).killed
        then (release u >>= λ v. ok (v, failed))
        else ok (
          record u {
            procs = update u.procs i (record (u.procs i) { chan = i + 1; state = sleeping });
          },
          waits,
        )
  ]
]

-- `sleep` on a lock other than `ptable.lock`, up to `sched`, and what it does when it runs again.
unfoldable pub sleep : ℕ → ℕ → Ptable → Res Ptable
sleep i chan t = acquire t >>= λ u.
    ok
      (record u { procs = update u.procs i (record (u.procs i) { chan = chan; state = sleeping }) })

unfoldable pub resume : ℕ → Ptable → Res Ptable
resume i t = release (record t { procs = update t.procs i (record (t.procs i) { chan = 0 }) })

-- `yield`, up to `sched`.
unfoldable pub yield : ℕ → Ptable → Res Ptable
yield i t = acquire t >>= λ u.
    ok (record u { procs = update u.procs i (record (u.procs i) { state = runnable }) })

-- The scheduler's loop, lock held, from slot `i` on: the next process to run, if the table has one.
unfoldable pub schedule : RtcDate → ℕ → Ptable → Ptable × Option ℕ
schedule now i t = elim (find_slot (λ p. is_runnable p.state) (nproc - i) i t.procs) [
  | none ↦ (t, none)
  | some j ↦ (
    record t {
      procs = update t.procs j (record (t.procs j) { switched_in = now; state = running });
    },
    some j,
  )
]

-- Each open file of the parent becomes the child's, with one reference more.
abbrev pub dup_files : List ℕ → List ℕ → List ℕ
dup_files [] gs = gs
dup_files (f ∷ fs) [] = []
dup_files (f ∷ fs) (g ∷ gs) = (if f == 0 then g else f) ∷ dup_files fs gs

-- `fork` of slot `i` goes on in slot `j`, without the lock: the page directory of `copyuvm`, 0 for
-- none, and then what is copied from the parent.
abbrev pub set_pgdir : ℕ → ℕ → Ptable → Ptable
set_pgdir pgdir j t = record t { procs = update t.procs j (record (t.procs j) { pgdir = pgdir }) }

abbrev pub copy_process : ℕ → ℕ → Ptable → Ptable
copy_process i j t =
    let child = t.procs j in
    let curproc = t.procs i in
    record t {
      procs = update t.procs j (record child {
        sz = curproc.sz;
        parent = i + 1;
        ofile = dup_files curproc.ofile child.ofile;
        cwd = curproc.cwd;
        name = safestrcpy child.name curproc.name 16;
      });
    }

-- Its last section, under the lock.
abbrev pub start_process : ℕ → Ptable → Res Ptable
start_process j t = acquire t >>= λ v.
    release (record v { procs = update v.procs j (record (v.procs j) { state = runnable }) })

-- `fork` by slot `i`, when nobody else comes in between its sections: `page` is what `kalloc`
-- returned, `pgdir` what `copyuvm` returned, each 0 for none. Proc/History has the sections as steps
-- that others may come between.
unfoldable pub fork : RtcDate → ℕ → ℕ → ℕ → Ptable → Res (Ptable × ℕ)
fork now page pgdir i t = allocproc now page t >>= λ (u, np). elim np [
  | zero ↦ ok (u, minus_one)
  | suc j ↦
      let v = set_pgdir pgdir j u in
      if pgdir == 0
      then ok (give_up j v, minus_one)
      else (start_process j (copy_process i j v) >>= λ w. ok (w, (u.procs j).pid))
]
