-- ===== src/Proc.antt =====
-- xv6-public/proc.c: the process table. `ptable.lock` is the flag `locked`, and a function that
-- would call `sched` ends there. The address of `ptable.proc[i]` is written `i + 1` and 0 is the
-- null pointer; the addresses of other objects are numbers above NPROC.
pub mod Slots
pub mod Reparent
pub mod Invariant
pub mod Ends
pub mod Calls
pub mod Exit
pub mod Reap
pub mod Fork
pub mod Wait
pub mod Report
pub mod Times
pub mod History
mod Tests
use assignments.Base.{
  ℕ, zero, suc, ◌+◌, ◌-◌, List, [], ◌∷◌, Bool, true, false, ◌==◌, ltb, leb, ◌||◌, ◌&&◌, not,
  if◌then◌else◌, update, add32, word_mod, int_lt, set, Option, none, some, Res, ok, panic, check,
  ◌>>=◌,
}

abbrev pub nproc : ℕ
nproc = 64

abbrev pub nofile : ℕ
nofile = 16

abbrev pub minus_one : ℕ
minus_one = 0xFFFFFFFF

pub data State : Type 0 where
  unused embryo sleeping runnable running zombie : State

abbrev pub is_unused : State → Bool
is_unused unused = true
is_unused _ = false

abbrev pub is_sleeping : State → Bool
is_sleeping sleeping = true
is_sleeping _ = false

abbrev pub is_runnable : State → Bool
is_runnable runnable = true
is_runnable _ = false

abbrev pub is_zombie : State → Bool
is_zombie zombie = true
is_zombie _ = false

-- `struct rtcdate`.
pub record RtcDate : Type 0 where
  pub second : ℕ
  pub minute : ℕ
  pub hour : ℕ
  pub day : ℕ
  pub month : ℕ
  pub year : ℕ

-- `struct proc`, without the trap frame and the saved context.
pub record Proc : Type 0 where
  pub sz : ℕ
  pub pgdir : ℕ
  pub kstack : ℕ
  pub state : State
  pub pid : ℕ
  pub parent : ℕ
  pub chan : ℕ
  pub killed : Bool
  pub ofile : List ℕ
  pub cwd : ℕ
  pub name : List ℕ
  pub heap_size : ℕ
  pub created : RtcDate
  pub switched_out : RtcDate
  pub switched_in : RtcDate
  pub exitstatus : ℕ

pub record Ptable : Type 0 where
  pub locked : Bool
  pub procs : ℕ → Proc
  pub next_pid : ℕ
  pub initproc : ℕ

-- `acquire(&ptable.lock)` on the processor that runs the caller, and `release`.
abbrev pub acquire : Ptable → Res Ptable
acquire t = check (not t.locked) "acquire" (ok (record t { locked = true }))

abbrev pub release : Ptable → Res Ptable
release t = check t.locked "release" (ok (record t { locked = false }))

-- `for (p = ptable.proc; p < &ptable.proc[NPROC]; p++) if (test(p)) goto found;`, from slot `i` on.
pub find_slot : (Proc → Bool) → ℕ → ℕ → (ℕ → Proc) → Option ℕ
find_slot test zero i procs = none
find_slot test (suc rounds) i procs =
    let rest = find_slot test rounds (i + 1) procs in if test (procs i) then some i else rest

-- `wakeup1`.
abbrev pub woken : ℕ → Proc → Proc
woken chan p = if is_sleeping p.state && p.chan == chan then record p { state = runnable } else p

pub wakeup1_from : ℕ → ℕ → ℕ → (ℕ → Proc) → ℕ → Proc
wakeup1_from zero i chan procs = procs
wakeup1_from (suc rounds) i chan procs =
    wakeup1_from rounds (i + 1) chan (update procs i (woken chan (procs i)))

abbrev pub wakeup1 : ℕ → Ptable → Ptable
wakeup1 chan t = record t { procs = wakeup1_from nproc 0 chan t.procs }

pub wakeup : ℕ → Ptable → Res Ptable
wakeup chan t = acquire t >>= λ u. release (wakeup1 chan u)

-- `allocproc` up to the release of the lock: the slot it takes, if one is free.
pub allocproc_slot : RtcDate → Ptable → Res (Ptable × Option ℕ)
allocproc_slot now t = acquire t >>= λ u.
    elim (find_slot (λ p. is_unused p.state) nproc 0 u.procs) [
      | none ↦ release u >>= λ v. ok (v, none)
      | some i ↦
          let p = record (u.procs i) {
            created = now;
            switched_out = now;
            state = embryo;
            pid = u.next_pid;
          } in
          release (record u { procs = update u.procs i p; next_pid = add32 u.next_pid 1 }) >>= λ v.
          ok (v, some i)
    ]

-- A new process that cannot be completed leaves its slot `j`; and the parts of one that can.
abbrev pub give_up : ℕ → Ptable → Ptable
give_up j t = record t {
  procs = update t.procs j (record (t.procs j) { kstack = 0; state = unused });
}

abbrev pub set_stack : ℕ → ℕ → Ptable → Ptable
set_stack page j t = record t { procs = update t.procs j (record (t.procs j) { kstack = page }) }

-- The rest of it, on the page that `kalloc` returned (0 for none); the result is a `struct proc *`.
pub allocproc : RtcDate → ℕ → Ptable → Res (Ptable × ℕ)
allocproc now page t = allocproc_slot now t >>= λ (u, slot). elim slot [
  | none ↦ ok (u, 0)
  | some i ↦ if page == 0 then ok (give_up i u, 0) else ok (set_stack page i u, i + 1)
]

-- `kill`: the first slot with this pid.
pub kill : ℕ → Ptable → Res (Ptable × ℕ)
kill pid t = acquire t >>= λ u. elim (find_slot (λ p. p.pid == pid) nproc 0 u.procs) [
  | none ↦ release u >>= λ v. ok (v, minus_one)
  | some i ↦
      let p = u.procs i in
      let q = record p {
        killed = true;
        state = if is_sleeping p.state then runnable else p.state;
      } in
      release (record u { procs = update u.procs i q }) >>= λ v. ok (v, 0)
]

-- The loop of `exit` that passes the children of `curproc` to init, from slot `i` on.
pub reparent_from : ℕ → ℕ → ℕ → ℕ → (ℕ → Proc) → ℕ → Proc
unfolding wakeup1_from
reparent_from zero i curproc init procs = procs
reparent_from (suc rounds) i curproc init procs =
    let p = procs i in
    let adopted = update procs i (record p { parent = init }) in
    reparent_from rounds (i + 1) curproc init (
      if p.parent == curproc
      then (if is_zombie p.state then wakeup1_from nproc 0 init adopted else adopted)
      else procs)

-- `exit` of slot `i` after its files are closed and `cwd` is put, up to `sched`.
pub exit_table : ℕ → Ptable → Res Ptable
exit_table i t = acquire t >>= λ u.
    let woke = wakeup1_from nproc 0 (u.procs i).parent u.procs in
    let procs = reparent_from nproc 0 (i + 1) u.initproc woke in
    ok (record u { procs = update procs i (record (procs i) { state = zombie }) })

abbrev pub none_open : List ℕ → List ℕ
none_open [] = []
none_open (f ∷ fs) = 0 ∷ none_open fs

abbrev pub open_files : List ℕ → List ℕ
open_files [] = []
open_files (f ∷ fs) = if f == 0 then open_files fs else f ∷ open_files fs

-- `exit`: the new table, and the files and the directory that it closes and puts.
pub exit : ℕ → ℕ → Ptable → Res (Ptable × List ℕ × ℕ)
exit i status t =
    let p = record (t.procs i) { exitstatus = status } in
    let q = record p { ofile = none_open p.ofile; cwd = 0 } in
    check (not (i + 1 == t.initproc)) "init exiting" (
      exit_table i (record t { procs = update t.procs i q }) >>= λ u.
      ok (u, open_files p.ofile, p.cwd))
