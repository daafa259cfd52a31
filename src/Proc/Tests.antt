-- ===== src/Proc/Tests.antt =====
-- Runs of the process table, and concrete cases of its theorems.
use assignments.Base.{
  zero, suc, ◌≢◌, ℕ, List, ◌+◌, ◌∷◌, [], ◌≡◌, refl, ◌<◌, ◌⊎◌, inl, inr, ==_ne, arith, true, false,
  ok, panic, none, some, update, ◌==◌, ◌>>=◌, if◌then◌else◌, replicate, ℕ_discrete,
}
use assignments.Proc.{
  embryo, allocproc_slot, set_stack, acquire, nproc, unused, sleeping, runnable, running, zombie,
  is_unused, RtcDate, Proc, Ptable, find_slot, woken, wakeup, kill, minus_one,
}
use assignments.Proc.Invariant.{IsActive, Inv}
use assignments.Proc.Ends.{Ends}
use assignments.Proc.Calls.{Kills, kill_lem, wakeup_lem}
use assignments.Proc.Wait.{copy_process, fork, schedule, sleep, yield}
use assignments.Proc.Times.{lacks_date, process_time_details_lem}
use assignments.Proc.Report.{
  process_time_details, open_files_from, num_open_files, heap_sizes_from, mem_alloc,
}
use assignments.Proc.History.{
  here, next, kills, allocates, stacks, copies, starts, schedules, Runs-Inv,
}
use assignments.Proc.Reap.{Waits, wait_lem}
use assignments.Proc.Fork.{ForkEnds, fork_lem, fork_full}

abbrev never : RtcDate
never = record { second = 0; minute = 0; hour = 0; day = 0; month = 0; year = 0 }

abbrev noon : RtcDate
noon = record never { hour = 12; year = 2026 }

abbrev empty_slot : Proc
empty_slot = record {
  sz = 0;
  pgdir = 0;
  kstack = 0;
  state = unused;
  pid = 0;
  parent = 0;
  chan = 0;
  killed = false;
  ofile = replicate 16 0;
  cwd = 0;
  name = replicate 16 0;
  heap_size = 0;
  created = never;
  switched_out = never;
  switched_in = never;
  exitstatus = 0;
}

-- Init sleeps in `wait`.
abbrev init_slot : Proc
init_slot = record empty_slot { state = sleeping; pid = 1; chan = 1; cwd = 70 }

abbrev shell_slot : Proc
shell_slot = record empty_slot {
  state = running;
  pid = 2;
  parent = 1;
  ofile = 80 ∷ replicate 15 0;
  cwd = 70;
}

-- A child of the shell that has exited with status 5.
abbrev child_slot : Proc
child_slot = record empty_slot { state = zombie; pid = 3; parent = 2; exitstatus = 5 }

abbrev procs : ℕ → Proc
procs i =
    if i == 0
    then init_slot
    else if i == 1
    then shell_slot
    else if i == 2
    then child_slot
    else empty_slot

abbrev table : Ptable
table = record { locked = false; procs = procs; next_pid = 4; initproc = 1 }

init-IsActive : IsActive procs 1
init-IsActive = (0, refl, omega arith, refl)

shell-IsActive : IsActive procs 2
shell-IsActive = (1, refl, omega arith, refl)

-- Only the first three slots are in use, each with the pid after its number.
in_use : (i : ℕ) → is_unused (procs i).state ≡ false → (i < 3) × ((procs i).pid ≡ i + 1)
in_use i h = ground arith

parents :
    (i : ℕ)
    → ((procs i).parent ≡ 0)
      ⊎ ((is_unused (procs i).state ≡ false) × IsActive procs (procs i).parent)
parents i = elim (ℕ_discrete i 0) [
  | yes e ↦ rw e (inl refl)
  | no not_init ↦ elim (ℕ_discrete i 1) [
    | yes e ↦ rw e (inr (refl, init-IsActive))
    | no not_shell ↦ elim (ℕ_discrete i 2) [
      | yes e ↦ rw e (inr (refl, shell-IsActive))
      | no not_child ↦ rw (==_ne i 0 not_init, ==_ne i 1 not_shell, ==_ne i 2 not_child) (inl refl)
    ]
  ]
]

table-Inv : Inv table
table-Inv = record {
  pids = λ i h l. omega (arith, in_use i l);
  unique = λ i j h k l m e. omega (arith, in_use i l, in_use j m, e);
  parents = λ i h. parents i;
  init = init-IsActive;
  issued = omega arith;
}

kill_example : Kills 2 table
kill_example = kill_lem 2 table refl table-Inv

wakeup_example :
    (u : Ptable) × (wakeup 1 table ≡ ok u)
    × ((j : ℕ) → j < nproc → u.procs j ≡ woken 1 (procs j))
    × (u.locked ≡ false)
    × Inv u
wakeup_example = wakeup_lem 1 table refl table-Inv

wait_example : Waits 1 table
wait_example = wait_lem 1 table refl refl table-Inv

busy_before : (k : ℕ) → k < 3 → is_unused (procs k).state ≡ false
busy_before zero h = refl
busy_before (suc zero) h = refl
busy_before (suc (suc zero)) h = refl
busy_before (suc (suc (suc k))) h = absurd (omega (arith, h))

fork_example :
    (u : Ptable) × (r : ℕ) × (fork noon 5000 6000 1 table ≡ ok (u, r))
    × Inv u
    × (u.locked ≡ false)
    × (u.next_pid ≡ 4 + 1)
    × ((k : ℕ) → k ≢ 3 → u.procs k ≡ procs k)
    × ForkEnds noon 5000 6000 1 table 3 u r
fork_example =
    fork_lem noon 5000 6000 1 table 3 refl (omega arith) refl (omega arith) refl busy_before
      (omega arith) refl refl table-Inv

abbrev crowded : Ptable
crowded = record table { procs = λ i. shell_slot }

fork_full_example : fork noon 5000 6000 1 crowded ≡ ok (crowded, minus_one)
fork_full_example = fork_full noon 5000 6000 1 crowded refl (λ j h. refl)

-- A file count, the heap sizes, and the dates of process 3, whose first date has year 0: the call
-- returns with the lock held.
shell_files : num_open_files 2 table ≡ ok (table, 1)
unfolding num_open_files open_files_from
shell_files = refl

shell_heap : mem_alloc 2 table ≡ ok (table, 0 ∷ [])
unfolding mem_alloc heap_sizes_from
shell_heap = refl

-- `kill(0)` finds the first free slot and returns 0.
kill_zero :
    (kill 0 table
      ≡ ok (record table { procs = update procs 3 (record empty_slot { killed = true }) }, 0))
unfolding kill find_slot
kill_zero = refl

sleep_resume :
    sleep 1 9 table
    ≡ ok (record table {
      locked = true;
      procs = update procs 1 (record shell_slot { chan = 9; state = sleeping });
    })
unfolding sleep
sleep_resume = refl

-- The scheduler takes the first runnable process, if there is one.
nothing_to_run : schedule noon 0 table ≡ (table, none)
unfolding schedule find_slot
nothing_to_run = refl

yield-schedule : (yield 1 table >>= λ u. ok (schedule noon 0 u).1) ≡ ok (some 1)
unfolding yield schedule find_slot
yield-schedule = refl

-- The shell kills the child, which is a zombie already, and then yields the processor.
abbrev killed_table : Ptable
killed_table = record table { procs = update procs 2 (record child_slot { killed = true }) }

abbrev yielded_table : Ptable
yielded_table = record killed_table {
  locked = true;
  procs = update killed_table.procs 1 (record shell_slot { state = runnable });
}

kills_child : kill 3 table ≡ ok (killed_table, 0)
unfolding kill find_slot
kills_child = refl

shell_yields : yield 1 killed_table ≡ ok yielded_table
unfolding yield
shell_yields = refl

-- The shell forks after that: its child is in slot 3.
abbrev allocated_table : Ptable
allocated_table = record killed_table {
  procs =
      update killed_table.procs 3
        (record empty_slot { created = noon; switched_out = noon; state = embryo; pid = 4 });
  next_pid = 5;
}

allocates_slot : allocproc_slot noon killed_table ≡ ok (allocated_table, some 3)
unfolding allocproc_slot find_slot
allocates_slot = ground arith

abbrev copied_table : Ptable
copied_table = copy_process 1 3 (set_stack 5000 3 allocated_table)

abbrev started_table : Ptable
started_table = record copied_table {
  procs = update copied_table.procs 3 (record (copied_table.procs 3) { state = runnable });
}

Runs-Inv_example : Inv (schedule noon 0 started_table).0
Runs-Inv_example =
    Runs-Inv
      (next
        (next
          (next
            (next
              (next (next here (kills 3 0 killed_table refl kills_child))
                (allocates noon allocated_table (some 3) refl (omega arith) allocates_slot))
              (stacks 5000 3 refl))
            (copies 1 3 (omega arith) refl refl))
          (starts 3 started_table refl refl refl))
        (schedules noon 0 (omega arith)))
      table-Inv

process_time_details_example :
    (dates : List RtcDate) × ((process_time_details 3 table
          ≡ ok (record table { locked = true }, dates, minus_one)
        × (acquire (record table { locked = true }) ≡ panic "acquire")
        × ((j : ℕ) × (j < nproc) × (lacks_date 3 (procs j) ≡ true)))
      ⊎ (process_time_details 3 table ≡ ok (table, dates, 0)
          × ((j : ℕ) → j < nproc → lacks_date 3 (procs j) ≡ false)))
process_time_details_example = process_time_details_lem 3 table refl
