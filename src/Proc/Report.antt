-- ===== src/Proc/Report.antt =====
-- xv6-public/proc.c: the reporting system calls, with what they print as a list of values.
use assignments.Base.{
  ℕ, zero, suc, ◌+◌, List, [], ◌∷◌, ◌++◌, Bool, true, false, ◌==◌, ◌||◌, if◌then◌else◌, Res, ok,
  ◌>>=◌,
}
use assignments.Proc.{nproc, minus_one, RtcDate, Proc, Ptable, acquire, release}

abbrev pub count_files : List ℕ → ℕ
count_files [] = 0
count_files (f ∷ fs) = (if f == 0 then 0 else 1) + count_files fs

-- `numOpenFiles`: the loop over the table, and the number that is printed.
unfoldable pub open_files_from : ℕ → ℕ → ℕ → (ℕ → Proc) → ℕ
open_files_from zero i pid procs = 0
open_files_from (suc rounds) i pid procs =
    (if (procs i).pid == pid then count_files (procs i).ofile else 0)
    + open_files_from rounds (i + 1) pid procs

unfoldable pub num_open_files : ℕ → Ptable → Res (Ptable × ℕ)
num_open_files pid t =
    acquire t >>= λ u. release u >>= λ v. ok (v, open_files_from nproc 0 pid u.procs)

-- `memAlloc` prints the heap size of every slot with this pid.
unfoldable pub heap_sizes_from : ℕ → ℕ → ℕ → (ℕ → Proc) → List ℕ
heap_sizes_from zero i pid procs = []
heap_sizes_from (suc rounds) i pid procs =
    (if (procs i).pid == pid then (procs i).heap_size ∷ [] else [])
    ++ heap_sizes_from rounds (i + 1) pid procs

unfoldable pub mem_alloc : ℕ → Ptable → Res (Ptable × List ℕ)
mem_alloc pid t = acquire t >>= λ u. release u >>= λ v. ok (v, heap_sizes_from nproc 0 pid u.procs)

-- The loop of `getprocesstimedetails`: the dates it prints, and whether it returns -1 from the loop.
unfoldable pub times_from : ℕ → ℕ → ℕ → (ℕ → Proc) → List RtcDate × Bool
times_from zero i pid procs = ([], false)
times_from (suc rounds) i pid procs =
    let p = procs i in
    let rest = times_from rounds (i + 1) pid procs in
    if p.pid == pid
    then (if p.created.year == 0 || (p.switched_out.year == 0 || p.switched_in.year == 0)
        then ([], true)
        else (p.created ∷ p.switched_out ∷ p.switched_in ∷ rest.0, rest.1))
    else rest

-- `getprocesstimedetails`: the early return does not release the lock.
unfoldable pub process_time_details : ℕ → Ptable → Res (Ptable × List RtcDate × ℕ)
process_time_details pid t = acquire t >>= λ u.
    let (dates, early) = times_from nproc 0 pid u.procs in
    if early then ok (u, dates, minus_one) else release u >>= λ v. ok (v, dates, 0)
