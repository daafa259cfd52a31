-- ===== src/Log.antt =====
-- xv6-public/log.c: the redo log. A lock-protected section is one function, and where the code
-- sleeps the function returns `none`, to be tried again after a wakeup.
pub mod Replay
pub mod Head
pub mod Phases
pub mod Finish
pub mod Crash
pub mod Commit
pub mod Total
pub mod Write
pub mod Reserve
pub mod History
mod Tests
use assignments.Base.{
  ℕ, zero, suc, ◌+◌, ◌-◌, ◌*◌, List, Bool, false, Option, none, some, ◌==◌, ltb, leb, ◌||◌,
  if◌then◌else◌, get_or, set, add32, sub32, int_lt, Res, ok, check, ◌>>=◌, not,
}
use assignments.Buffers.{Buffers, modify, bwrite}

abbrev pub max_op_blocks : ℕ
max_op_blocks = 10

abbrev pub log_size : ℕ
log_size = 30

-- `struct log` with its `struct logheader`: `block` has LOGSIZE entries, of which `n` are in use.
pub record Log : Type 0 where
  pub start : ℕ
  pub size : ℕ
  pub outstanding : ℕ
  pub committing : Bool
  pub n : ℕ
  pub block : List ℕ

pub record System : Type 0 where
  pub log : Log
  pub open log use *
  pub buffers : Buffers
  pub open buffers use *

-- `for (i = 0; i < rounds; i++) dst[i+a] = src[i+b];`
pub copy_from : ℕ → ℕ → ℕ → ℕ → List ℕ → List ℕ → List ℕ
copy_from a b zero i src dst = dst
copy_from a b (suc rounds) i src dst =
    copy_from a b rounds (i + 1) src (set dst (i + a) (get_or src (i + b) 0))

-- The `struct logheader` in the first words of a block: `n`, then `block`.
pub read_head : System → System
unfolding copy_from
read_head s =
    let words = s.content s.start in
    let n = get_or words 0 0 in
    record s { log = record s.log { n = n; block = copy_from 0 1 n 0 words s.block } }

pub write_head : System → System
unfolding copy_from
write_head s =
    let words = copy_from 1 0 s.n 0 s.block (set (s.content s.start) 0 s.n) in
    record s { buffers = bwrite (modify s.buffers s.start words) s.start }

-- The rounds of `install_trans` from `tail` on.
pub install_from : ℕ → ℕ → System → System
install_from zero tail s = s
install_from (suc rounds) tail s =
    let dst = get_or s.block tail 0 in
    let moved = modify s.buffers dst (s.content (s.start + tail + 1)) in
    install_from rounds (tail + 1) (record s { buffers = bwrite moved dst })

pub install_trans : System → System
unfolding install_from
install_trans s = install_from s.n 0 s

-- The rounds of `write_log` from `tail` on.
pub write_log_from : ℕ → ℕ → System → System
write_log_from zero tail s = s
write_log_from (suc rounds) tail s =
    let to = s.start + tail + 1 in
    let moved = modify s.buffers to (s.content (get_or s.block tail 0)) in
    write_log_from rounds (tail + 1) (record s { buffers = bwrite moved to })

pub write_log : System → System
unfolding write_log_from
write_log s = write_log_from s.n 0 s

abbrev clear : System → System
clear s = record s { log = record s.log { n = 0 } }

pub commit : System → System
unfolding write_log write_head install_trans
commit s = if ltb 0 s.n then write_head (clear (install_trans (write_head (write_log s)))) else s

pub recover_from_log : System → System
unfolding read_head install_trans write_head
recover_from_log s = write_head (clear (install_trans (read_head s)))

-- `readsb` takes `nlog` and `logstart` from words 3 and 4 of block 1.
pub initlog : System → System
unfolding recover_from_log
initlog s =
    let sb = s.content 1 in
    recover_from_log
      (record s { log = record s.log { start = get_or sb 4 0; size = get_or sb 3 0 } })

-- One round of `begin_op`; `none` is `sleep(&log, &log.lock)`.
pub begin_op : Log → Option Log
begin_op l =
    if l.committing
    then none
    else if int_lt log_size (add32 l.n (add32 l.outstanding 1 * max_op_blocks))
    then none
    else some (record l { outstanding = add32 l.outstanding 1 })

-- The first critical section of `end_op`: the new state and `do_commit`.
pub end_op_first : Log → Res (Log × Bool)
end_op_first l =
    let left = sub32 l.outstanding 1 in
    check (not l.committing) "log.committing"
      (ok (record l { outstanding = left; committing = left == 0 }, left == 0))

-- The second one, after the commit.
pub end_op_last : Log → Log
end_op_last l = record l { committing = false }

pub end_op : System → Res System
unfolding end_op_first commit end_op_last
end_op s = end_op_first s.log >>= λ (l, do_commit).
    let t = record s { log = l } in
    ok (if do_commit then (let c = commit t in record c { log = end_op_last c.log }) else t)

-- The loop of `log_write`: the first entry from `i` on that is `b`, or the end `i + rounds`.
pub find_from : ℕ → ℕ → List ℕ → ℕ → ℕ
find_from zero i block b = i
find_from (suc rounds) i block b =
    let next = find_from rounds (i + 1) block b in if get_or block i 0 == b then i else next

-- The critical section of `log_write`: the block is logged and pinned by B_DIRTY.
pub recorded : System → ℕ → System
unfolding find_from
recorded s b =
    let i = find_from s.n 0 s.block b in
    record s {
      log = record s.log { block = set s.block i b; n = if i == s.n then s.n + 1 else s.n };
      buffers = record s.buffers { dirty = λ j. j == b || s.dirty j };
    }

pub log_write : System → ℕ → Res System
unfolding recorded
log_write s b =
    check (not (leb log_size s.n || leb (s.size - 1) s.n)) "too big a transaction"
      (check (not (int_lt s.outstanding 1)) "log_write outside of trans" (ok (recorded s b)))
