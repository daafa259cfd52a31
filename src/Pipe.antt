-- ===== src/Pipe.antt =====
-- xv6-public/pipe.c: the pipe buffer. The pipe's lock makes each stretch between two sleeps one
-- step: a function runs until it returns or sleeps, and a reader or writer that was woken calls it
-- again with what is left of its work. `wakeup` is a list of the channels that are woken.
pub mod Window
pub mod Transfer
pub mod Stream
mod Tests
use assignments.Base.{
  ℕ, zero, suc, ◌+◌, ◌-◌, ◌%◌, List, [], ◌∷◌, Bool, true, false, ◌==◌, ltb, ◌||◌, ◌&&◌, not,
  if◌then◌else◌, get_or, set, add32, length, ◌++◌,
}

abbrev pub pipe_size : ℕ
pipe_size = 512

-- `struct pipe`; `nread` and `nwrite` are 32-bit counters that wrap.
pub record Pipe : Type 0 where
  pub buf : List ℕ
  pub nread : ℕ
  pub nwrite : ℕ
  pub readopen : Bool
  pub writeopen : Bool

pub data Chan : Type 0 where
  on_nread on_nwrite : Chan

-- `pipealloc` on the page that `kalloc` returned.
pub fresh : List ℕ → Pipe
fresh page = record { buf = page; nread = 0; nwrite = 0; readopen = true; writeopen = true }

-- The new pipe, the channel woken, and whether the page is freed.
pub pipeclose : Pipe → Bool → Pipe × Chan × Bool
pipeclose p writable =
    let q : Pipe =
      if writable then record p { writeopen = false } else record p { readopen = false } in
    (q, if writable then on_nread else on_nwrite, not q.readopen && not q.writeopen)

abbrev pub is_full : Pipe → Bool
is_full p = p.nwrite == add32 p.nread pipe_size

abbrev pub put : Pipe → ℕ → Pipe
put p x = record p { buf = set p.buf (p.nwrite % pipe_size) x; nwrite = add32 p.nwrite 1 }

pub data Wrote : Type 0 where
  written : Wrote
  broken : Wrote
  waits : List ℕ → Wrote

-- `pipewrite` from byte `addr[i]` on, to its return or to its next sleep, where `waits` has the bytes
-- that are left; and the channels woken, in order.
pub pipewrite : Pipe → Bool → List ℕ → Pipe × Wrote × List Chan
pipewrite p killed [] = (p, written, on_nread ∷ [])
pipewrite p killed (x ∷ rest) =
    let go = pipewrite (put p x) killed rest in
    if is_full p
    then (if not p.readopen || killed
        then (p, broken, [])
        else (p, waits (x ∷ rest), on_nread ∷ []))
    else go

abbrev pub got : Pipe → Pipe
got p = record p { nread = add32 p.nread 1 }

-- The copy loop of `piperead`, for at most `n` more bytes.
pub copy_out : ℕ → Pipe → Pipe × List ℕ
copy_out zero p = (p, [])
copy_out (suc n) p =
    let go = copy_out n (got p) in
    if p.nread == p.nwrite then (p, []) else (go.0, get_or p.buf (p.nread % pipe_size) 0 ∷ go.1)

pub data Read : Type 0 where
  bytes : List ℕ → Read
  killed : Read
  sleeps : Read

-- `piperead`, to its return or to its sleep.
pub piperead : Pipe → Bool → ℕ → Pipe × Read × List Chan
unfolding copy_out
piperead p is_killed n =
    if (p.nread == p.nwrite) && p.writeopen
    then (if is_killed then (p, killed, []) else (p, sleeps, []))
    else (let (q, out) = copy_out n p in (q, bytes out, on_nwrite ∷ []))
