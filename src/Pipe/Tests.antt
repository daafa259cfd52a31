-- ===== src/Pipe/Tests.antt =====
-- Runs of a pipe, and concrete cases of its theorems.
use assignments.Base.{ℕ, ◌∷◌, [], List, ◌≡◌, refl, ◌<◌, arith, true, false, length, replicate}
use assignments.Pipe.{
  on_nread, on_nwrite, Pipe, pipe_size, fresh, pipeclose, broken, waits, pipewrite, copy_out,
  piperead, bytes, sleeps,
}
use assignments.Pipe.Window.{IsValid, used}
use assignments.Pipe.Transfer.{Writes, pipewrite_lem, Delivers, copy_out-Delivers}
use assignments.Pipe.Stream.{
  Stream, Turn, writes, reads, run, all_bytes, run-all_bytes, writer_sleeps_full,
}

-- Both counters stand just below 2 ^ 32, and the buffer holds two bytes.
abbrev wrapping : Pipe
wrapping = record {
  buf = replicate 512 9;
  nread = 0xFFFFFFFD;
  nwrite = 0xFFFFFFFF;
  readopen = true;
  writeopen = true;
}

wrapping-IsValid : IsValid wrapping
wrapping-IsValid = record {
  room = omega arith;
  read_word = omega arith;
  write_word = omega arith;
  fits = omega arith;
}

-- Two bytes short of a full buffer.
abbrev almost_full : Pipe
almost_full = record wrapping { nread = 0; nwrite = 510 }

almost_full-IsValid : IsValid almost_full
almost_full-IsValid = record {
  room = omega arith;
  read_word = omega arith;
  write_word = omega arith;
  fits = omega arith;
}

abbrev three : List ℕ
three = 1 ∷ 2 ∷ 3 ∷ []

pipewrite_example : Writes wrapping false three (pipewrite wrapping false three)
pipewrite_example = pipewrite_lem wrapping false three wrapping-IsValid

copy_out-Delivers_example : Delivers wrapping 1 (copy_out 1 wrapping)
copy_out-Delivers_example = copy_out-Delivers 1 wrapping wrapping-IsValid

abbrev stream : Stream
stream = record { pipe = wrapping; pending = three; received = [] }

abbrev turns : List Turn
turns = reads 1 ∷ writes ∷ reads 4 ∷ []

run-all_bytes_example :
    IsValid (run stream turns).pipe × (all_bytes (run stream turns) ≡ all_bytes stream)
run-all_bytes_example = run-all_bytes turns stream wrapping-IsValid refl

almost_full_waits : (pipewrite almost_full false three).1 ≡ waits (3 ∷ [])
unfolding pipewrite
almost_full_waits = refl

writer_sleeps_full_example :
    ((pipewrite almost_full false three).2 ≡ on_nread ∷ [])
    × (used (pipewrite almost_full false three).0 ≡ pipe_size)
    × ((out : List ℕ) × ((piperead (pipewrite almost_full false three).0 false 5).1 ≡ bytes out)
        × (0 < length out)
        × ((piperead (pipewrite almost_full false three).0 false 5).2 ≡ on_nwrite ∷ []))
writer_sleeps_full_example =
    writer_sleeps_full almost_full three (3 ∷ []) 4 almost_full-IsValid almost_full_waits

-- The reader of an empty pipe sleeps, gets nothing once the write end is closed, and the page is
-- freed by the second `pipeclose`.
abbrev new_pipe : Pipe
new_pipe = record {
  buf = replicate 512 0;
  nread = 0;
  nwrite = 0;
  readopen = true;
  writeopen = true;
}

fresh_pipe : fresh (replicate 512 0) ≡ new_pipe
unfolding fresh
fresh_pipe = refl

empty_sleeps : (piperead new_pipe false 4).1 ≡ sleeps
unfolding piperead
empty_sleeps = refl

closed_ends : (piperead (pipeclose new_pipe true).0 false 4).1 ≡ bytes []
unfolding piperead pipeclose copy_out
closed_ends = refl

last_close_frees : (pipeclose (pipeclose new_pipe true).0 false).2 ≡ true
unfolding pipeclose
last_close_frees = refl

-- A write to a pipe without a reader fails once the buffer is full.
full_broken : (pipewrite (record almost_full { readopen = false }) false three).1 ≡ broken
unfolding pipewrite
full_broken = refl
