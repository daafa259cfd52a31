-- ===== src/Memory/Tests.antt =====
-- Concrete cases of the theorems on memory.
use assignments.Base.{ℕ, ◌+◌, ◌≡◌, inl, arith, ltb, leb, ◌&&◌, if◌then◌else◌, ◌%◌}
use assignments.Memory.{Memory, memmove, user_memmove, memset}
use assignments.Memory.Move.{
  moved, memmove-moved, user_memmove-moved, user_memmove_overlap, memset_lem,
}

-- Byte `a` of this memory is `a % 256`.
abbrev counting : Memory
counting a = a % 256

memmove-moved_example : memmove 11 10 4 counting 13 ≡ moved 11 10 4 counting 13
memmove-moved_example = memmove-moved 11 10 4 counting 13

user_memmove-moved_example : user_memmove 10 11 4 counting 12 ≡ moved 10 11 4 counting 12
user_memmove-moved_example = user_memmove-moved 10 11 4 counting 12 (inl (omega arith))

user_memmove_overlap_example :
    ¬ ((a : ℕ) → user_memmove 11 10 2 counting a ≡ moved 11 10 2 counting a)
user_memmove_overlap_example =
    user_memmove_overlap 10 2 counting (omega arith) (λ e. absurd (omega (arith, e)))

memset_example :
    memset 8 257 8 counting 15 ≡ (if leb 8 15 && ltb 15 (8 + 8) then 257 % 256 else counting 15)
memset_example = memset_lem 8 257 8 counting 15
