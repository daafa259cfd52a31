-- ===== src/SysCall/Tests.antt =====
-- Concrete cases of the theorems on system call arguments.
use assignments.Base.{
  ℕ, ◌+◌, ◌≡◌, refl, ◌<◌, ◌≤◌, ◌≢◌, ◌⊎◌, arith, if◌then◌else◌, leb, ◌==◌, none, some,
}
use assignments.Memory.{Memory}
use assignments.SysCall.{User, word_at, fetchint, fetchstr, argint, argptr, argstr}
use assignments.SysCall.Args.{EndsAt, fetchint_lem, argptr_safe, fetchstr_lem}

-- A process of 8192 bytes. The stack holds a return address and two arguments, 256 and 64, and the
-- string at 256 is "ab".
abbrev bytes : Memory
bytes a =
    if a == 8005
    then 1
    else if a == 8008
    then 64
    else if a == 256
    then 97
    else if a == 257
    then 98
    else 0

abbrev user : User
user = record { sz = 8192; byte = bytes; esp = 8000 }

fetchint_example :
    fetchint user 8190 ≡ (if leb (8190 + 4) 8192 then some (word_at bytes 8190) else none)
fetchint_example = fetchint_lem user 8190 (omega arith) (omega arith)

reads_pointer : argptr user 0 64 ≡ some 256
unfolding argptr argint fetchint
reads_pointer = refl

argptr_safe_example : (argint user 0 ≡ some 256) × (256 < 8192) × (256 + 64 ≤ 8192)
argptr_safe_example = argptr_safe user 0 64 256 (omega arith) (omega arith) reads_pointer

fetchstr_example :
    ((len : ℕ) × (256 + len < 8192) × EndsAt bytes 256 len × (fetchstr user 256 ≡ some len))
    ⊎ (((j : ℕ) → 256 + j < 8192 → bytes (256 + j) ≢ 0) × (fetchstr user 256 ≡ none))
fetchstr_example = fetchstr_lem user 256

argstr_ab : argstr user 0 ≡ some (256, 2)
unfolding argstr argint fetchint fetchstr
argstr_ab = refl
