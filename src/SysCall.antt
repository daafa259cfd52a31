-- ===== src/SysCall.antt =====
-- xv6-public/syscall.c: how the kernel reads the arguments of a system call from the calling process.
pub mod Args
mod Tests
use assignments.Base.{
  ℕ, zero, suc, ◌+◌, ◌-◌, ◌*◌, Bool, ltb, leb, ◌==◌, ◌||◌, if◌then◌else◌, add32, int_lt, Option,
  none, some,
}
use assignments.Memory.{Memory}

-- What the calls use of the running process: its size, its memory, and the stack pointer of its
-- trap frame.
pub record User : Type 0 where
  pub sz : ℕ
  pub byte : Memory
  pub esp : ℕ

-- The word at an address, its low byte first.
abbrev pub word_at : Memory → ℕ → ℕ
word_at m a = m a + m (a + 1) * 256 + m (a + 2) * 65536 + m (a + 3) * 16777216

-- `none` is the result -1.
pub fetchint : User → ℕ → Option ℕ
fetchint p addr =
    if leb p.sz addr || ltb p.sz (add32 addr 4) then none else some (word_at p.byte addr)

-- The loop of `fetchstr` from `s` on, `len` bytes after the start.
pub scan_from : ℕ → Memory → ℕ → ℕ → Option ℕ
scan_from zero m s len = none
scan_from (suc rounds) m s len =
    let rest = scan_from rounds m (s + 1) (len + 1) in if m s == 0 then some len else rest

-- The length of the string; `*pp` is `addr`.
pub fetchstr : User → ℕ → Option ℕ
unfolding scan_from
fetchstr p addr = if leb p.sz addr then none else scan_from (p.sz - addr) p.byte addr 0

pub argint : User → ℕ → Option ℕ
unfolding fetchint
argint p n = fetchint p (add32 (add32 p.esp 4) (4 * n))

-- `size` is an `int`, negative from 2 ^ 31 on.
pub argptr : User → ℕ → ℕ → Option ℕ
unfolding argint
argptr p n size = elim (argint p n) [
  | none ↦ none
  | some i ↦ if int_lt size 0 || (leb p.sz i || ltb p.sz (add32 i size)) then none else some i
]

-- The address and the length of the string.
pub argstr : User → ℕ → Option (ℕ × ℕ)
unfolding argint fetchstr
argstr p n = elim (argint p n) [
  | none ↦ none
  | some addr ↦ elim (fetchstr p addr) [ none ↦ none | some len ↦ some (addr, len) ]
]
