-- ===== src/Memory.antt =====
-- `memmove` of xv6-public/string.c (kernel) and of ulib.c (user programs), and `memset`, on a byte
-- memory. A block of memory does not wrap around the address space.
pub mod Move
mod Tests
use assignments.Base.{
  ℕ, zero, suc, ◌+◌, ◌-◌, ◌%◌, ◌/◌, ◌*◌, Bool, ◌==◌, ltb, leb, ◌&&◌, if◌then◌else◌, update,
}

abbrev pub Memory : Type 0
Memory = ℕ → ℕ

-- `while(n-- > 0) *--d = *--s;`
pub copy_down : ℕ → ℕ → ℕ → Memory → Memory
copy_down zero d s m = m
copy_down (suc n) d s m = copy_down n (d - 1) (s - 1) (update m (d - 1) (m (s - 1)))

-- `while(n-- > 0) *d++ = *s++;`
pub copy_up : ℕ → ℕ → ℕ → Memory → Memory
copy_up zero d s m = m
copy_up (suc n) d s m = copy_up n (d + 1) (s + 1) (update m d (m s))

-- The kernel's `memmove(dst, src, n)`.
pub memmove : ℕ → ℕ → ℕ → Memory → Memory
unfolding copy_down copy_up
memmove dst src n m =
    if ltb src dst && ltb dst (src + n)
    then copy_down n (dst + n) (src + n) m
    else copy_up n dst src m

-- The user library's `memmove(vdst, vsrc, n)`.
pub user_memmove : ℕ → ℕ → ℕ → Memory → Memory
unfolding copy_up
user_memmove dst src n m = copy_up n dst src m

-- `stosb`: `n` bytes; `stosl`: `n` words, of which `x` is the value.
pub store_bytes : ℕ → ℕ → ℕ → Memory → Memory
store_bytes zero d c m = m
store_bytes (suc n) d c m = store_bytes n (d + 1) c (update m d (c % 256))

pub store_words : ℕ → ℕ → ℕ → Memory → Memory
store_words zero d x m = m
store_words (suc n) d x m = store_words n (d + 4) x (
    update
      (update (update (update m d (x % 256)) (d + 1) (x / 256 % 256)) (d + 2) (x / 65536 % 256))
      (d + 3) (x / 16777216 % 256))

-- The kernel's `memset(dst, c, n)`; the bytes of the word do not overlap, so `|` adds them up.
pub memset : ℕ → ℕ → ℕ → Memory → Memory
unfolding store_bytes store_words
memset dst c n m =
    let b = c % 256 in
    if dst % 4 == 0 && n % 4 == 0
    then store_words (n / 4) dst (b * 16777216 + b * 65536 + b * 256 + b) m
    else store_bytes n dst c m
