-- ===== src/Kalloc.antt =====
-- xv6-public/kalloc.c: the page allocator, whose free list runs through the free pages themselves.
-- `kmem.lock` makes each call one step.
pub mod FreeList
pub mod Range
pub mod Owners
mod Tests
use assignments.Base.{
  ℕ, zero, suc, ◌+◌, ◌-◌, ◌*◌, ◌/◌, ◌%◌, Bool, true, false, ◌==◌, ltb, leb, ◌||◌, ◌&&◌, not,
  if◌then◌else◌, update, add32, sub32, Res, ok, panic, check, ◌>>=◌,
}

abbrev pub page_size : ℕ
page_size = 4096

abbrev pub kern_base : ℕ
kern_base = 0x80000000

abbrev pub phys_stop : ℕ
phys_stop = 0xE000000

-- `kmem` and the memory of the kernel: the word at each address. Address 0 is the null pointer.
pub record Kmem : Type 0 where
  pub word : ℕ → ℕ
  pub use_lock : Bool
  pub freelist : ℕ

-- `memset(v, 1, PGSIZE)`, seen in words.
abbrev pub fill_junk : (ℕ → ℕ) → ℕ → ℕ → ℕ
fill_junk word v a = if leb v a && ltb a (v + page_size) then 0x01010101 else word a

-- `PGROUNDUP`, on a 32-bit address.
abbrev pub page_round_up : ℕ → ℕ
page_round_up a = add32 a 4095 / page_size * page_size

-- `end` is the first address after the kernel.
module _ (end_addr : ℕ) where
  -- The test of `kfree`.
  abbrev pub is_page : ℕ → Bool
  is_page v = v % page_size == 0 && (not (ltb v end_addr) && ltb (sub32 v kern_base) phys_stop)

  pub kfree : Kmem → ℕ → Res Kmem
  kfree m v =
      check (is_page v) "kfree"
        (ok (record m { word = update (fill_junk m.word v) v m.freelist; freelist = v }))

  -- The loop of `freerange` from page `p` on, for at most `fuel` pages.
  pub freerange_from : ℕ → Kmem → ℕ → ℕ → Res Kmem
  unfolding kfree
  freerange_from zero m p vend = ok m
  freerange_from (suc fuel) m p vend =
      let rest = kfree m p >>= λ n. freerange_from fuel n (p + page_size) vend in
      if leb (p + page_size) vend then rest else ok m

  pub freerange : Kmem → ℕ → ℕ → Res Kmem
  unfolding freerange_from
  freerange m vstart vend = freerange_from (vend / page_size) m (page_round_up vstart) vend

  pub kinit1 : Kmem → ℕ → ℕ → Res Kmem
  unfolding freerange
  kinit1 m vstart vend = freerange (record m { use_lock = false }) vstart vend

  pub kinit2 : Kmem → ℕ → ℕ → Res Kmem
  unfolding freerange
  kinit2 m vstart vend = freerange m vstart vend >>= λ n. ok (record n { use_lock = true })

-- The page, or 0.
pub kalloc : Kmem → Kmem × ℕ
kalloc m = let r = m.freelist in (if r == 0 then m else record m { freelist = m.word r }, r)
