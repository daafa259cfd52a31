-- ===== src/Balloc.antt =====
-- xv6-public/fs.c: `balloc` and `bfree`, on the blocks as the buffer cache shows them. A block is
-- the memory of its bytes.
pub mod Bits
pub mod Fresh
mod Tests
use assignments.Base.{
  ℕ, zero, suc, ◌+◌, ◌-◌, ◌*◌, ◌/◌, ◌%◌, ◌^◌, Bool, true, false, ◌==◌, ltb, not, if◌then◌else◌,
  update, Option, none, some, Res, ok, panic, check, ◌>>=◌,
}
use assignments.Memory.{Memory}

-- Bits of a bitmap block.
abbrev pub bpb : ℕ
bpb = 4096

-- `sb.size` and `sb.bmapstart`, and the blocks of the disk.
pub record Fs : Type 0 where
  pub size : ℕ
  pub bmapstart : ℕ
  pub content : ℕ → Memory

abbrev pub store : Fs → ℕ → Memory → Fs
store s b m = record s { content = update s.content b m }

-- `BBLOCK(b, sb)`.
abbrev pub bitmap_block : Fs → ℕ → ℕ
bitmap_block s b = b / bpb + s.bmapstart

-- `bp->data[bi/8] & (1 << (bi % 8))` is 0.
abbrev pub bit_clear : Memory → ℕ → Bool
bit_clear m bi = m (bi / 8) / 2 ^ (bi % 8) % 2 == 0

-- A clear bit is set by adding it, and a set one cleared by subtracting it.
abbrev pub set_bit : Memory → ℕ → Memory
set_bit m bi = update m (bi / 8) (m (bi / 8) + 2 ^ (bi % 8))

abbrev pub clear_bit : Memory → ℕ → Memory
clear_bit m bi = update m (bi / 8) (m (bi / 8) - 2 ^ (bi % 8))

pub bzero : Fs → ℕ → Fs
bzero s b = store s b (λ k. 0)

-- The inner loop of `balloc` from bit `bi` on, in the bitmap block of block `b`.
pub find_bit : ℕ → ℕ → ℕ → Fs → Option ℕ
find_bit zero bi b s = none
find_bit (suc rounds) bi b s =
    let rest = find_bit rounds (bi + 1) b s in
    if ltb (b + bi) s.size
    then (if bit_clear (s.content (bitmap_block s b)) bi then some bi else rest)
    else none

-- Marks the block in use, and clears it.
pub claim : Fs → ℕ → ℕ → Fs
unfolding bzero
claim s b bi =
    bzero (store s (bitmap_block s b) (set_bit (s.content (bitmap_block s b)) bi)) (b + bi)

-- The outer loop of `balloc` from block `b` on.
pub balloc_from : ℕ → ℕ → Fs → Res (Fs × ℕ)
balloc_from zero b s = panic "balloc: out of blocks"
balloc_from (suc rounds) b s =
    let rest = balloc_from rounds (b + bpb) s in
    if ltb b s.size
    then elim (find_bit bpb 0 b s) [ some bi ↦ ok (claim s b bi, b + bi) | none ↦ rest ]
    else panic "balloc: out of blocks"

pub balloc : Fs → Res (Fs × ℕ)
balloc s = balloc_from (s.size / bpb + 1) 0 s

pub bfree : Fs → ℕ → Res Fs
bfree s b =
    let m = s.content (bitmap_block s b) in
    check (not (bit_clear m (b % bpb))) "freeing free block"
      (ok (store s (bitmap_block s b) (clear_bit m (b % bpb))))
