-- ===== src/Content.antt =====
-- xv6-public/fs.c: the content of an inode. A block number in an inode's `addrs` is 0 where the file
-- has no block yet. The inode is the copy that the cache holds (`Icache.Dinode`), and the blocks are
-- those of `Balloc`.
pub mod Words
pub mod Map
pub mod Grow
pub mod Bmap
pub mod Stores
pub mod Write
pub mod Read
pub mod File
pub mod Frees
pub mod Trunc
pub mod Sample
mod Tests
use assignments.Base.{
  ℕ, zero, suc, ◌+◌, ◌-◌, ◌*◌, ◌/◌, ◌%◌, List, [], ◌∷◌, ◌++◌, Bool, true, false, ◌==◌, ltb, leb,
  ◌&&◌, ◌||◌, not, if◌then◌else◌, update, get_or, set, take, drop, length, add32, min, Option, none,
  some, Res, ok, panic, check, ◌>>=◌,
}
use assignments.Memory.{Memory}
use assignments.Icache.{Inode, Dinode, Disk, iupdate}
use assignments.Balloc.{Fs, store, balloc, bfree}

abbrev pub bsize : ℕ
bsize = 512

abbrev pub ndirect : ℕ
ndirect = 12

abbrev pub nindirect : ℕ
nindirect = 128

abbrev pub maxfile : ℕ
maxfile = 140

-- The word `a[k]` of a block of words, its low byte first, and a store to it.
abbrev pub word_at : Memory → ℕ → ℕ
word_at m k = m (4 * k) + m (4 * k + 1) * 256 + m (4 * k + 2) * 65536 + m (4 * k + 3) * 16777216

abbrev pub put_word : Memory → ℕ → ℕ → Memory
put_word m k x =
    update
      (update (update (update m (4 * k) (x % 256)) (4 * k + 1) (x / 256 % 256)) (4 * k + 2)
        (x / 65536 % 256))
      (4 * k + 3) (x / 16777216 % 256)

-- The part of `bmap` that has the indirect block `b`: entry `k`.
pub bmap_indirect : ℕ → ℕ → Fs → List ℕ → Res (Fs × List ℕ × ℕ)
bmap_indirect k b s addrs =
    let addr = word_at (s.content b) k in
    if addr == 0
    then (balloc s >>= λ (t, a). ok (store t b (put_word (t.content b) k a), addrs, a))
    else ok (s, addrs, addr)

-- `bmap`: the blocks, the addresses of the inode, and the block.
unfoldable pub bmap : ℕ → Fs → List ℕ → Res (Fs × List ℕ × ℕ)
bmap bn s addrs =
    if ltb bn ndirect
    then (if get_or addrs bn 0 == 0
        then (balloc s >>= λ (t, a). ok (t, set addrs bn a, a))
        else ok (s, addrs, get_or addrs bn 0))
    else if ltb (bn - ndirect) nindirect
    then (if get_or addrs ndirect 0 == 0
        then (balloc s >>= λ (t, a). bmap_indirect (bn - ndirect) a t (set addrs ndirect a))
        else bmap_indirect (bn - ndirect) (get_or addrs ndirect 0) s addrs)
    else panic "bmap: out of range"

-- `memmove(dst, bp->data + k, m)`, and `memmove(bp->data + k, src, m)`.
abbrev pub bytes_at : Memory → ℕ → ℕ → List ℕ
bytes_at m k zero = []
bytes_at m k (suc n) = m k ∷ bytes_at m (k + 1) n

abbrev pub put_bytes : Memory → ℕ → List ℕ → Memory
put_bytes m k [] = m
put_bytes m k (c ∷ cs) = put_bytes (update m k c) (k + 1) cs

-- The loop of `readi` with `left` bytes to go (`n - tot`), each round of which reads a byte or more.
unfoldable pub read_from : ℕ → ℕ → ℕ → Fs → List ℕ → Res (Fs × List ℕ × List ℕ)
read_from zero left off s addrs = ok (s, addrs, [])
read_from (suc fuel) left off s addrs =
    let m = min left (bsize - off % bsize) in
    let round = bmap (off / bsize) s addrs >>= λ (t, ad, b).
    read_from fuel (left - m) (off + m) t ad >>= λ (u, bs, rest).
    ok (u, bs, bytes_at (t.content b) (off % bsize) m ++ rest) in
    if ltb 0 left then round else ok (s, addrs, [])

-- The loop of `writei` on the bytes that are left; the offset is where it ends.
unfoldable pub write_from : ℕ → ℕ → List ℕ → Fs → List ℕ → Res (Fs × List ℕ × ℕ)
write_from zero off src s addrs = ok (s, addrs, off)
write_from (suc fuel) off src s addrs =
    let m = min (length src) (bsize - off % bsize) in
    let round = bmap (off / bsize) s addrs >>= λ (t, ad, b).
    write_from fuel (off + m) (drop m src)
      (store t b (put_bytes (t.content b) (off % bsize) (take m src))) ad in
    if ltb 0 (length src) then round else ok (s, addrs, off)

abbrev pub ndev : ℕ
ndev = 10

abbrev pub t_dev : ℕ
t_dev = 3

-- The inode with other addresses in its copy.
abbrev pub with_addrs : Inode → List ℕ → Inode
with_addrs ip ad = record ip { copy = record ip.copy { addrs = ad } }

-- `devsw[major].read` takes a number of bytes and gives the bytes that it read, `none` for -1. A
-- negative major number is a large one here.
module _ (device : ℕ → Option (ℕ → Option (List ℕ))) where
  -- `readi`: the bytes read; `none` is -1.
  unfoldable pub readi : Inode → Fs → ℕ → ℕ → Res (Fs × Inode × Option (List ℕ))
  readi ip s off n =
      if ip.copy.kind == t_dev
      then ok (
        s,
        ip,
        if leb ndev ip.copy.major
            then none
            else elim (device ip.copy.major) [ none ↦ none | some read ↦ read n ],
      )
      else if ltb ip.copy.size off || ltb (add32 off n) off
      then ok (s, ip, none)
      else (let left = if ltb ip.copy.size (add32 off n) then ip.copy.size - off else n in
          read_from left left off s ip.copy.addrs >>= λ (t, ad, bs).
          ok (t, with_addrs ip ad, some bs))

-- `devsw[major].write` takes bytes and gives the number that it wrote.
module _ (device : ℕ → Option (List ℕ → Option ℕ)) where
  -- `writei`: the blocks, the inode, the inodes on the disk, and the number of bytes written.
  unfoldable pub writei : Inode → Disk → Fs → ℕ → List ℕ → Res (Fs × Inode × Disk × Option ℕ)
  writei ip disk s off src =
      let n = length src in
      if ip.copy.kind == t_dev
      then ok (
        s,
        ip,
        disk,
        if leb ndev ip.copy.major
            then none
            else elim (device ip.copy.major) [ none ↦ none | some write ↦ write src ],
      )
      else if ltb ip.copy.size off || ltb (add32 off n) off
      then ok (s, ip, disk, none)
      else if ltb (maxfile * bsize) (add32 off n)
      then ok (s, ip, disk, none)
      else (write_from n off src s ip.copy.addrs >>= λ (t, ad, end).
          let same = with_addrs ip ad in
          let grown = record same { copy = record same.copy { size = end } } in
          ok (
            if ltb 0 n && ltb ip.copy.size end
            then (t, grown, iupdate grown disk, some n)
            else (t, same, disk, some n)))

-- The loop of `itrunc` over the direct blocks.
pub free_direct : ℕ → ℕ → Fs → List ℕ → Res (Fs × List ℕ)
free_direct zero i s addrs = ok (s, addrs)
free_direct (suc rounds) i s addrs =
    let freed = bfree s (get_or addrs i 0) >>= λ t. free_direct rounds (i + 1) t (set addrs i 0) in
    let rest = free_direct rounds (i + 1) s addrs in
    if not (get_or addrs i 0 == 0) then freed else rest

-- The loop over the entries of the indirect block `m`.
pub free_indirect : ℕ → ℕ → Memory → Fs → Res Fs
free_indirect zero j m s = ok s
free_indirect (suc rounds) j m s =
    let freed = bfree s (word_at m j) >>= free_indirect rounds (j + 1) m in
    let rest = free_indirect rounds (j + 1) m s in if not (word_at m j == 0) then freed else rest

-- `itrunc`.
pub itrunc : Inode → Disk → Fs → Res (Fs × Inode × Disk)
itrunc ip disk s = free_direct ndirect 0 s ip.copy.addrs >>= λ (t, ad).
    (if not (get_or ad ndirect 0 == 0)
      then (free_indirect nindirect 0 (t.content (get_or ad ndirect 0)) t >>= λ u.
          bfree u (get_or ad ndirect 0) >>= λ v. ok (v, set ad ndirect 0))
      else ok (t, ad))
    >>= λ (w, bd).
        let empty = record (with_addrs ip bd) { copy = record ip.copy { addrs = bd; size = 0 } } in
        ok (w, empty, iupdate empty disk)
