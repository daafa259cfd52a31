-- ===== src/Content/Tests.antt =====
-- A file of two bytes on the disk of Sample.
use assignments.Base.{ℕ, zero, suc, ◌/◌, ◌<◌, [], ◌∷◌, ◌≡◌, refl, ◌≢◌, true, arith, ok}
use assignments.Balloc.{Fs, store}
use assignments.Content.{bsize, bmap}
use assignments.Content.Map.{entry}
use assignments.Base.{none, some}
use assignments.Icache.{Inode, Disk}
use assignments.Content.{readi, writei, write_from, put_bytes, itrunc}
use assignments.Content.Bmap.{Mapped, Full, bmap_lem}
use assignments.Content.Trunc.{Truncated, itrunc_lem}
use assignments.Content.File.{IsInode, WriteResult, bytes_read, readi_lem, writei_lem, readi-writei}
use assignments.Content.Sample.{small_disk, small_addrs, small-IsFile}

abbrev small_inode : Inode
small_inode = record {
  dev = 1;
  inum = 5;
  ref = 1;
  locked = true;
  valid = true;
  copy = record { kind = 2; major = 0; minor = 0; nlink = 1; size = 2; addrs = small_addrs };
}

abbrev small_inodes : Disk
small_inodes dev inum = small_inode.copy

small-IsInode : IsInode 3 small_disk small_inode
small-IsInode = record {
  file = small-IsFile;
  regular = λ e. absurd (omega (arith, e));
  bounded = omega arith;
  filled = filled;
}
  where
    filled : (k : ℕ) → k < 2 → entry small_disk small_addrs (k / bsize) ≢ 0
    filled zero h e = absurd (omega (arith, e))
    filled (suc zero) h e = absurd (omega (arith, e))
    filled (suc (suc k)) h e = absurd (omega arith)

bmap_example : Mapped 3 small_disk small_addrs 13 (Full small_disk) (bmap 13 small_disk small_addrs)
bmap_example = bmap_lem 3 13 small_disk small_addrs small-IsFile (omega arith)

readi_example :
    readi (λ major. none) small_inode small_disk 1 9
    ≡ ok (small_disk, small_inode, bytes_read small_disk small_inode 1 9)
readi_example =
    readi_lem (λ major. none) 3 small_inode small_disk 1 9 small-IsInode (omega arith) (omega arith)

writei_example :
    WriteResult 3 small_disk small_inode small_inodes 1
      (7 ∷ 8 ∷ 9 ∷ [])
      (writei (λ major. none) small_inode small_inodes small_disk 1 (7 ∷ 8 ∷ 9 ∷ []))
writei_example =
    writei_lem (λ major. none) 3 small_inode small_inodes small_disk 1 (7 ∷ 8 ∷ 9 ∷ [])
      small-IsInode (omega arith) (omega arith)

abbrev second_disk : Fs
second_disk = store small_disk 3 (put_bytes (small_disk.content 3) 1 (7 ∷ []))

second_write :
    writei (λ major. none) small_inode small_inodes small_disk 1 (7 ∷ [])
    ≡ ok (second_disk, small_inode, small_inodes, some 1)
unfolding writei write_from bmap
second_write = refl

readi-writei_example :
    readi (λ major. none) small_inode second_disk 1 1 ≡ ok (second_disk, small_inode, some (7 ∷ []))
readi-writei_example =
    readi-writei (λ major. none) (λ major. none) 3 small_inode small_inode small_inodes small_inodes
      small_disk second_disk 1 (7 ∷ []) small-IsInode (omega arith) (omega arith) second_write

itrunc_example :
    (t : Fs) × (jp : Inode) × (after : Disk) × (itrunc small_inode small_inodes small_disk
      ≡ ok (t, jp, after))
    × Truncated 3 small_disk small_inode small_inodes t jp after
itrunc_example = itrunc_lem 3 small_inode small_inodes small_disk small-IsInode
