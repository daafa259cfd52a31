-- ===== src/Icache.antt =====
-- xv6-public/fs.c: the inode cache, over the inodes on the disk. `icache.lock` makes each stretch
-- that it protects one step. A disk inode is read and written through the buffer cache and the log
-- (modules Bcache and Log); here the disk is a function from device and number.
pub mod Unique
mod Tests
use assignments.Base.{
  ℕ, zero, suc, ◌+◌, ◌-◌, List, [], ◌∷◌, Bool, true, false, ◌==◌, ltb, ◌&&◌, ◌||◌, not,
  if◌then◌else◌, update, add32, int_lt, Option, none, some, Res, ok, panic, check, ◌≡◌, refl,
  ==_refl, ◌>>=◌, replicate,
}

abbrev pub ninode : ℕ
ninode = 50

-- `struct dinode`.
pub record Dinode : Type 0 where
  pub kind : ℕ
  pub major : ℕ
  pub minor : ℕ
  pub nlink : ℕ
  pub size : ℕ
  pub addrs : List ℕ

-- `struct inode`: the cache entry and its copy of the disk inode.
pub record Inode : Type 0 where
  pub dev : ℕ
  pub inum : ℕ
  pub ref : ℕ
  pub locked : Bool
  pub valid : Bool
  pub copy : Dinode

abbrev pub Disk : Type 0
Disk = ℕ → ℕ → Dinode

abbrev pub holds : ℕ → ℕ → Inode → Bool
holds dev inum ip = int_lt 0 ip.ref && (ip.dev == dev && ip.inum == inum)

-- What the loop of `iget` ends with: a cached entry, or the empty entry that it remembers.
pub data Scan : Type 0 where
  cached : ℕ → Scan
  not_cached : Option ℕ → Scan

abbrev pub remember : Option ℕ → ℕ → Inode → Option ℕ
remember (some j) i ip = some j
remember none i ip = if ip.ref == 0 then some i else none

pub search_from : ℕ → ℕ → Option ℕ → ℕ → ℕ → (ℕ → Inode) → Scan
search_from zero i empty dev inum nodes = not_cached empty
search_from (suc rounds) i empty dev inum nodes =
    let rest = search_from rounds (i + 1) (remember empty i (nodes i)) dev inum nodes in
    if holds dev inum (nodes i) then cached i else rest

-- The entry that `iget` fills.
abbrev pub claimed : ℕ → ℕ → Inode → Inode
claimed dev inum ip = record ip { dev = dev; inum = inum; ref = 1; valid = false }

pub iget : ℕ → ℕ → (ℕ → Inode) → Res ((ℕ → Inode) × ℕ)
unfolding search_from
iget dev inum nodes = elim (search_from ninode 0 none dev inum nodes) [
  | cached i ↦ ok (update nodes i (record (nodes i) { ref = add32 (nodes i).ref 1 }), i)
  | not_cached (some i) ↦ ok (update nodes i (claimed dev inum (nodes i)), i)
  | not_cached none ↦ panic "iget: no inodes"
]

pub idup : ℕ → (ℕ → Inode) → ℕ → Inode
idup i nodes = update nodes i (record (nodes i) { ref = add32 (nodes i).ref 1 })

-- `iupdate`: the whole copy goes to the disk.
pub iupdate : Inode → Disk → Disk
iupdate ip disk dev inum = if dev == ip.dev && inum == ip.inum then ip.copy else disk dev inum

pub iupdate_self : (ip : Inode) (disk : Disk) → iupdate ip disk ip.dev ip.inum ≡ ip.copy
unfolding iupdate
iupdate_self ip disk = rw (==_refl ip.dev, ==_refl ip.inum) refl

-- `ilock` once the sleep lock is free: the entry, with the disk inode if it was not valid.
pub ilock : Disk → Inode → Res Inode
ilock disk ip =
    let read = record ip { locked = true; valid = true; copy = disk ip.dev ip.inum } in
    check (not (int_lt ip.ref 1)) "ilock" (
      if ip.valid
      then ok (record ip { locked = true })
      else check (not (read.copy.kind == 0)) "ilock: no type" (ok read))

pub iunlock : Inode → Res Inode
iunlock ip =
    check (ip.locked && not (int_lt ip.ref 1)) "iunlock" (ok (record ip { locked = false }))

-- The loop of `ialloc` from inode `inum` on: the first free one.
pub find_free : ℕ → ℕ → ℕ → Disk → Option ℕ
find_free zero inum dev disk = none
find_free (suc rounds) inum dev disk =
    let rest = find_free rounds (inum + 1) dev disk in
    if (disk dev inum).kind == 0 then some inum else rest

-- `ialloc` on a file system of `ninodes` inodes, up to its call of `iget`: the disk and the inode.
pub ialloc : ℕ → ℕ → ℕ → Disk → Res (Disk × ℕ)
unfolding find_free
ialloc ninodes dev kind disk = elim (find_free (ninodes - 1) 1 dev disk) [
  | none ↦ panic "ialloc: no inodes"
  | some inum ↦
      let blank : Dinode = record {
        kind = kind;
        major = 0;
        minor = 0;
        nlink = 0;
        size = 0;
        addrs = replicate 13 0;
      } in
      ok ((λ e n. if e == dev && n == inum then blank else disk e n), inum)
]
