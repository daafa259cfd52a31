-- ===== src/Icache/Tests.antt =====
-- Runs of the inode cache, and a concrete case of its theorem.
use assignments.Base.{
  ℕ, ◌≡◌, refl, ◌<◌, ◌==◌, if◌then◌else◌, true, false, update, replicate, ok, panic, ◌>>=◌, arith,
}
use assignments.Icache.{
  ninode, Dinode, Inode, Disk, holds, search_from, claimed, iget, idup, iupdate, ilock, iunlock,
  find_free, ialloc,
}
use assignments.Icache.Unique.{Unique, Small, iget-Unique}

abbrev no_inode : Dinode
no_inode = record { kind = 0; major = 0; minor = 0; nlink = 0; size = 0; addrs = replicate 13 0 }

abbrev root_inode : Dinode
root_inode = record no_inode { kind = 1; nlink = 1 }

-- Inode 1 is the root directory, and the others are free.
abbrev disk : Disk
disk dev inum = if inum == 1 then root_inode else no_inode

abbrev empty_entry : Inode
empty_entry = record { dev = 0; inum = 0; ref = 0; locked = false; valid = false; copy = no_inode }

abbrev root_entry : Inode
root_entry = record empty_entry { dev = 1; inum = 1; ref = 1; valid = true; copy = root_inode }

abbrev nodes : ℕ → Inode
nodes i = if i == 0 then root_entry else empty_entry

abbrev nodes_after : ℕ → Inode
nodes_after = update nodes 1 (claimed 1 2 empty_entry)

gets_second : iget 1 2 nodes ≡ ok (nodes_after, 1)
unfolding iget search_from
gets_second = refl

in_use : (i : ℕ) → 0 < (nodes i).ref → i ≡ 0
in_use i h = ground arith

nodes-Small : Small nodes
nodes-Small i h = ground arith

nodes-Unique : Unique nodes
nodes-Unique i j h k a b d n = omega (arith, in_use i a, in_use j b)

iget-Unique_example : (1 < ninode) × (holds 1 2 (nodes_after 1) ≡ true) × Unique nodes_after
iget-Unique_example = iget-Unique 1 2 nodes nodes_after 1 nodes-Small nodes-Unique gets_second

ialloc_second : (ialloc 200 1 1 disk >>= λ (d, inum). ok inum) ≡ ok 2
unfolding ialloc find_free
ialloc_second = refl

ilock_free : ilock disk (record empty_entry { dev = 1; inum = 5; ref = 1 }) ≡ panic "ilock: no type"
unfolding ilock
ilock_free = refl

iunlock_unlocked : iunlock root_entry ≡ panic "iunlock"
unfolding iunlock
iunlock_unlocked = refl

idup_root : (idup 0 nodes 0).ref ≡ 2
unfolding idup
idup_root = refl

iupdate_root : (iupdate (record root_entry { copy = no_inode }) disk 1 1).kind ≡ 0
unfolding iupdate
iupdate_root = refl
