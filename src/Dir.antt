-- ===== src/Dir.antt =====
-- xv6-public/fs.c: directories. A directory is a file of entries of 16 bytes, an inode number and a
-- name of up to 14 characters.
pub mod Lookup
pub mod Link
mod Tests
use assignments.Base.{
  ℕ, zero, suc, ◌+◌, ◌*◌, ◌/◌, ◌%◌, List, [], ◌∷◌, ◌++◌, Bool, true, false, ◌==◌, ltb, ◌&&◌, not,
  if◌then◌else◌, String, get_or, drop, replicate, length, add32, Option, none, some, Res, ok, panic,
  check, ◌>>=◌,
}
use assignments.Balloc.{Fs}
use assignments.Icache.{Inode, Disk}
use assignments.Content.{readi, writei}
use assignments.CString.{strncmp, strncpy}

abbrev pub t_dir : ℕ
t_dir = 1

abbrev pub dirsiz : ℕ
dirsiz = 14

-- `de.inum` and `de.name`.
abbrev pub inum_of : List ℕ → ℕ
inum_of de = get_or de 0 0 + get_or de 1 0 * 256

abbrev pub name_of : List ℕ → List ℕ
name_of de = drop 2 de

-- An entry in use with this name.
pub has_name : List ℕ → List ℕ → Bool
has_name name de = not (inum_of de == 0) && strncmp name (name_of de) dirsiz == 0

-- The entry that `dirlink` writes; `old` is what the stack holds there.
abbrev pub new_entry : List ℕ → List ℕ → ℕ → List ℕ
new_entry old name inum = inum % 256 ∷ inum / 256 % 256 ∷ strncpy old name dirsiz

module _ (device : ℕ → Option (ℕ → Option (List ℕ))) where
  -- `readi(dp, &de, off, sizeof(de)) != sizeof(de)` panics.
  pub read_entry : String → Inode → Fs → ℕ → Res (Fs × Inode × List ℕ)
  read_entry message dp s off = readi device dp s off 16 >>= λ (t, ip, r). elim r [
    | none ↦ panic message
    | some de ↦ check (length de == 16) message (ok (t, ip, de))
  ]

  -- The loop of `dirlookup`: the offset and the inode number.
  pub lookup_from : ℕ → ℕ → List ℕ → Inode → Fs → Res (Fs × Inode × Option (ℕ × ℕ))
  lookup_from zero off name dp s = ok (s, dp, none)
  lookup_from (suc fuel) off name dp s =
      let round = read_entry "dirlookup read" dp s off >>= λ (t, ip, de).
      let rest = lookup_from fuel (add32 off 16) name ip t in
      if has_name name de then ok (t, ip, some (off, inum_of de)) else rest in
      if ltb off dp.copy.size then round else ok (s, dp, none)

  -- `dirlookup`, up to its call of `iget`.
  pub dirlookup : List ℕ → Inode → Fs → Res (Fs × Inode × Option (ℕ × ℕ))
  dirlookup name dp s =
      check (dp.copy.kind == t_dir) "dirlookup not DIR"
        (lookup_from (dp.copy.size / 16 + 1) 0 name dp s)

  -- The loop of `dirlink`: the offset of an empty entry, or the end.
  pub empty_from : ℕ → ℕ → Inode → Fs → Res (Fs × Inode × ℕ)
  empty_from zero off dp s = ok (s, dp, off)
  empty_from (suc fuel) off dp s =
      let round = read_entry "dirlink read" dp s off >>= λ (t, ip, de).
      let rest = empty_from fuel (add32 off 16) ip t in
      if inum_of de == 0 then ok (t, ip, off) else rest in
      if ltb off dp.copy.size then round else ok (s, dp, off)

  -- `dirlink`: false is -1. The inode that `dirlookup` has found is put back by its caller's cache.
  pub dirlink :
      (ℕ → Option (List ℕ → Option ℕ))
      → List ℕ
      → List ℕ
      → ℕ
      → Inode
      → Disk
      → Fs
      → Res (Fs × Inode × Disk × Bool)
  dirlink writer old name inum dp disk s = dirlookup name dp s >>= λ (t, ip, r).
      let link = empty_from (dp.copy.size / 16 + 1) 0 ip t >>= λ (u, jp, off).
      writei writer jp disk u off (new_entry old name inum) >>= λ (v, kp, after, n). elim n [
        | none ↦ panic "dirlink"
        | some k ↦ check (k == 16) "dirlink" (ok (v, kp, after, true))
      ] in
      elim r [ some found ↦ ok (t, ip, disk, false) | none ↦ link ]
