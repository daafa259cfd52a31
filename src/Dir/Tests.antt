-- ===== src/Dir/Tests.antt =====
-- A directory of one entry, whose name is no text, on the disk of Content/Sample.
use assignments.Base.{
  ℕ, ◌/◌, ◌<◌, List, [], ◌∷◌, true, replicate, none, some, ok, ◌≡◌, ◌≢◌, ◌∙◌, refl, sym, ap, subst,
  ◌%◌, arith,
}
use assignments.Balloc.{Fs, store}
use assignments.Icache.{Inode, Disk, iupdate}
use assignments.CString.Compare.{Bytes}
use assignments.CString.{strncmp, strncpy}
use assignments.Content.{put_bytes, bsize, readi, read_from, bmap, writei, write_from}
use assignments.Content.Map.{entry}
use assignments.Content.Sample.{small_disk, small_addrs, small-IsFile}
use assignments.Dir.{has_name, read_entry, lookup_from, dirlookup, empty_from, new_entry, dirlink}
use assignments.Dir.Lookup.{IsDir, entry_at, FirstNamed, dirlookup_lem}
use assignments.Dir.Link.{dirlookup-dirlink}

abbrev small_dir : Inode
small_dir = record {
  dev = 1;
  inum = 1;
  ref = 1;
  locked = true;
  valid = true;
  copy = record { kind = 1; major = 0; minor = 0; nlink = 1; size = 16; addrs = small_addrs };
}

abbrev inodes : Disk
inodes dev inum = small_dir.copy

small-IsDir : IsDir 3 small_disk small_dir
small-IsDir = record {
  inode = record {
    file = small-IsFile;
    regular = λ e. absurd (omega (arith, e));
    bounded = omega arith;
    filled = filled;
  };
  is_dir = refl;
  whole = refl;
}
  where
    filled : (k : ℕ) → k < 16 → entry small_disk small_addrs (k / bsize) ≢ 0
    filled k h e =
        let first : k / bsize ≡ 0 = omega arith in
        let there : 3 ≡ 0 = sym (ap (entry small_disk small_addrs) first) ∙ e in
        absurd (omega (arith, there))

abbrev name : List ℕ
name = b'x' ∷ 0 ∷ []

only_entry-Bytes : (o : ℕ) → o < 16 → o % 16 ≡ 0 → Bytes (entry_at small_disk small_dir o)
only_entry-Bytes o h k =
    let first : 0 ≡ o = omega arith in
    subst (λ o. Bytes (entry_at small_disk small_dir o)) first sixteen
  where
    sixteen : Bytes (entry_at small_disk small_dir 0)
    sixteen = (
      omega arith,
      (
        omega arith,
        (
          omega arith,
          (
            omega arith,
            (
              omega arith,
              (
                omega arith,
                (
                  omega arith,
                  (
                    omega arith,
                    (
                      omega arith,
                      (
                        omega arith,
                        (
                          omega arith,
                          (
                            omega arith,
                            (omega arith, (omega arith, (omega arith, (omega arith, tt)))),
                          ),
                        ),
                      ),
                    ),
                  ),
                ),
              ),
            ),
          ),
        ),
      ),
    )

abbrev linked_disk : Fs
linked_disk =
    store small_disk 3 (put_bytes (small_disk.content 3) 16 (new_entry (replicate 14 0) name 9))

abbrev linked_dir : Inode
linked_dir = record small_dir { copy = record small_dir.copy { size = 32 } }

dirlookup_example :
    FirstNamed name small_disk small_dir (dirlookup (λ major. none) name small_dir small_disk)
dirlookup_example =
    dirlookup_lem (λ major. none) 3 name small_disk small_dir small-IsDir
      (omega arith, (omega arith, tt)) only_entry-Bytes

linked :
    dirlink (λ major. none) (λ major. none) (replicate 14 0) name 9 small_dir inodes small_disk
    ≡ ok (linked_disk, linked_dir, iupdate linked_dir inodes, true)
unfolding dirlink dirlookup lookup_from read_entry has_name empty_from readi read_from bmap writei
    write_from strncmp strncpy
linked = refl

dirlookup-dirlink_example :
    (off : ℕ) × (dirlookup (λ major. none) name linked_dir linked_disk
      ≡ ok (linked_disk, linked_dir, some (off, 9)))
dirlookup-dirlink_example =
    dirlookup-dirlink (λ major. none) (λ major. none) 3 (replicate 14 0) name 9 small_disk
      linked_disk small_dir linked_dir inodes (iupdate linked_dir inodes) small-IsDir refl
      (omega arith) (omega arith) linked
