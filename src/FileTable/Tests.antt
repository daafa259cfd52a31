-- ===== src/FileTable/Tests.antt =====
-- Runs of the file table, and concrete cases of its theorems.
use assignments.Base.{
  ℕ, ◌+◌, ◌≡◌, refl, ◌⊎◌, true, false, ◌==◌, if◌then◌else◌, none, some, ok, panic, arith,
}
use assignments.FileTable.{
  fd_none, fd_pipe, fd_inode, Writers, File, find_unused, filealloc, filedup, write_from, filewrite,
}
use assignments.FileTable.Chunks.{InodeEnds, filewrite_lem}

abbrev unused_file : File
unused_file = record {
  kind = fd_none;
  ref = 0;
  readable = false;
  writable = false;
  pipe = 0;
  ip = 0;
  off = 0;
}

-- The write end of pipe 9, with one reference.
abbrev pipe_file : File
pipe_file = record unused_file { kind = fd_pipe; ref = 1; writable = true; pipe = 9 }

abbrev files : ℕ → File
files i = if i == 4 then pipe_file else unused_file

filealloc_first : (filealloc files).1 ≡ some 0
unfolding filealloc find_unused
filealloc_first = refl

filedup_unused : filedup 5 files ≡ panic "filedup"
unfolding filedup
filedup_unused = refl

-- A file system that counts the bytes it was given.
abbrev counts : Writers ℕ
counts = record { writei = λ s ip i off k. (s + k, some k); pipewrite = λ s p k. (s, none) }

abbrev disk_file : File
disk_file = record unused_file {
  kind = fd_inode;
  ref = 1;
  writable = true;
  ip = 3;
  off = 0xFFFFFFFE;
}

-- The offset wraps.
filewrite_4000 :
    filewrite counts disk_file 4000 0 ≡ ok (4000, record disk_file { off = 3998 }, some 4000)
unfolding filewrite write_from
filewrite_4000 = refl

filewrite_example :
    ((true ≡ false) × (filewrite counts disk_file 4000 0 ≡ ok (0, disk_file, none)))
    ⊎ ((true ≡ true)
        × (fd_inode ≡ fd_pipe)
        × (filewrite counts disk_file 4000 0 ≡ ok (0, disk_file, none)))
    ⊎ ((true ≡ true)
        × (fd_inode ≡ fd_none)
        × (filewrite counts disk_file 4000 0 ≡ panic "filewrite"))
    ⊎ ((true ≡ true)
        × (fd_inode ≡ fd_inode)
        × InodeEnds counts disk_file 4000 0 (filewrite counts disk_file 4000 0))
filewrite_example = filewrite_lem counts disk_file 4000 0 (omega arith) (omega arith)
