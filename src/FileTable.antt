-- ===== src/FileTable.antt =====
-- xv6-public/file.c: the table of open files. `ftable.lock` makes each of `filealloc`, `filedup` and
-- the first part of `fileclose` one step. Pipes and inodes are known by number here.
pub mod Counts
pub mod Chunks
mod Tests
use assignments.Base.{
  ℕ, zero, suc, ◌+◌, ◌-◌, List, [], ◌∷◌, Bool, true, false, ◌==◌, ltb, ◌&&◌, ◌||◌, not,
  if◌then◌else◌, update, add32, sub32, int_lt, Option, none, some, Res, ok, panic, check, ◌>>=◌,
}

abbrev pub nfile : ℕ
nfile = 100

pub data Kind : Type 0 where
  fd_none fd_pipe fd_inode : Kind

-- `struct file`.
pub record File : Type 0 where
  pub kind : Kind
  pub ref : ℕ
  pub readable : Bool
  pub writable : Bool
  pub pipe : ℕ
  pub ip : ℕ
  pub off : ℕ

-- The loop of `filealloc` from entry `i` on.
pub find_unused : ℕ → ℕ → (ℕ → File) → Option ℕ
find_unused zero i files = none
find_unused (suc rounds) i files =
    let rest = find_unused rounds (i + 1) files in if (files i).ref == 0 then some i else rest

pub filealloc : (ℕ → File) → (ℕ → File) × Option ℕ
unfolding find_unused
filealloc files = elim (find_unused nfile 0 files) [
  | none ↦ (files, none)
  | some i ↦ (update files i (record (files i) { ref = 1 }), some i)
]

pub filedup : ℕ → (ℕ → File) → Res (ℕ → File)
filedup i files =
    check (not (int_lt (files i).ref 1)) "filedup"
      (ok (update files i (record (files i) { ref = add32 (files i).ref 1 })))

-- What `fileclose` does after it has released the lock: nothing, as there are more references;
-- `pipeclose`; `iput` within a transaction; or nothing, for a file of neither kind.
pub data Closing : Type 0 where
  shared : Closing
  closes_pipe : ℕ → Bool → Closing
  puts_inode : ℕ → Closing
  closes_none : Closing

abbrev pub closing : File → Closing
closing f = elim f.kind [
  | fd_none ↦ closes_none
  | fd_pipe ↦ closes_pipe f.pipe f.writable
  | fd_inode ↦ puts_inode f.ip
]

pub fileclose : ℕ → (ℕ → File) → Res ((ℕ → File) × Closing)
fileclose i files =
    let f = files i in
    let left = sub32 f.ref 1 in
    check (not (int_lt f.ref 1)) "fileclose" (
      ok (
        if int_lt 0 left
        then (update files i (record f { ref = left }), shared)
        else (update files i (record f { ref = 0; kind = fd_none }), closing f)))

-- The most that `filewrite` writes in one transaction.
abbrev pub max_chunk : ℕ
max_chunk = 1536

-- What a write does with a file system: `writei` from byte `i` of the buffer on, at an offset of the
-- inode, for a number of bytes; and `pipewrite`. The result has the bytes written, `none` for -1.
pub record Writers (S : Type 0) : Type 0 where
  pub writei : S → ℕ → ℕ → ℕ → ℕ → S × Option ℕ
  pub pipewrite : S → ℕ → ℕ → S × Option ℕ

module _ {S : Type 0} (ops : Writers S) where
  -- The loop of `filewrite` on the inode `ip`: the file system, the offset, and `i` at the end.
  -- Each round writes a byte or more, so `n` is fuel enough.
  pub write_from : ℕ → ℕ → ℕ → ℕ → S → ℕ → Res (S × ℕ × ℕ)
  write_from zero ip i n s off = ok (s, off, i)
  write_from (suc fuel) ip i n s off =
      let n1 = if ltb max_chunk (n - i) then max_chunk else n - i in
      let (t, r) = ops.writei s ip i off n1 in
      let rest = λ (w : ℕ). write_from fuel ip (i + w) n t (add32 off w) in
      if int_lt i n
      then elim r [ none ↦ ok (t, off, i) | some w ↦ check (w == n1) "short filewrite" (rest w) ]
      else ok (s, off, i)

  -- `filewrite` of `n` bytes, an int; `none` is -1.
  pub filewrite : File → ℕ → S → Res (S × File × Option ℕ)
  filewrite f n s =
      let on_inode = write_from n f.ip 0 n s f.off >>= λ (t, end, i).
      ok (t, record f { off = end }, if i == n then some n else none) in
      let (t, r) = ops.pipewrite s f.pipe n in
      if not f.writable then ok (s, f, none) else elim f.kind [
        | fd_pipe ↦ ok (t, f, r)
        | fd_inode ↦ on_inode
        | fd_none ↦ panic "filewrite"
      ]
