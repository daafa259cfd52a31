-- ===== src/Lib.antt =====
-- A model of the xv6 kernel of this repository (directory xv6-public), with proofs.
--
-- Parts, and the files that model them:
-- Base: Boolean tests, lists over the native numbers, machine words (32 bits, wrap-around written
-- out) and `Res`, the result of code that may panic. A panic is `panic` with its message.
--
-- Log (xv6-public/log.c): the redo log. A section that runs under `log.lock` is one function:
-- `begin_op` (one round, `none` where the code sleeps), `end_op_first` and `end_op_last` around
-- `commit`, `log_write`, `initlog`. `read_head`, `write_head`, `install_trans`, `write_log` and
-- `recover_from_log` keep their names; the loop of each is the function named `_from`, by
-- structural recursion on the rounds left. Buffers gives the disk and the contents that `bread`
-- returns, and a crash: a disk has a number `power` of writes that still reach it, so that a
-- statement for every `power` is about a power failure at any point, and a number above the
-- writes of a run means that there is none.
--
-- Pipe (xv6-public/pipe.c): `struct pipe` with its wrapping counters. `pipewrite` and `piperead`
-- run to their return or to their next sleep; Pipe/Stream interleaves a writer and a reader.
--
-- Kalloc (xv6-public/kalloc.c): the page allocator on a word memory, `end` as a parameter. The
-- fuel of `freerange_from` is `vend / PGSIZE`, at least the number of pages below `vend`.
--
-- Proc (xv6-public/proc.c, proc.h): the process table. `ptable.lock` is the flag `locked`; a
-- function that calls `sched` ends there, with the lock held. `kalloc`, `copyuvm` and the time of
-- `cmostime` enter as arguments, so an out-of-memory answer is an argument 0. Scans of the table
-- are structural recursion on the slots left. The sections of `fork`, between which it does not hold
-- the lock, are functions: `allocproc_slot`, `set_stack`, `set_pgdir`, `give_up`, `copy_process` and
-- `start_process`; `fork` composes them, and Proc/History interleaves them with the other calls.
--
-- CString, Memory (xv6-public/string.c, ulib.c): strings as the bytes from a pointer to the end
-- of its array, and blocks in a byte memory.
--
-- Bcache (xv6-public/bio.c): the buffer cache as the list of its buffers in order of use, with
-- `bget`, `bread` and `brelse`.
--
-- FileTable (xv6-public/file.c): the open files and their reference counts; `filewrite` over
-- a `writei` and a `pipewrite` that are arguments. Its fuel is the number of bytes, as each round writes one or more.
--
-- Spinlock (xv6-public/spinlock.c, sleeplock.c): the locks. The other modules write a lock as a
-- flag and a critical section as one step.
--
-- Icache, Path (xv6-public/fs.c): the inode cache and the allocation of inodes, over a disk that is
-- a function from device and inode number; `skipelem` on path names.
--
-- Balloc, Content (xv6-public/fs.c): the bitmap of blocks, `balloc` and `bfree`, and on them the
-- content of an inode: `bmap`, `readi`, `writei`, `itrunc`. The blocks are the memories that the
-- buffer cache shows; the numbers below `start` are the blocks that are not for data. The loops of
-- `readi` and `writei` have one unit of fuel for each byte, as a round moves one or more; those of
-- `balloc` have one for each bit and for each bitmap block. The device table is an argument. Dir: `dirlookup` and
-- `dirlink` on that content; one unit of fuel for each entry.
--
-- Console (xv6-public/console.c, printf.c): the input ring with its line editor, and `printint`. A
-- line is killed in at most `e - w` rounds, and a word has at most 32 digits.
--
-- SysCall (xv6-public/syscall.c): the checks on the arguments of a system call.
--
-- Grep (xv6-public/grep.c): the matcher.
--
-- Shell (xv6-public/sh.c): the parser. `*ps` is the text up to `es`. The redirections that
-- `parseredirs` wraps around a command are a list until the command is complete, as `parseexec`
-- goes on filling it; `nulterminate` is the cut of a word at its end. Four units of fuel for each
-- character, and four more, are enough. Shell/Print writes a command as a line.
--
-- Paging (xv6-public/vm.c): page tables, on a memory of pages that are known by their physical
-- addresses, and a list of free pages; `end_addr` is the linker's `end`, for the test of `kfree`. The loop of `mappages` has as many rounds as pages; those of
-- `allocuvm` and `deallocuvm` have one for each page below the size, as a round goes on by a page.
--
-- Not modelled: trap frames, processor registers, device registers, assembly, and code that only does
-- input and output. The manifest lists every part that is left out. Interrupts and other processors
-- enter through the lock-protected sections only: each is one step, and steps interleave.
pub mod Base
pub mod Buffers
pub mod Bcache
pub mod Log
pub mod Pipe
pub mod Kalloc
pub mod CString
pub mod Memory
pub mod Proc
pub mod FileTable
pub mod Spinlock
pub mod Icache
pub mod Balloc
pub mod Content
pub mod Dir
pub mod Path
pub mod Console
pub mod SysCall
pub mod Grep
pub mod Shell
pub mod Paging
