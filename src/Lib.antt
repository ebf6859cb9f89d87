-- ===== src/Lib.antt =====
-- xv6 of this repository (xv6-public, with the system calls of sol-B-1 and sol-B-2).
--
-- The kernel is a set of components that share tables under spin locks. The process table
-- (xv6-public/proc.c) calls the file component when a process forks or exits; pipes are one kind of
-- file; the log (xv6-public/log.c) lies between the file system and the disk, and every system call
-- that writes to the disk brackets its writes with `begin_op` and `end_op`. The assignment of the
-- repository adds `get_siblings_info`, `get_ancestors` and `getppid` to the process table. Below
-- these stand the locks, the page allocator, the strings, the table of open files, the upper layers of
-- the file system, the page tables, the console and the checks of system call arguments. grep and the
-- shell are user programs.
--
-- A function that runs under a lock is a function of the state which that lock guards. A pointer
-- into a table is an index, a null pointer is `none`, and a C string is the list of its bytes
-- before the NUL. A machine integer is a number with its wrap-around written out. A function that
-- may sleep is modelled up to its call of `sleep`, which is one of its results; where a loop of
-- the source can run without end (`wait`, `begin_op`, the scheduler), the model is one round of
-- it. A panic is a result of its own. Most loops recur on the table, the list or the count that
-- they walk. Some have fuel, and take one unit of it in a round that makes what is left to do
-- smaller: `write_loop` of File gets as many rounds as there are bytes to write, `namex_loop` of
-- Fs.Path one more than the path has bytes, `kill_line` of Console as many as there are characters
-- that may be erased, and `free_from` of Kalloc one more than there are pages below the end of the
-- range; `parsecmd` of Sh gets four units for each byte of the line and four more, `mappages` of
-- Vm one for each page, `copyout` one more than there are bytes, `readi` and `writei` of
-- Fs.Content one for each byte, `allocuvm` and `deallocuvm` two more than there are pages below
-- the larger size; `strlen` of Str takes a bound on the string from outside, as a string without a
-- NUL has no end.
--
--   Common            shared tests and lists: indexing, update and search
--   Proc.Table        xv6-public/proc.h, and proc.c: allocproc, wakeup1, kill, sleep, yield,
--                     growproc, scheduler
--   Proc.Life         xv6-public/proc.c: wait, exit, fork, userinit
--   Proc.Lineage      xv6-public/proc.c: get_siblings_info, get_ancestors, getppid (also
--                     sol-B-1/get_siblings.c, sol-B-2/get_ancestors.c)
--   Proc.Invariant    the invariant of the table, and these functions on it
--   Proc.System       the kernel as a step relation on the table, from userinit on
--   Proc.Wait, Proc.Effects, Proc.Kill
--                     what wait, fork, exit and kill do
--   Grep              xv6-public/grep.c: match, matchhere, matchstar
--   Grep.Spec         the expressions that they match, as an inductive relation
--   Pipe              xv6-public/pipe.c
--   Log               xv6-public/log.c: commit and recovery, over a disk that may stop at any write
--   Log.Crash         the contents that a disk recovers to
--   Log.Ops           xv6-public/log.c: begin_op, end_op, log_write
--   Log.Reserve       the log as a step relation, with the writes that system calls may still make
--   Lock              xv6-public/spinlock.c, sleeplock.c; Lock.Exclusion has the cpus that take a lock
--                     as a step relation
--   Str               xv6-public/string.c, over a memory of bytes
--   Kalloc            xv6-public/kalloc.c; Kalloc.Owners has the pages that are in use as well
--   File              xv6-public/file.c; File.Owners has the references that are held as well
--   Bio               xv6-public/bio.c, and iderw of xv6-public/memide.c; Bio.Held has the references
--                     that are held, as a step relation
--   Fs.Balloc         xv6-public/fs.c: bzero, balloc, bfree
--   Fs.Icache         xv6-public/fs.c: iget, idup, iput; Fs.Icache.Sharing has the references that are
--                     held as well
--   Fs.Path, Fs.Dir   xv6-public/fs.c: path names and directories
--   Console           xv6-public/console.c: the input ring
--   Syscall           xv6-public/syscall.c: the arguments of a system call
--
--   Sh                xv6-public/sh.c: the parser of command lines; Sh.Print has the text of a command
--   Vm                xv6-public/vm.c: page tables, over a memory of entries and bytes and the free
--                     pages of Kalloc; a page is read as entries or as bytes, never as both
--
--   Fs.Content        xv6-public/fs.c: bmap, itrunc, readi, writei; a slot is the place of a block
--                     number, in the inode or in its indirect block
--
-- Parameters stand for what a component takes from another: the file operations of `fork` and `exit`
-- may be any functions, the pages that `kalloc` and `copyuvm` return are numbers with 0 for failure,
-- and what the kernel reads through a null pointer is a number.
--
-- Not modelled: interrupts and the switch of contexts and page tables, device drivers, boot code,
-- traps, exec, the system calls on files, ilock, ialloc and stati, mkfs, what the shell runs, the
-- tests, and programs that only call the kernel and print.
pub mod Common
pub mod Bio
pub mod Console
pub mod File
pub mod Fs
pub mod Grep
pub mod Kalloc
pub mod Lock
pub mod Log
pub mod Pipe
pub mod Proc
pub mod Sh
pub mod Str
pub mod Syscall
pub mod Vm
