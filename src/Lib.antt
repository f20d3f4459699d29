-- ===== src/Lib.antt =====
-- A model of this xv6 kernel and of some of its user programs, with proofs.
--
-- The program is a small Unix kernel. Processes (proc.c) run user programs and enter the kernel by
-- system calls (syscall.c, sysproc.c, sysfile.c), which work on memory (vm.c over the page allocator
-- kalloc.c), on pipes (pipe.c) and on files (file.c over fs.c). The file system changes the disk only
-- inside transactions of the log (log.c), over the buffer cache (bio.c) and a disk driver. string.c
-- has the byte functions that all parts use. User programs stand on ulib.c, umalloc.c and printf.c.
--
-- What is modelled, and where:
--
--   Log        log.c, with bread and bwrite of bio.c as the log sees them. The disk is a function from
--              sectors to blocks, and a budget of sector writes after which the machine stops. A
--              sector write is one step; the header sector is written as a whole. Log.Sectors and
--              Log.Recovery say what a disk yields after a recovery.
--   Bio        bio.c, with iderw of memide.c: the list of buffers in its order, over the disk.
--   Fs         fs.c and fs.h, the lower half: the block bitmap, bmap, itrunc, the inode cache (iget,
--              ilock, iunlock, iput, ialloc, iupdate), readi and writei (Fs.Io), dirlookup and dirlink
--              (Fs.Dir), the tags of a file (fs_ftag and its readers), and skipelem. The disk is what a
--              transaction sees of it: a bitmap, the inodes, and the words of the other blocks;
--              log_write takes effect at once.
--   File       file.c: the table of open files, fileread, and filewrite cut into transactions. What it
--              calls in pipe.c, fs.c and log.c is an interface, FileServices.
--   Sysfile    sysfile.c, all but sys_exec: descriptors, names, and the symbolic links of this kernel.
--              What it calls in fs.c, file.c, pipe.c and log.c is an interface, Services, over the rest
--              of the state; the calls count what they acquire and give back.
--   Syscall    syscall.c: the arguments of a system call, fetched from user memory, and the dispatch.
--   Console    console.c: the line discipline, consoleintr and consoleread over the input ring.
--   Proc       proc.c and proc.h: the table as a list of slots, pointers to processes as slots. Each
--              function is one step, under ptable.lock up to its call of sched; fork and exit, which hold
--              the lock for a part only, are one step too. What it calls
--              in kalloc.c, vm.c, file.c and fs.c is an interface, Services, over the rest of the state.
--   Pipe       pipe.c: the ring, and pipewrite and piperead as the steps between two sleeps.
--   Kalloc     kalloc.c: the free list, threaded through the first words of the free pages.
--   Vm         vm.c: the walk of a page table, uva2ka and copyout.
--   Str        string.c, with stosb and stosl of x86.h: the functions over a memory of bytes.
--   Shell      sh.c: the parser, from the bytes of a line to the tree of commands.
--   Grep       grep.c: the regular expression matcher.
--   Wc         wc.c: the counts over the reads of a file, without the printing.
--   Spin       spinlock.c: one lock, and the interrupt flag with its nesting count on one CPU.
--   Number     printint of printf.c and atoi of ulib.c.
--   Base       Shared names, list lemmas, and 32-bit addition and subtraction (Base.Word).
--
-- Numbers are unbounded naturals; the additions and subtractions of C's unsigned int that can wrap
-- round are add32 and sub32. Loops are structural recursion where a counter drives them. The others
-- run on fuel: free_pages has as much as there are pages below the end of the range, strlen_run
-- returns nothing when it runs out and has enough with one more than the length, the scan of a tags
-- block says so when it goes on behind the slots it has fuel for, and filewrite has as much as
-- there are bytes. The digit loop of printint has the 16 rounds that its buffer has bytes. The grep
-- loops recur on the text.
--
-- The loops of sysfile.c over a chain of links have the 16 rounds of the source, the one over a
-- directory as many as it has bytes. The parser of the shell has one round for each byte of the
-- line and one more. copyout, readi and writei have one round for each byte, since each of their
-- rounds copies a byte, and the searches of dirlookup and dirlink one for each byte of the directory.
--
-- Not modelled: the walk of a path (namex), the building of page tables, exec and the trap
-- handler, the screen and the keyboard, the interleaving of CPUs on a lock (each modelled
-- operation is taken as one critical section), how the shell runs a command, and the other user
-- programs. Assembly and device programming stay out, since their meaning is the machine's.
pub mod Base
pub mod Pipe
pub mod Log
pub mod Grep
pub mod Str
pub mod Wc
pub mod Kalloc
pub mod Proc
pub mod Fs
pub mod File
pub mod Number
pub mod Spin
pub mod Syscall
pub mod Console
pub mod Sysfile
pub mod Shell
pub mod Bio
pub mod Vm
