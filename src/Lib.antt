-- ===== src/Lib.antt =====
-- The verification library of MEPhI-semester-4-acos: programs of an operating systems course in C.
--
-- Base.antt and its children hold what the other files share: names of the libraries, Boolean tests,
-- lists over native numbers, and stores. Each further directory is a program.
--
-- Shell (bash/pipe). A line is cut into tokens (Shell/Tokenizer.antt: TokenizerInit), checked and
-- collected (Shell/Parser.antt: the first loop of Exec and its final check), and becomes a pipeline of
-- children (Shell/Pipeline.antt: the loop over the blocks). The parser gives the tokenizer's list of
-- tokens to a state machine whose state is Exec's local variables; failures of malloc are an argument.
-- On a line without tokens Exec returns at once.
--
-- Kernel (alarm): xv6 with the system call alarm.
--   Kernel/Trap.antt: trap (alarm/trap.c) and sys_alarm (alarm/sysproc.c), as functions on the state of
--     a CPU; Alarm and Counts are about it. Memory is flat and can be written everywhere.
--   Kernel/Process.antt: the process table (alarm/proc.c): allocproc, fork, exit, wait, sleep, wakeup,
--     kill, yield, and the choice of the scheduler. A function is what runs under ptable.lock. Its
--     child Wakeup is about parents that wait, Pages about the free list.
--   Kernel/Files.antt: the table of open files (alarm/file.c), and who holds its entries.
--   Kernel/Pipe.antt: a pipe (alarm/pipe.c), a ring of 512 bytes with two 32-bit counters.
--   Kernel/Log.antt: the log (alarm/log.c), with the power failing at any disk write (Crash); Space and
--     Full are about a log with room enough and about one of the size that alarm/mkfs.c makes.
--   Kernel/Blocks.antt: the free map and the block addresses of an inode (alarm/fs.c); it writes
--     through the log.
--   Kernel/PageAllocator.antt: the allocator of pages (alarm/kalloc.c), whose free list runs through
--     the free pages. Kernel/Process has its own list of free pages.
--   Kernel/BufferCache.antt: the cache of disk blocks (alarm/bio.c) with its sleep locks
--     (alarm/sleeplock.c), over the disk in memory (alarm/memide.c). Its children are the invariant
--     (Coherent), the operations (Steps, Lookup) and what a read gives (Latest).
--   Kernel/Inodes.antt: the inodes in memory (alarm/fs.c), over the inodes on disk and the blocks of
--     Kernel/Blocks, which iput frees; its children are cut like those of the buffer cache. iput is one step,
--     although the code takes icache.lock twice in it.
--   Kernel/Printf.antt: printf of user programs (alarm/printf.c), and atoi (alarm/ulib.c).
--   Kernel/Arguments.antt: the arguments of system calls, as syscall.c fetches them (alarm/syscall.c).
--   Kernel/Paths.antt: the elements of a path name (skipelem of alarm/fs.c).
--   Kernel/Strings.antt: the string routines (alarm/string.c) on a memory of bytes.
--
-- Atomic (atomic). Atomic.antt has the atomic operations and the spin lock, Atomic/RwLock.antt the
-- reader-writer lock (atomic/rwlock/rwlock.h), Atomic/SeqLock.antt the sequence lock
-- (atomic/seqlock/seqlock.h) with the data that it protects. Any number of threads interleave at each
-- atomic operation; memory is sequentially consistent. Atomic/Threads.antt has the sums over threads.
--
-- Logger (fs/logger). Logger.antt has swap_logs and the loop of logger on a directory of numbered
-- files (fs/logger/main.c).
--
-- JobServer (fs/jobserver). JobServer.antt has walk_dir on a tree of directories, and the main process
-- and its watchers (fs/jobserver/main.c) as processes that interleave; Order is about the walk, Tokens
-- about the limit, Work and Progress about the end.
--
-- Fibers (fibers). Fibers.antt is a machine that runs the code of fibers (fibers/fiber.c), one part of a
-- library function at a time; a context is where FiberYield is and what its caller has left. Switch is
-- about the order of the fibers, Lost about FiberSpawn before the first FiberYield.
--
-- Backtrace (elf/backtrace). Backtrace.antt has the walk over the frames and the lookup of a name in the
-- symbol table (elf/backtrace/backtrace.c).
--
-- MmapHeap (memory/malloc). MmapHeap.antt has malloc, free and realloc (memory/malloc/malloc.c) for an
-- operating system that is an argument; MmapHeap/Blocks.antt says what its system calls are documented to
-- do, as hypotheses.
--
-- HugeArray (memory/hugearray). HugeArray.antt has the signal handler that maps and fills one page of an
-- array at a time (memory/hugearray/handler.c), with the reads that fault (memory/hugearray/main.c).
--
-- Integers are natural numbers. A 32-bit counter of the kernel wraps where the source lets it
-- (Kernel/Pipe, Kernel/Trap); elsewhere a count stays below its limit, which each file says. Loops are
-- structural recursion, over a list, over the entries of a table, or on fuel: balloc has one step for
-- each block of the free map, the loop over a path one for each of its characters, printint 32, since
-- a word has no more digits, and Backtrace one for each entry of the array and one more; that is
-- enough since each round passes one. The processes of the job server have a measure that each step
-- lowers.
--
-- Not modelled: the drivers, the start of the machine, virtual memory, spin locks of the kernel, the
-- contents of files and directories, the system calls on files, the user programs of the
-- kernels, the second copy of the kernel in date, the kernel in gate, and the assembly and vector
-- exercises. They are hardware access, copies, or left out here.
-- What is not in this repository (malloc, mmap, the C library, the
-- system calls under the shell and the logger) is an argument where its failure matters, and is taken
-- to succeed otherwise; each file says which.
pub mod Base
pub mod Shell
pub mod Kernel
pub mod Atomic
pub mod Logger
pub mod JobServer
pub mod Fibers
pub mod Backtrace
pub mod MmapHeap
pub mod HugeArray
