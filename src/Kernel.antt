-- ===== src/Kernel.antt =====
-- alarm: the xv6 kernel of this repository, with the system call alarm. (date is the same kernel
-- with other system calls; the files modelled here from alarm are the same there, but for trap.c,
-- proc.c, sysproc.c and the indentation of bio.c.)
pub mod Trap
pub mod Log
pub mod Pipe
pub mod Process
pub mod Strings
pub mod Files
pub mod Blocks
pub mod Paths
pub mod PageAllocator
pub mod BufferCache
pub mod Inodes
pub mod Printf
pub mod Arguments
