-- ===== src/Lib.antt =====
-- Models and proofs for the XERN kernel, a small non-preemptive ARM system: XERN/*.c and
-- XERN/include are the process part, XERN/fs the file system, XERN/drivers the devices, and
-- XERN/UPROGS the user programs. Processes call the kernel by numbered system calls; the kernel
-- keeps processes in queues, switches only where one sleeps or ends, and joins processes by
-- pipes, which stand behind file descriptors as files do.
--
-- Which file models which part:
--   * Base: shared names, tests, lists, sums, C loops that look for an index, and the signed ℤ.
--   * Kernel: the globals of XERN/include/globals.h as one record, with the structures of
--     XERN/include/proc.h and types.h. Arrays are tables from indices, pointers are indices.
--   * Bits: bits in bytes, as the maps of pages, inodes and blocks have them.
--   * Memory: XERN/include/memory.h; its child Uvm gives memory to processes, with XERN/sbrk.c;
--     Pages is about the map of pages, Freed about what `freeuvm` gives back.
--   * Queue: XERN/include/queue.h. Its children follow the `next` pointers (Chain), relate
--     `enqueue` to list insertion (Order) and show priority and arrival order (Priority, Fifo).
--   * Sync: XERN/include/sync.h and `scheduler` of XERN/sysinit.c.
--   * Strings: XERN/include/string.h, and the same functions of XERN/UPROGS/src/lib/string.c.
--   * Paths: XERN/include/libgen.h, with the parts that a path name says (Parts); Break is `brk_path`
--     of XERN/fs/utils.h.
--   * Pipe: the ring of bytes of XERN/pipe.c; Piping: its system calls but `close_pipe`.
--   * Files: descriptors and the open file table, XERN/fs/close.h, XERN/fs/dup.h, `close_pipe`;
--     Directory is about the modes of directories and of pipes.
--   * Life: XERN/exit.c, XERN/kill.c, and the calls on identities of XERN/kfuncs.c; Family is
--     XERN/fork.c and XERN/wait.c.
--   * Ext2: XERN/fs/utils.h on blocks and inodes. Its children are Codec (inodes as bytes), Cache
--     (`get_inode`, `FS_init`), Alloc and Counts (what is taken), Data and Reading (`read_file`,
--     `klseek`), Writing (`write_file`), with XERN/fs/file.h and XERN/fs/lseek.h, Lookup
--     (`find_inode`, `search_inode`, `free_iblocks`), and Entries (`insert_child`, `remove_child`
--     of XERN/fs/modentry.h): its children relate a block of bytes to the list of entries it
--     stands for (Laid, Added, Moved, Removed, Again), follow a name through a directory (Names) and show
--     where entries are lost (Gaps).
--   * Tree: the calls over paths of XERN/fs: Making (creat.h, mkdir.h, link.h, symlink.h), Taking
--     (unlink.h, rmdir.h), Attributes (chmod.h, chown.h, statcall.h, fexist.h, readlink.h,
--     chdir.h), Opening (open.h, getdent.h) and Cwd (getcwd.h, `getname` of utils.h, over a whole directory in its child Child). They are steps of a state that holds the kernel,
--     the file system and the rows of names that `search_inode` keeps between its calls.
--   * Serial: the console as a file, XERN/fs/io.h; Password is `kreadpass` of XERN/kfuncs.c, Transfer is XERN/fs/read.h, XERN/fs/write.h and
--     XERN/fs/device.h, which choose between files, pipes and devices.
--   * Permissions: the checks of access rights of XERN/fs/open.h and XERN/exec.c.
--   * Console: the printing of XERN/drivers/uart.c.
--   * Shell: the reading of command lines in XERN/UPROGS/src/sh.h; its children follow a line of
--     commands (Pipes), the arguments of one (Words) and what is run (Command).
--   * Tests: a concrete kernel, on which each theorem with hypotheses is applied.
--
-- A kernel function takes the kernel record and returns a new one. `none` is a fault, such as a
-- NULL pointer followed or a buffer overrun. `switch_context` is assembly: what is modelled is
-- its call of `scheduler`; a function that sleeps ends there, and where it goes on later it is
-- modelled from that point in whatever kernel it then finds (Piping.try_again). Interrupts are
-- not modelled; of their handlers only the UART's writes to the modelled state, the return
-- address of the running process on Ctrl-C, as `kkill` does.
--
-- Loops of fixed length recur on the rounds left. The walks along queues take fuel: NPROCS in
-- `walk`, NPROCS + 1 in `wakeup`, which is enough as a queue holds at most each of the NPROCS
-- processes once. An `int` that the code tests against 0 is a ℤ; offsets, sizes and identifiers
-- are natural numbers, and the offsets of a pipe are taken not to reach 2^31. The loops of
-- `read_file` and `write_file` take the count of bytes as fuel, which is enough as a round moves
-- at least one. The walks over the entries of a block take its size in bytes as fuel, which is
-- enough where no entry is empty; running out of it stands for the endless loop that an empty
-- entry is. Keys pressed on the console are a list, and `serial_read` recurs on it: where the list
-- ends it waits.
--
-- A block is a table of bytes without an end: the maps of inodes and of blocks are taken to fit one
-- block of 2048 bytes, so to have at most 16384 bits, beyond which `alloc_block` of the code runs
-- over its buffer. A read that stores a NUL behind its bytes returns it with them (`read_file`,
-- `serial_read`, `read_pipe`).
--
-- Two values are parameters, as the C text does not fix them: what a read through a NULL pointer
-- to an open file gives (`low` of `kopen`) and what the function that returns nothing gives for
-- /dev/null (`undefined` of `kread` and `kwrite`).
--
-- Not modelled: the set-up of the page tables, exec, the interrupt handlers of
-- the keyboard and the timer, the dispatch of system calls, the running of commands by the shell
-- and the other user programs, and, as hardware, the device registers, the SD card and the boot
-- and context switch assembly (the manifest lists each with its reason).
pub mod Base
pub mod Bits
pub mod Kernel
pub mod Memory
pub mod Queue
pub mod Sync
pub mod Strings
pub mod Pipe
pub mod Paths
pub mod Files
pub mod Life
pub mod Permissions
pub mod Console
pub mod Ext2
pub mod Piping
pub mod Tree
pub mod Serial
pub mod Shell
mod Tests
