-- ===== src/Lib.antt =====
-- Models and theorems of the kernel of curls64, a 64-bit kernel for PCs.
--
-- The parts of the kernel meet in the table of open files and in the control blocks of the tasks.
-- System calls reach files through descriptors (kernel/core/vfs_core.c); a descriptor is a slot that
-- holds the address of an open file, and tasks share open files after dup, dup2 and fork. An open
-- file may be an end of a pipe (kernel/core/pipe.c), which counts its ends and blocks its reader.
-- Blocked tasks leave the state READY and come back by the pipe, by the timer (the sleep queue), or by
-- a signal (kernel/core/task.c); the scheduler walks the ring of tasks and picks a READY one. Frames of
-- physical memory are counted by kernel/cpu/paging.c; the heap of libc/kheap.c gets its pages from there.
--
-- The files:
--   Prelude and Prelude/*: library names passed on; Boolean tests (Tests), lists as C arrays (Lists),
--     integers (Int), single bits of words (Bits), a memory of records by address (Store).
--   Task: `task_t` of kernel/core/task.h. A task is named by its address, and 0 is NULL.
--   Task/Sleep: `sleepq_insert`, `sleepq_remove` (kernel/core/task.c) and the loop of `timer_callback`
--     (kernel/cpu/timer.c). Chain: a queue as a sorted list of tasks. Behind, Link, Insert;
--     Erase, Unlink, Remove; Wake: the theorems on each operation.
--   Task/Signal: `task_deliver_signal`, `task_send_signal`, `kill`, `kill_all_children` and
--     `task_send_sigint_foreground` (kernel/core/task.c). Ring: the ready queue. Deliver, Send: theorems.
--   Task/Trampoline: `task_check_pending_signals` (kernel/core/task.c) and UABI_SIGRETURN
--     (kernel/core/syscall_dispatch.c). Memory: bytes. Frame: theorems.
--   Task/Sched: `round_robin_pick_next` (kernel/modules/sched_rr/sched_round_robin.c), the choice and
--     the states in `task_switch`, the count in `wait_for_children` (kernel/core/task.c).
--   Pipe: kernel/core/pipe.c. Queue: what a pipe promises. Inv, Refine, Block, Refs: theorems.
--   Vfs: the descriptors of kernel/core/vfs_core.c, their inheritance in `sys_fork`
--     (kernel/core/task.c) and, in Pipes, `pipe` (kernel/core/pipe.c). Counts, Refs: exact counts. Attach, Detach: one reference more or less.
--     Close, Dup, Fork, Open: theorems. Pipes/Search, Pipes/Made: theorems on `pipe`. Steps: sequences of calls. Offset: `read`, `write` and `seek`, with theorems.
--   Path: `vfs_canonicalize_path` and the split of a path (kernel/core/vfs_core.c). Clean, Print: theorems.
--     Path/Mount: the mount table and `vfs_resolve_path`, with theorems.
--   Pmm: the bitmap and the reference counts of kernel/cpu/paging.c. Bitmap: the set of used frames.
--     FirstFree, Refs: theorems. Frames: the manager as the allocator that Mmu takes.
--   Mmu: kernel/arch/x86_64/mmu/mmu.c, the walk, `mmu_map_page`, `mmu_unmap_page` and `get_page`. Tree: the
--     tables as a tree. Walk, Map, Page: theorems.
--   Heap: libc/kheap.c. Index: the ordered array. Alloc, Free, Expand: `alloc`, `free_internal`, `expand`
--     and `contract`. Pages: the loop of `expand` over the tables of Mmu. Tiles: the heap as a row of blocks and holes. BestFit, Gap, Split, Take, BestBlock,
--     Row, Right, Left, Merge, Grow, Stale: theorems.
--   Fat: kernel/fs/fat32/fat32_fat.c. Entry, Free: theorems.
--   Mbr: kernel/modules/partition/mbr.c. Scan: theorems.
--   Block: the table of kernel/core/block_dev.c, and reads and writes in kernel/core/kabi_bridge.c. Register:
--     theorems.
--   Ktrace: kernel/ktrace/ktrace.c. Replay: theorems.
--   The modules named Tests run the theorems at concrete inputs.
--
-- State and operations: a C struct is a record and an operation is a function from the state to the
-- result and the new state; pointers are numbers, and an object behind a pointer is reached through a
-- function from addresses, so that aliases see each other's writes. 8-, 32- and 64-bit counters wrap as
-- in C. Locks are left out except `rq_lock` in Task/Signal, since each modelled operation runs under
-- its lock from start to end. What happens between two runs of a blocked reader is a list of functions
-- on the world, one for each halt.
--
-- Fuel: walks over linked lists take a bound on their steps; the theorems ask for fuel above the
-- length of the list, and `insert`, `remove`, `wake`, `find` and `pick_loop` then never run out. The
-- other loops recurse on their own bounds (32 descriptors, 32 bits of a word, the words of the bitmap,
-- the characters of a path).
--
-- Parameters: the address that the allocator gives to a new open file, with the hypothesis that no slot
-- holds it; the read and write functions of nodes, with their medium; the block device under FAT32,
-- with the hypothesis that a sector reads back as it was written; the sector functions of disks; the
-- look-up of a name in a directory; what `kmalloc_int` gives before the bitmap is set up; the
-- allocator of frames under Mmu, with the laws that a frame it gives is aligned, was not in use and is
-- in use from then on, which Pmm/Frames proves of `pmm_first_free` and `pmm_set_frame`.
--
-- Not modelled: page faults, the copies and the release of page directories, ELF loading and exec,
-- creation and exit of tasks, the files and directories of FAT32, drivers, USB, boot code, SMP, and the
-- programs in user; the panic of `kabi_block_read` and `kabi_block_write` on a device without functions; the branch of `open` that creates a file. The heap is not a row of tiles before its
-- first block: the hole of `create_heap` has no footer.
pub mod Prelude
pub mod Task
pub mod Pipe
pub mod Vfs
pub mod Path
pub mod Pmm
pub mod Mmu
pub mod Heap
pub mod Fat
pub mod Mbr
pub mod Block
pub mod Ktrace
