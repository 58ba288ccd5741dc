-- ===== src/Lib.antt =====
-- Verification of exercises in CSE and of the kernel of OS/HW4/xv6-proj: xv6 with a multi-level feedback
-- queue, stride scheduling, threads and double indirect blocks.
--
-- Parts and files (paths from OS/HW4/xv6-proj, where they do not start with CSE):
-- - Proc: proc.h, the process structure, and wakeup1 of proc.c.
-- - Mlfq: mlfq.c, the ring buffers of processes. Mlfq/Ring reads a ring buffer as a list,
--   Mlfq/Rcount treats checkRcount, Mlfq/Rotate dequeue, Mlfq/Boost boostMlfq.
-- - Kernel: the variables that the scheduler's files share, and yield and sched of proc.c.
-- - Stride: stride.c, and findMinPassStride and share_stride_in_proc of proc.c.
-- - Trap: the clock interrupt of trap.c. Scheduler: scheduler of proc.c. Scheduler/Fair treats its loop over
--   the process table, Scheduler/Choice its loop over a queue, Scheduler/Round a round of both.
-- - Ptable: the life of a process in proc.c: allocproc, fork, sleep, wakeup, kill, wait, and how a
--   process leaves its queue in exit. Ptable/Setting has what these operations take from the rest of
--   the system. Ptable/Life treats the single operations, Ptable/Fork fork, Ptable/Wait wait.
-- - Thread: the thread calls of proc.c, growproc and exit, which ends the threads of a process.
--   Thread/Effects treats growproc.
-- - Pipe: pipe.c. Pipe/Stream reads the buffer of a pipe as the bytes that wait in it.
-- - Log: log.c, the write-ahead log. Log/Write and Log/Header treat its loops and its header wherever
--   the power fails, Log/Recovery the recovery, Log/Commit the commit, Log/Absorb log_write.
-- - Disk: the bytes of a block, and the integers and bits in them (Disk/Layout).
-- - Fs: the state of fs.c and the bitmap of free blocks (Fs/Bitmap, Fs/Bitmap/Alloc). Fs/Inodes: inodes
--   and their cache (Fs/Inodes/Cache). Fs/Content: bmap, itrunc, iput, readi, writei; Fs/Content/Lookup
--   has the tree of blocks, Read and Write the bytes of a file, Overwrite writei. Fs/Dir: directories.
--   Fs/Path: skipelem and namex (Fs/Path/Elements). Fs/Dir/Entries treats dirlookup, Fs/Dir/Link dirlink.
-- - Bcache: bio.c, the list of buffers, and iderw and idestart of ide.c. Bcache/Find treats its searches,
--   Bcache/View says what the cache shows for a block, Bcache/Read treats bread, Bcache/Write bwrite,
--   Bcache/Release brelse.
-- - File: file.c, the table of open files (File/Read treats fileread).
-- - Kalloc: kalloc.c, the allocator of pages. Kalloc/Pages reads its linked list as a list.
-- - Vm: the page tables of vm.c (Vm/User its user part). Vm/Walk reads them as a map from addresses to
--   entries, Vm/Table, Vm/Map and Vm/Pages treat walkpgdir and mappages.
-- - Llc: the frames of DT/Proj3_LLC/llc.c. Llc/Peers has the client and the server (client.c, server.c),
--   Llc/Frames treats fields and CRC, Llc/Exchange a line and its answer, Llc/Timeout the time outs.
-- - Tree and Avl: the AVL trees of CSE/HW6/hw6.c. Avl/Balance treats rotations, Avl/Rotate rebalance,
--   Avl/Add the insertion, Avl/Search the search, Avl/Height the height after insertions.
-- - Btree: the search in the B-trees of CSE/HW7/given.c. Btree/Place treats searchKey, Btree/Search btSearch.
-- - MergeSort: CSE/HW9/HW9_1_given.c. MergeSort/Merge and MergeSort/Loops treat merge, MergeSort/Sort
--   merge_sort.
-- - Expression: CSE/HW8/HW8_given.c. Expression/Trees has the trees of expressions, Expression/Pending and
--   Expression/Convert treat the conversion from infix to postfix, Expression/Evaluate the evaluation.
-- - Scenario and Tests: a small system, and the theorems at it.
--
-- The timer interrupt and the system calls call yield; yield, dequeue and enqueue move processes in
-- the ring buffers; the scheduler chooses between the queues and the processes under stride scheduling
-- by the pass values.
--
-- A pointer to a process is its index in the process table, and null is none. An operation is a
-- function on the kernel state; what panics, accesses memory through a null pointer or behind an
-- array, divides by zero or never ends is a fault of Prelude.Results. The kernel is taken to run on
-- one processor with its locks held; a switch to another process is an argument of the operations
-- that wait. Integers are natural numbers with the wrap-around of the source written out; curStridePor
-- is an integer.
--
-- The file system works on the contents of the blocks as bread gives them, which is what Bcache/View
-- calls shown; the log below it copies them to the disk. In Log the disk carries out a given number of
-- block writes, each whole, and loses all later ones, and a start of the machine reads the memory back
-- from the disk. fs.c lists the calls of log_write, and what a call does to the log is in Log.
--
-- Fuel: the loops of checkRcount and dequeue take their rounds as arguments (check_rcount_rounds,
-- dequeue_rounds). check_rcount and dequeue have 65 rounds in the loop of checkRcount, enough for a queue
-- of at most 63 processes, as the theorems show; with 64 the code itself does not end, whatever the
-- rounds. The loops of boostMlfq get 65 rounds, for queues of at most 64 processes. mlfq_loop runs as
-- long as processes do and takes its fuel from outside. wait and thread_join scan the table once per
-- round, with the rounds from outside.
-- pipewrite and piperead get the number of waits from outside; with room or data they need none.
--
-- balloc, readi, writei, dirlookup and namex get rounds by the size of the disk, the file and the path;
-- begin_op gets the number of its tests from outside, and freerange its rounds: one more than the range
-- has pages.
--
-- iderw finds an empty queue of requests, and the disk that the lowest bit of the device number selects
-- carries out the request at once; idestart panics for a block number from FSSIZE on.
--
-- The page tables stand in the memory of the page allocator, which is read and written in words; mappages
-- gets as many rounds as there are pages of the address space. The stacks of HW8_given.c hold 50 elements,
-- and the theorems ask for expressions that fit.
--
-- The two programs of Proj3_LLC run on hosts that give the CRC of zlib, the hardware address and what the
-- stack holds where the source reads a variable that is not set.
--
-- Not modelled: the registers of the processor, trap frames, fileclose, filewrite, sysfile.c, locks,
-- devices, exec, sockets, the start of threads, the printing functions, the deletion of hw6.c, the
-- insertion of HW7/given.c and postfix_to_infix of HW8_given.c.
pub mod Prelude
pub mod Proc
pub mod Disk
pub mod Mlfq
pub mod Kernel
pub mod Stride
pub mod Trap
pub mod Tree
pub mod Avl
pub mod Expression
pub mod Btree
pub mod MergeSort
pub mod Llc
pub mod Scheduler
pub mod Ptable
pub mod Thread
pub mod Pipe
pub mod Bcache
pub mod File
pub mod Kalloc
pub mod Vm
pub mod Log
pub mod Fs
pub mod Scenario
pub mod Tests
