-- ===== src/Lib.antt =====
-- Pintos: the kernel's threads, its file system and the file descriptors of its system calls.
--
-- Parts and files. Operations run one at a time, as functions on an explicit state that give `none`
-- where the kernel stops (a failed ASSERT, a trap, an access to memory that is not allocated).
--   Fixed            the fixed-point functions at the end of threads/thread.c (con_ntof to divxn)
--   Thread           struct thread and the static variables of threads/thread.c, as `Kernel`; a
--                    thread is the address of its page
--   Thread/Sched     thread_block, thread_unblock, thread_yield, thread_exit, schedule,
--                    next_thread_to_run, thread_schedule_tail
--   Thread/Donation  priorities, donation and nice values: thread_set_priority, thread_get_priority,
--                    search_best_donator, mlfqs_calc_pri, checkCurrentThreadPriority
--                    (`check_current_thread_priority`)
--   Thread/Mlfqs     thread_tick, inc_recent_cpu, recalc_cpu, recalc_load, recalc_pri,
--                    getReadyThread (`get_ready_thread`)
--   Thread/Fields, Thread/Create  init_thread, alloc_frame, allocate_tid, thread_create and the
--                    lookups getThreadFromTid, checkIsThread
--   Thread/Boot      thread_init, thread_start, idle, kernel_thread, thread_foreach
--   Thread/Steps     the operations of the scheduler, the timer tick and interrupts as the steps of a
--                    transition system
--   Inode            filesys/inode.c: byte_to_sector, inode_read_at, inode_write_at
--   Inode/Table      the list of open inodes: inode_open, inode_close, with free_map_release of
--                    filesys/free-map.c; Extend is file_extension, Access reading and writing of an
--                    inode of memory
--   FreeMap          free_map_allocate of filesys/free-map.c
--   File             struct file of filesys/file.c and its functions
--   System           the state above the inodes: files, the buffer cache, directories, the variable
--                    `path` and the directory of each thread; Machine is what the code takes from
--                    elsewhere
--   Cache            the buffer cache of filesys/filesys.c: find_cache_block, load_inode_block,
--                    evict_cache_block, cache_write_back, cache_flush, flush_thread_func,
--                    file_write_back
--   Cache/User       the functions of filesys/file.c through the cache: file_read_user,
--                    file_read_at_user, file_write_user, file_write_at_user, file_close_user
--   Directory        filesys/directory.c: opening, lookup, dir_add, dir_create, dir_readdir; Remove is
--                    dir_remove with its tests, Path is find_dir and mkdir_by_name
--   FileSystem       filesys_create, filesys_open, filesys_remove, filesys_done of filesys/filesys.c;
--                    Init is filesys_init, do_format and the file of the free map
--   Syscall/Fd       the table of descriptors of userprog/syscall.c: currentFd, getFile, elemFile,
--                    isdir_by_fd, and the entry that open makes
--   Syscall/Calls    the handlers of userprog/syscall.c, allClose and syscall_exit; Files are those on
--                    descriptors, Names those on names, Processes those on processes and the
--                    dispatch; Exit is about allClose
--   KernelList, Block  interfaces of lib/kernel/list.h and devices/block.h, with an instance of each
--   Examples         concrete states, and the theorems applied to them
-- The scheduler keeps the run queue by the priorities that Thread/Donation and Thread/Mlfqs compute
-- with Fixed. A handler finds the file of a descriptor; a file refers to its inode by address and
-- reads and writes through the buffer cache, whose blocks are loaded and written back by the inode;
-- inodes read and write sectors of the block device. Directories are files of entries that name the
-- sectors of inodes, and are read and written past the cache.
--
-- Integers. `int` values are ℤ with the wrap-around of 32 bits written out; sectors, addresses and
-- file offsets are natural numbers.
--
-- Fuel. The loops of inode_read_at and inode_write_at get the size of the request as fuel: every
-- round that goes on handles at least one byte. The clock of evict_cache_block gets 65 steps, one
-- turn and one step. The loops of file_read_user and file_write_user get fuel from the
-- caller; the handlers give one round more than there are bytes. The loops over the entries of a
-- directory get a round for each whole entry and one more. All other loops are over lists.
--
-- Parameters. malloc() and calloc() are an argument that says what they return, or the list
-- `mallocs` of what they will return; palloc_get_page() and the malloc() of file_extension give
-- memory. bitmap_write(), process_exit(), process_execute() and process_wait() are commands,
-- bitmap_scan_and_flip() a function, each an argument of its callers. inode_write_at takes
-- file_extension as a parameter in Inode, and is joined with it in Inode/Table/Access. A local
-- variable that is read before it is set holds the bytes `unset`, and a pointer that is not set is
-- null or stops the kernel.
--
-- Locks. FILELOCK and the locks of the blocks are fields with their holder. Operations run one at a
-- time, so that to acquire a lock that is held stops the model.
--
-- Interrupts. The interrupt level is that of each thread, and no field: an operation that asserts
-- what intr_get_level() returns (thread_init, thread_block) takes the level of its call as an
-- argument, and an operation that disables interrupts around its changes is one step.
--
-- Not modelled: the assembly of running_thread and of a context switch, printing
-- (thread_print_stats), userprog/process.c, which exec and wait call, and interleavings of threads
-- inside of the file system. The interrupt handler, semaphores and locks of the kernel are outside of
-- these sources: thread_start and idle take the operations of their semaphore as parameters, and a
-- step of Thread/Steps sets the flags of an interrupt and the list of a thread's donators as it likes.
pub mod Prelude
pub mod Fixed
pub mod KernelList
pub mod Thread
pub mod Block
pub mod Inode
pub mod File
pub mod Syscall
pub mod Examples
pub mod FreeMap
pub mod Machine
pub mod System
pub mod Cache
pub mod Directory
pub mod FileSystem
