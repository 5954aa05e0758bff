-- ===== src/Lib.antt =====
-- A model of a Linux kernel with memory limits and statistics for processes: the files that the
-- repository adds to the kernel, and the kernel's own that it changes to call them.
--
-- The parts, and where they are:
-- * Limits is kernel/usac/project3/main.c. A `Kernel` holds the list of limits (`memory_list`), its
--   mutex, the number of entries from kmalloc, and the two places of user memory that are written.
--   `matus_add_memory_limit`, `matus_get_memory_limits`, `matus_update_memory_limit` and
--   `matus_remove_memory_limit` are the system calls, `is_request_accepted` the check. The children
--   are Table (the list as a table), Access (what the check decides), Calls (sequences of calls),
--   Listing (the copy of the list), Guards (arguments that are not refused), Spec (the abstract table
--   of limits) and Refine (the calls against it).
-- * Monitor is kernel/usac/project1 and kernel/usac/examples: Usage is syscall2.c with the counters
--   of tracked system calls, Usage/Counts their history; Snapshot is syscall1.c of both folders;
--   Throttle is syscall3.c with the lock of the task that it reads.
-- * Tamalloc is kernel/usac/project2/syscall_tamalloc.c.
-- * Entry is arch/x86/entry/common.c, which calls `track_syscall` of Monitor/Usage: Long has the
--   64-bit entry and Compat the 32-bit ones; Dispatch, Bounds, Sysret and Tracking hold the proofs.
-- * Mm is mm/mmap.c, which calls `is_request_accepted` of Limits. Types has the structures and
--   Space the address space of a process: its counters (`struct mm_struct`), its vmas in the order
--   of their addresses, its lock, the limits of main.c and the charge of the overcommit accounting.
--   Tree and Unmapped and Area are the search for an address, Accounting the limits and counters of
--   pages, Brk the system call brk, Map do_mmap, Map/Entry the system calls on it, Merge the tests
--   on merging and on tracking writes, Locks mm_take_all_locks and mm_drop_all_locks, Stack the
--   growth of stacks, Reserve the memory reserves. Vmas has the operations of the tree while it
--   changes and what a process sees of it, the page at an address; Split is __split_vma, Unmap is
--   munmap with do_vmi_align_munmap, Insert is insert_vm_struct with vma_link, Special the special
--   mappings that are installed with it, Expand is vma_expand, Exit is exit_mmap, Heap is
--   do_brk_flags and vm_brk_flags.
--   `BrkOps` is what brk needs of Unmap and Heap: Heap/Brk fills it, and Brk/Pages says what brk then
--   does to the pages.
-- * Base has the names that the others share: words, integers, lists, the state monad.
--
-- How the code is read. A word of 64 bits is a native number, and its arithmetic keeps the
-- wrap-around (`add64`, `sub64`); a pid, an int or a long that is an answer is an integer. Code that
-- may fault is in the monad `M` of Base/State, where `none` is a fault: a NULL pointer read, a mutex
-- taken twice, an object freed twice. Memory that the code did not write is a parameter. `goto out`
-- is a call of what stands at the label. printk is left out. Loops over a list are recursive
-- functions on the list. The search of Unmapped retries, so it takes fuel: one more than the upper
-- limit of the addresses, and since every retry moves a limit past an address that was tried, that
-- is enough.
--
-- Parameters. What is not in the repository is a parameter, one record for each part (`Env`,
-- `Platform`, `VmaTree`, `Layout`, `AreaFunctions`, `MapEnv`, `MergeEnv` and others), and what a
-- theorem needs of it is a named hypothesis: `IsTree` for the maple tree, `HasRoom` for the lowest
-- addresses, `IsMapleTree` for the tree while it changes, `IsExpandEnv` for the copies of anon_vmas,
-- `IsBrkOps` for what brk calls, `IsRaced` for what others do to a stack before it is locked. A
-- caller's environment may change from call to call, but the environment of one call is constant, so
-- code that runs concurrently is not modelled except where the lock is part of the state.
--
-- The loop of do_vmi_align_munmap runs over the vmas that its iterator meets, which is a list, so it
-- takes no fuel. The reverse maps of files and of anonymous memory, page tables and the counts of
-- references to files are left out where the vmas change: no code of Mm reads them there.
--
-- Not modelled. Of mm/mmap.c mmap_region, which do_mmap takes as a parameter, vma_shrink, the merging
-- of vmas, remap_file_pages and copy_vma, and stacks that grow upwards, which other architectures
-- have. Of common.c the upcall of Xen, which only calls the hypervisor.
-- The programs of usac_tests, the Makefiles and the table of system calls.
pub mod Base
pub mod Limits
pub mod Monitor
pub mod Tamalloc
pub mod Entry
pub mod Mm
