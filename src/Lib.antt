-- ===== src/Lib.antt =====
-- Pimento is an operating system kernel for the Raspberry Pi 3 Model B. This library models its
-- own logic: memory management, the file systems, tasks, and what runs them.
--
-- Memory (kernel/src/memory). `Memory.PageAllocator` is memory/page.rs, `Memory.Heap` is
-- memory/heap.rs, `Memory.Mapper` is memory/aarch64/mapper.rs, `Memory.Address` is
-- memory/address.rs, and `Memory.PageTable` is memory/aarch64/page_table.rs, with a module per
-- descriptor builder and one for each of the two managers. `Memory.MemoryContext` is
-- memory/aarch64/memory_context.rs, which maps pages in the tables of a task; its lemmas go from
-- one row (Rows, Allocation, Growth) over one level (Descent, Traversal) to all of them (Levels,
-- Mapping), and to two contexts (Isolation). The memory that they write is a function from
-- addresses to 64-bit words (`Memory.Ram`).
--
-- Files (kernel/src/fs). `Fs.Tmpfs` is fs/tmpfs.rs, with the nodes of fs/node.rs and the links of
-- fs/directory.rs in `Fs.Node` and `Fs.Name`; `Fs.Devfs` is device/devfs.rs, over drivers that are
-- a parameter; `Fs.FileSystem` is the trait that both implement. `Fs.Open` holds the open
-- directories and files, with their positions. `Fs.Mounts` is the mount table of
-- fs/virtual_file_system.rs, which sends a node up to what is mounted on it, and down again, and
-- `Fs.VirtualFileSystem` the calls that are made there. `Fs.FileManager` is fs/file_manager.rs,
-- which walks paths over it.
--
-- Tasks (kernel/src/task). `Task.Scheduler` is task/scheduler.rs. `Task.Elf` is task/elf.rs: the
-- program headers and how a segment is cut into pages, with the bytes of the headers in Header, the
-- reader and its iterator over an open file in Reader, and the inverse of the reading in Encoding.
-- `Task.TaskExecution` is `execute` of task/aarch64/task_execution.rs, which loads the pages of the
-- reader into a memory context by `Memory.UserMemory`, the two copies of memory_context.rs.
-- `Task.TaskCreation` is task/aarch64/task_creation.rs with task/task.rs, and `Task.CpuContext`
-- kernel/src/cpu/aarch64/cpu_context.rs; `Task.ContextSwitch` is task/aarch64/context.rs.
--
-- Calls and interrupts (kernel/src/abi). `Abi.SystemCalls` is abi/system_call_router.rs,
-- `Abi.SysWrite` the call of abi/system_calls/write.rs, which prints by `Log`, kernel/src/log.rs,
-- and `Abi.InterruptRouter` is abi/interrupt_router.rs over the controllers of `Device`.
--
-- Devices (kernel/src/device). `Device.InterruptController`, `Device.Serial` and `Device.Timer` are
-- the drivers, each a sequence of reads and writes of registers, which are a parameter
-- (`Device.Registers`).
--
-- Synchronization (kernel/src/sync), step by step for any number of callers: `Sync.Once` is the
-- lock of sync/lock.rs and `call_once` of sync/once.rs, `Sync.Mutex` is sync/mutex.rs, and
-- `Sync.OnceLock` is sync/once_lock.rs, call by call.
--
-- How the code is read. The kernel is built with `--release`, so arithmetic wraps at 2^64; an index
-- out of range, `unwrap` of nothing, `assert!` and `todo!()` panic. A fallible operation returns
-- `ok`, `err` or `panic`, with the state that it leaves on each of them. A pointer or an address is
-- a number. What a mutex or the scheduler's lock guards is changed by one call at a time: each call
-- is one step, and one that takes the lock twice is two. A `BTreeMap` is the function of its
-- lookups, or the list of what was inserted, the last first.
--
-- Loops. The page allocator's outer loop has fuel for two rounds more than the capacity has pages,
-- the mapping of a page for the levels of the tables, the walks over mounts for one more than there
-- are mounts, the iterator over program headers for one more than there are, and the searches in a
-- directory for one more than its links; where a result is claimed, that much is shown to be
-- enough. The waits of the serial driver and the loop over the pages of a program have the fuel
-- that they are given. All other loops go over a list.
--
-- The kernel's heap. Where a caller chooses how long a vector is (a write past the end of a file,
-- the buffers of the write call and of a serial read), a parameter answers whether the heap has the
-- room (`Memory.Reserve`), and a panic is what follows when it has not. That small objects, of a
-- fixed size or copied from what is there, find no room is left out. The kernel's own memory as
-- bytes is a parameter of `copy_from_user`, since the model keeps it as words.
--
-- Left out: assembly, system registers and the start-up code. Of a task the scheduler keeps only
-- its number, and of the weak references only whether what they point to is the same.
pub mod Base
pub mod Memory
pub mod Fs
pub mod Task
pub mod Abi
pub mod Device
pub mod Log
pub mod Sync
