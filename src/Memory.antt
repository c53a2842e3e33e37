-- ===== src/Memory.antt =====
-- kernel/src/memory: addresses, the page allocator, the kernel heap and the translation tables.
pub mod Address
pub mod Mapper
pub mod Ram
pub mod PageAllocator
pub mod Heap
pub mod Reserve
pub mod PageTable
pub mod MemoryContext
pub mod UserMemory
