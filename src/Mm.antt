-- ===== src/Mm.antt =====
-- mm/mmap.c: the address space of a process. Each child is about one part of that file.
pub mod Types
pub mod Space
pub mod Vmas
pub mod Split
pub mod Unmap
pub mod Heap
pub mod Insert
pub mod Special
pub mod Exit
pub mod Expand
pub mod Flags
pub mod Accounting
pub mod Reserve
pub mod Tree
pub mod Unmapped
pub mod Area
pub mod Brk
pub mod Map
pub mod Merge
pub mod Locks
pub mod Stack
mod Tests
