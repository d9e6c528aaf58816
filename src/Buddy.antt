-- ===== src/Buddy.antt =====
-- The buddy backend of big_allocations/buddy.rs: regions of free blocks, and the allocator over them.
pub mod Region
pub mod Allocator
