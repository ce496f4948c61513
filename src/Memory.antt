-- ===== src/Memory.antt =====
-- The `Memory` namespace: the physical block allocator and the page tables, and both of them together.
pub mod Physical
pub mod Paging
pub mod Spaces
