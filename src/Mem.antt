-- ===== src/Mem.antt =====
-- Memory management, src/mem.
pub mod Allocator
pub mod Pmm
pub mod Vmm
