-- ===== src/Klib.antt =====
-- The kernel's support library, src/klib.
pub mod Bitmap
pub mod Cstring
pub mod HashMap
pub mod List
pub mod Memory
pub mod Lock
pub mod Printf
