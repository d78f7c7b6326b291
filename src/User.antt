-- ===== src/User.antt =====
-- userspace: what the kernel loads of a program, and what a program calls.
pub mod Print
pub mod Elf
