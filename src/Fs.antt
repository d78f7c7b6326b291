-- ===== src/Fs.antt =====
-- The virtual file system, src/fs.
pub mod Node
pub mod Tmpfs
pub mod Path
pub mod Create
pub mod Descriptors
pub mod Calls
pub mod Cwd
