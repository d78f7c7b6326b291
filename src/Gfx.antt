-- ===== src/Gfx.antt =====
-- src/gfx: the terminal and the framebuffer below it.
pub mod Terminal
pub mod Framebuffer
