-- ===== src/Ps2.antt =====
-- src/ps2: the keyboard driver.
pub mod Keyboard
