-- ===== src/Cpu/Gdt/Tests.antt =====
-- The table of the segments with a task state in the kernel's half of the addresses.
