-- ===== src/Cpu/Gdt/Segments.antt =====
-- src/cpu/gdt/gdt.cpp: what the processor reads from the table of the segments.
use fish_os.Base.{ℕ, ◌+◌, ◌*◌, ◌/◌, ◌%◌, ◌^◌, ◌<◌, ◌≡◌, refl, Bool, true, false, ◌==◌, arith}
use fish_os.Cpu.{
  GdtSegment, selector, kernel_code_64, kernel_data_64, user_data_64, user_code_64, tss,
}
use fish_os.Cpu.Gdt.{GdtEntry, Gdt, load_gdt, load_tss}

-- the ring, and whether the segment is present, of memory, and has code of 64 bits or data
unfoldable pub ring : GdtEntry → ℕ
ring e = e.access / 2 ^ 5 % 4

unfoldable pub is_present : GdtEntry → Bool
is_present e = e.access / 2 ^ 7 % 2 == 1

unfoldable pub is_code : GdtEntry → Bool
is_code e = e.access / 2 ^ 3 % 4 == 3

unfoldable pub is_long : GdtEntry → Bool
is_long e = e.granularity / 2 ^ 5 % 2 == 1

-- the address in a descriptor of a system segment, which takes two entries
unfoldable pub system_base : GdtEntry → GdtEntry → ℕ
system_base low high =
    low.base_low
    + low.base_mid * 2 ^ 16
    + low.base_high * 2 ^ 24
    + high.limit * 2 ^ 32
    + high.base_low * 2 ^ 48

-- the entry that a selector names
abbrev pub at : Gdt → GdtSegment → GdtEntry
at gdt segment = gdt (selector segment / 8)

pub record Segmented (gdt : Gdt) (tss_addr : ℕ) : Type 0 where
  pub kernel_code :
      (ring (at gdt kernel_code_64) ≡ 0)
      × (is_code (at gdt kernel_code_64) ≡ true)
      × (is_long (at gdt kernel_code_64) ≡ true)
  pub kernel_data : (ring (at gdt kernel_data_64) ≡ 0) × (is_code (at gdt kernel_data_64) ≡ false)
  pub user_code :
      (ring (at gdt user_code_64) ≡ 3)
      × (is_code (at gdt user_code_64) ≡ true)
      × (is_long (at gdt user_code_64) ≡ true)
  pub user_data : (ring (at gdt user_data_64) ≡ 3) × (is_code (at gdt user_data_64) ≡ false)
  pub present : (s : GdtSegment) → is_present (at gdt s) ≡ true
  pub task_state : system_base (at gdt tss) (gdt (selector tss / 8 + 1)) ≡ tss_addr

-- After `load_gdt` and the `load_tss` of a state at an address of 64 bits, each selector names a segment that
-- is present and has its ring: code of 64 bits or data, of the kernel or the user; the selector of the task
-- state leads to the address.
pub load_tss-Segmented :
    (tss_addr : ℕ) (gdt : Gdt)
    → tss_addr < 2 ^ 64
    → Segmented (load_tss tss_addr (load_gdt gdt)) tss_addr
unfolding load_tss load_gdt ring is_present is_code is_long system_base selector
load_tss-Segmented tss_addr gdt h = record {
  kernel_code = (refl, refl, refl);
  kernel_data = (refl, refl);
  user_code = (refl, refl, refl);
  user_data = (refl, refl);
  present = present_at tss_addr gdt;
  task_state = omega arith;
}
  where
    present_at :
        (tss_addr : ℕ) (gdt : Gdt) (s : GdtSegment)
        → is_present (at (load_tss tss_addr (load_gdt gdt)) s) ≡ true
    present_at tss_addr gdt kernel_code_64 = refl
    present_at tss_addr gdt kernel_data_64 = refl
    present_at tss_addr gdt user_data_64 = refl
    present_at tss_addr gdt user_code_64 = refl
    present_at tss_addr gdt tss = refl
