-- ===== src/Cpu/Gdt.antt =====
-- src/cpu/gdt/gdt.cpp: the table of the segments, and the descriptor of the task state.
-- The instructions that load the tables into the processor are left out.
pub mod Segments
mod Tests
use fish_os.Base.{ℕ, ◌+◌, ◌*◌, ◌/◌, ◌%◌, ◌^◌, Bool, ◌==◌, if◌then◌else◌}

-- the fields of a descriptor, in their order
pub record GdtEntry : Type 0 where
  pub limit : ℕ
  pub base_low : ℕ
  pub base_mid : ℕ
  pub access : ℕ
  pub granularity : ℕ
  pub base_high : ℕ

abbrev pub Gdt : Type 0
Gdt = ℕ → GdtEntry

-- fields that an initializer does not name are 0
abbrev pub no_entry : GdtEntry
no_entry = record {
  limit = 0;
  base_low = 0;
  base_mid = 0;
  access = 0;
  granularity = 0;
  base_high = 0;
}

unfoldable pub put_descriptor : ℕ → GdtEntry → Gdt → Gdt
put_descriptor n e gdt i = if i == n then e else gdt i

unfoldable pub load_gdt : Gdt → Gdt
unfolding put_descriptor
load_gdt gdt =
    let g0 = put_descriptor 0 no_entry gdt in
    let g1 =
      put_descriptor 1 (record no_entry { access = 0b10011010; granularity = 0b00100000 }) g0 in
    let g2 = put_descriptor 2 (record no_entry { access = 0b10010010 }) g1 in
    let g3 = put_descriptor 3 (record no_entry { access = 0b11110010 }) g2 in
    put_descriptor 4 (record no_entry { access = 0b11111010; granularity = 0b00100000 }) g3

-- the descriptor of the state at an address takes two entries
unfoldable pub load_tss : ℕ → Gdt → Gdt
unfolding put_descriptor
load_tss tss_addr gdt =
    let low : GdtEntry = record {
      limit = 0x67;
      base_low = tss_addr % 2 ^ 16;
      base_mid = tss_addr / 2 ^ 16 % 2 ^ 8;
      access = 0b10001001;
      granularity = 0;
      base_high = tss_addr / 2 ^ 24 % 2 ^ 8;
    } in
    let high : GdtEntry = record no_entry {
      limit = tss_addr / 2 ^ 32 % 2 ^ 16;
      base_low = tss_addr / 2 ^ 48 % 2 ^ 16;
    } in
    put_descriptor 6 high (put_descriptor 5 low gdt)
