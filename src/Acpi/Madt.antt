-- ===== src/Acpi/Madt.antt =====
-- src/acpi/tables.cpp, `parse_madt`: the table of the interrupt controllers.
-- `none` is a loop that does not end in its rounds, as on an entry of size 0.
use fish_os.Base.{
  ℕ, zero, suc, ◌+◌, ◌*◌, ◌/◌, ◌%◌, ◌^◌, true, false, ◌||◌, List, [], ◌∷◌, ◌++◌, Option, none, some,
  Result, ok, panic, ◌==◌, ltb, if◌then◌else◌,
}
use fish_os.Klib.Memory.{Memory}
use fish_os.Cpu.Idt.{IdtHandler}
use fish_os.Cpu.Apic.{
  Interrupts, LapicRegister, LapicWrites, lvt_cmci, lvt_timer, lvt_thermal, lvt_perf, lvt_lint0,
  lvt_lint1, lvt_error, set_vector, enable, new_io_apic, override_irq_source,
}

-- a local controller with the number of its processor
pub record Lapic : Type 0 where
  pub id : ℕ
  pub acpi_id : ℕ

-- the controllers and the sources of the lines, the writes to the local controller, the pages that were
-- mapped for controllers, and the tables of the timers
pub record Platform : Type 0 where
  pub interrupts : Interrupts
  pub lapics : List Lapic
  pub lapic_writes : LapicWrites
  pub mapped_pages : List ℕ
  pub hpets : List ℕ

-- what the devices and the processor answer: register 1 of the controller at an address, the number of the
-- local controller, and the function for spurious interrupts
pub record Devices : Type 0 where
  pub version : ℕ → ℕ
  pub lapic_id : ℕ
  pub spurious : IdtHandler

-- little-endian numbers at an offset from an address
unfoldable pub u16 : Memory → ℕ → ℕ → ℕ
u16 m a off = m (a + off) + m (a + (off + 1)) * 2 ^ 8

unfoldable pub u32 : Memory → ℕ → ℕ → ℕ
u32 m a off = u16 m a off + u16 m a (off + 2) * 2 ^ 16

-- an entry of type 0; bit 0 of the flags says that the processor is enabled
unfoldable pub add_lapic : Memory → ℕ → Platform → Platform
add_lapic m entry p =
    if u32 m entry 4 % 2 == 1
    then record p {
      lapics = p.lapics ++ record { id = m (entry + 3); acpi_id = m (entry + 2) } ∷ [];
    }
    else p

-- an entry of type 1
unfoldable pub add_io_apic : Devices → Memory → ℕ → Platform → Platform
add_io_apic d m entry p =
    let address = u32 m entry 4 in
    let io = new_io_apic (m (entry + 2)) (u32 m entry 8) (d.version address) in
    record p {
      mapped_pages = p.mapped_pages ++ address ∷ [];
      interrupts = record p.interrupts { ioapics = p.interrupts.ioapics ++ io ∷ [] };
    }

-- an entry of type 2
unfoldable pub add_override : Memory → ℕ → Platform → Platform
add_override m entry p = record p {
  interrupts = override_irq_source (m (entry + 3)) (u32 m entry 4) (u16 m entry 8) p.interrupts;
}

unfoldable pub madt_entry : Devices → Memory → ℕ → Platform → Platform
madt_entry d m entry p =
    let type = m entry in
    if type == 0
    then add_lapic m entry p
    else if type == 1
    then add_io_apic d m entry p
    else if type == 2
    then add_override m entry p
    else p

-- the first of the two loops, from the entry at an address on
unfoldable pub madt_loop : ℕ → Devices → Memory → ℕ → ℕ → Platform → Option Platform
madt_loop zero d m entry end p = none
madt_loop (suc rounds) d m entry end p =
    let rest = madt_loop rounds d m (entry + m (entry + 1)) end (madt_entry d m entry p) in
    if ltb entry end then rest else some p

-- the processor that runs; one of zeros where the list does not have it
unfoldable pub find_bsp : ℕ → List Lapic → Lapic
find_bsp lapic_id [] = record { id = 0; acpi_id = 0 }
find_bsp lapic_id (lapic ∷ lapics) =
    let rest = find_bsp lapic_id lapics in if lapic.id == lapic_id then lapic else rest

-- an entry of type 4: the pin becomes the non-maskable interrupt, and the other pin is masked
unfoldable pub set_nmi : Devices → Memory → ℕ → Platform → Platform
set_nmi d m entry p =
    let processor_id = m (entry + 2) in
    let flags = u16 m entry 3 in
    let lint = m (entry + 5) in
    let pin = if lint == 0 then lvt_lint0 else lvt_lint1 in
    let other = if lint == 0 then lvt_lint1 else lvt_lint0 in
    if (processor_id == 0xff) || (processor_id == (find_bsp d.lapic_id p.lapics).acpi_id)
    then record p {
      lapic_writes =
          set_vector other 0 false false false true
            (set_vector pin 0xfe true (flags % 4 == 3) (flags / 4 % 4 == 3) false p.lapic_writes);
    }
    else p

unfoldable pub nmi_entry : Devices → Memory → ℕ → Platform → Platform
nmi_entry d m entry p = if m entry == 4 then set_nmi d m entry p else p

-- the second loop
unfoldable pub nmi_loop : ℕ → Devices → Memory → ℕ → ℕ → Platform → Option Platform
nmi_loop zero d m entry end p = none
nmi_loop (suc rounds) d m entry end p =
    let rest = nmi_loop rounds d m (entry + m (entry + 1)) end (nmi_entry d m entry p) in
    if ltb entry end then rest else some p

unfoldable pub mask_lvt : LapicRegister → LapicWrites → LapicWrites
mask_lvt reg ws = set_vector reg 0 false false false true ws

-- the end of `parse_madt`
unfoldable pub enable_lapic : Devices → Platform → Result Platform
enable_lapic d p =
    let masked = mask_lvt lvt_error (
      mask_lvt lvt_thermal
        (mask_lvt lvt_perf (mask_lvt lvt_timer (mask_lvt lvt_cmci p.lapic_writes)))) in
    elim (enable d.spurious p.interrupts.idt masked) [
      | panic ↦ panic
      | ok (idt, ws) ↦
          ok (record p { interrupts = record p.interrupts { idt = idt }; lapic_writes = ws })
    ]

-- the header of a table has 36 bytes, and that of this one 44; each loop has a round for each byte
unfoldable pub parse_madt : Devices → Memory → ℕ → Platform → Option (Result Platform)
parse_madt d m madt p =
    let size = u32 m madt 4 in
    elim (madt_loop (size + 1) d m (madt + 44) (madt + size) p) [
      | none ↦ none
      | some p' ↦ elim (nmi_loop (size + 1) d m (madt + 44) (madt + size) p') [
        | none ↦ none
        | some p'' ↦ some (enable_lapic d p'')
      ]
    ]
