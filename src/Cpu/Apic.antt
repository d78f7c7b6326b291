-- ===== src/Cpu/Apic.antt =====
-- src/cpu/interrupts/apic.cpp and interrupts.cpp: the routes of the interrupts.
-- The registers of the devices are not part of the program. Of a write there is the number of the register
-- and the value, in a list with the oldest first; a value that is read is an argument.
pub mod Route
mod Tests
use Prim.Native.Nat.{bit_and, bit_or}
use fish_os.Base.{
  ℕ, ◌+◌, ◌-◌, ◌*◌, ◌/◌, ◌%◌, ◌^◌, Bool, true, false, ◌&&◌, List, [], ◌∷◌, ◌++◌, Result, ok, panic,
  ◌==◌, ltb, leb, if◌then◌else◌, get_or, set,
}
use fish_os.Klib.Bitmap.{to_nat}
use fish_os.Cpu.Idt.{Idt, IdtHandler, allocate_vector, load_idt_handler}

-- the registers of the local interrupt controller
pub data LapicRegister : Type 0 where
  id : LapicRegister
  ver : LapicRegister
  eoi : LapicRegister
  spurious : LapicRegister
  icr : LapicRegister
  lvt_cmci : LapicRegister
  lvt_timer : LapicRegister
  lvt_thermal : LapicRegister
  lvt_perf : LapicRegister
  lvt_lint0 : LapicRegister
  lvt_lint1 : LapicRegister
  lvt_error : LapicRegister
  timer_initial : LapicRegister
  timer_current : LapicRegister
  timer_divide : LapicRegister

unfoldable pub offset : LapicRegister → ℕ
offset id = 0x20
offset ver = 0x30
offset eoi = 0xb0
offset spurious = 0xf0
offset icr = 0x300
offset lvt_cmci = 0x2f0
offset lvt_timer = 0x320
offset lvt_thermal = 0x330
offset lvt_perf = 0x340
offset lvt_lint0 = 0x350
offset lvt_lint1 = 0x360
offset lvt_error = 0x370
offset timer_initial = 0x380
offset timer_current = 0x390
offset timer_divide = 0x3e0

-- the writes to the local interrupt controller, each with its offset from `reg_base`
abbrev pub LapicWrites : Type 0
LapicWrites = List (ℕ × ℕ)

-- `LAPIC::write_reg`
unfoldable pub write_lapic : LapicRegister → ℕ → LapicWrites → LapicWrites
write_lapic reg value ws = ws ++ (offset reg, value % 2 ^ 32) ∷ []

-- `LAPIC::eoi`
unfoldable pub end_of_interrupt : LapicWrites → LapicWrites
end_of_interrupt ws = write_lapic eoi 0 ws

unfoldable pub set_vector :
    LapicRegister → ℕ → Bool → Bool → Bool → Bool → LapicWrites → LapicWrites
set_vector reg vector nmi active_low level_trigger mask ws =
    write_lapic reg
      (bit_or
        (bit_or (bit_or (bit_or vector (to_nat nmi * 2 ^ 10)) (to_nat active_low * 2 ^ 13))
          (to_nat level_trigger * 2 ^ 15))
        (to_nat mask * 2 ^ 16))
      ws

-- `current` is what the register holds
unfoldable pub mask_vector : LapicRegister → ℕ → LapicWrites → LapicWrites
mask_vector reg current ws = write_lapic reg (bit_or current (2 ^ 16)) ws

unfoldable pub unmask_vector : LapicRegister → ℕ → LapicWrites → LapicWrites
unmask_vector reg current ws = write_lapic reg (bit_and current (2 ^ 32 - 1 - 2 ^ 16)) ws

-- `LAPIC::enable`, from the interrupt table on: the vector of the spurious interrupt and its handler
unfoldable pub enable : IdtHandler → Idt → LapicWrites → Result (Idt × LapicWrites)
enable handler t ws = elim (allocate_vector t) [
  | panic ↦ panic
  | ok (vector, t') ↦
      ok (load_idt_handler vector handler t', write_lapic spurious (bit_or vector (2 ^ 8)) ws)
]

-- a controller of lines, with the writes through its two registers
pub record IoApic : Type 0 where
  pub id : ℕ
  pub gsi_base : ℕ
  pub max_entries : ℕ
  pub writes : List (ℕ × ℕ)

-- the constructor; `version` is what register 1 holds
unfoldable pub new_io_apic : ℕ → ℕ → ℕ → IoApic
new_io_apic ioapic_id gsi_base version = record {
  id = ioapic_id % 2 ^ 8;
  gsi_base = gsi_base % 2 ^ 32;
  max_entries = version / 2 ^ 16 + 1;
  writes = [];
}

-- `IOAPIC::write_reg`
unfoldable pub write_reg : ℕ → ℕ → IoApic → IoApic
write_reg reg value io = record io { writes = io.writes ++ (reg % 2 ^ 32, value % 2 ^ 32) ∷ [] }

-- the vector and the bits of a redirection entry
unfoldable pub redir_low : ℕ → ℕ → Bool → Bool → Bool → Bool → ℕ
redir_low vector delivery_mode logic_dest active_low level_trigger mask =
    bit_or
      (bit_or
        (bit_or (bit_or (bit_or vector (delivery_mode * 2 ^ 8)) (to_nat logic_dest * 2 ^ 11))
          (to_nat active_low * 2 ^ 13))
        (to_nat level_trigger * 2 ^ 15))
      (to_nat mask * 2 ^ 16)

unfoldable pub set_redir_entry : ℕ → ℕ → ℕ → Bool → Bool → Bool → Bool → ℕ → IoApic → IoApic
set_redir_entry n vector delivery_mode logic_dest active_low level_trigger mask dest io =
    write_reg (n * 2 + 0x11) (dest % 2 ^ 8 * 2 ^ 24) (
      write_reg (n * 2 + 0x10)
        (redir_low vector delivery_mode logic_dest active_low level_trigger mask) io)

-- the table of the interrupts, the controllers, and the sources of the 16 old lines
pub record Interrupts : Type 0 where
  pub idt : Idt
  pub ioapics : List IoApic
  pub irq_to_gsi : List ℕ
  pub irq_flags : List ℕ

-- a line from 16 on, which the source writes behind its arrays, changes nothing here
unfoldable pub override_irq_source : ℕ → ℕ → ℕ → Interrupts → Interrupts
override_irq_source irq gsi flags s = record s {
  irq_to_gsi = set s.irq_to_gsi irq gsi;
  irq_flags = set s.irq_flags irq flags;
}

-- the condition under which a controller has the line
unfoldable pub serves : ℕ → IoApic → Bool
serves gsi io = leb io.gsi_base gsi && ltb gsi ((io.gsi_base + io.max_entries) % 2 ^ 32)

-- the loop over the controllers, up to the first that has the line
unfoldable pub route : ℕ → ℕ → Bool → Bool → ℕ → List IoApic → List IoApic
route gsi vector active_low level_trigger lapic_id [] = []
route gsi vector active_low level_trigger lapic_id (io ∷ ios) =
    let rest = route gsi vector active_low level_trigger lapic_id ios in
    if serves gsi io
    then set_redir_entry gsi vector 0 false active_low level_trigger false lapic_id io ∷ ios
    else io ∷ rest

-- `lapic_id` is what `LAPIC::read_id` reads
unfoldable pub register_gsi : ℕ → ℕ → Bool → Bool → IdtHandler → Interrupts → Result Interrupts
register_gsi lapic_id gsi active_low level_trigger handler s = elim (allocate_vector s.idt) [
  | panic ↦ panic
  | ok (vector, t) ↦ ok (record s {
    idt = load_idt_handler vector handler t;
    ioapics = route gsi vector active_low level_trigger lapic_id s.ioapics;
  })
]

unfoldable pub register_irq : ℕ → ℕ → IdtHandler → Interrupts → Result Interrupts
register_irq lapic_id irq handler s =
    let flags = get_or s.irq_flags irq 0 in
    register_gsi lapic_id (get_or s.irq_to_gsi irq 0) (flags % 4 == 3) (flags / 4 % 4 == 3) handler
      s
