-- ===== src/Acpi/Lapic.antt =====
-- src/acpi/tables.cpp and src/cpu/interrupts/apic.cpp: what `parse_madt` writes to the local controller, by
-- the offsets of its registers and the bits of their values.
use Prim.Native.Nat.{bit_or}
use fish_os.Base.{
  ℕ, ◌+◌, ◌%◌, ◌^◌, ◌≡◌, refl, ap, inl, inr, Bool, true, false, [], ◌∷◌, ◌++◌, Result, ok, panic,
  Result-cases, if◌then◌else◌,
}
use fish_os.Cpu.Idt.{allocate_vector, load_idt_handler}
use fish_os.Cpu.Apic.{LapicWrites, lvt_lint0, lvt_lint1, offset, write_lapic, set_vector, enable}
use fish_os.Acpi.Madt.{Platform, Devices, mask_lvt, enable_lapic}

-- the vectors of CMCI, the timer, the performance counters, the thermal sensor and errors are masked, bit 16,
-- and the controller is enabled, bit 8 of the register of the spurious vector
abbrev pub local_writes : ℕ → LapicWrites
local_writes vector =
    (0x2f0, 0x10000)
    ∷ (0x320, 0x10000)
    ∷ (0x340, 0x10000)
    ∷ (0x330, 0x10000)
    ∷ (0x370, 0x10000)
    ∷ (0xf0, bit_or vector 0x100 % 2 ^ 32)
    ∷ []

-- the end: a free vector, if there is one, gets the function for spurious interrupts
unfoldable pub finish : Devices → Platform → Result Platform
finish d p = elim (allocate_vector p.interrupts.idt) [
  | panic ↦ panic
  | ok (vector, idt) ↦ ok (record p {
    interrupts = record p.interrupts { idt = load_idt_handler vector d.spurious idt };
    lapic_writes = p.lapic_writes ++ local_writes vector;
  })
]

six_writes :
    (ws : LapicWrites) (a b c d e f : ℕ × ℕ)
    → (((((ws ++ a ∷ []) ++ b ∷ []) ++ c ∷ []) ++ d ∷ []) ++ e ∷ []) ++ f ∷ []
      ≡ ws ++ (a ∷ b ∷ c ∷ d ∷ e ∷ f ∷ [])
six_writes [] a b c d e f = refl
six_writes (w ∷ ws) a b c d e f = ap (λ l. w ∷ l) (six_writes ws a b c d e f)

pub two_writes : (ws : LapicWrites) (a b : ℕ × ℕ) → (ws ++ a ∷ []) ++ b ∷ [] ≡ ws ++ (a ∷ b ∷ [])
two_writes [] a b = refl
two_writes (w ∷ ws) a b = ap (λ l. w ∷ l) (two_writes ws a b)

pub enable_lapic-finish : (d : Devices) (p : Platform) → enable_lapic d p ≡ finish d p
unfolding enable_lapic enable finish mask_lvt set_vector write_lapic offset
enable_lapic-finish d p = elim (Result-cases (allocate_vector p.interrupts.idt)) [
  | inr full ↦ rw (enable_lapic, enable, finish, full) refl
  | inl ((vector, idt), free) ↦
      rw (enable_lapic, enable, finish, free)
        (ap
          (λ (ws : LapicWrites). ok (record p {
            interrupts = record p.interrupts { idt = load_idt_handler vector d.spurious idt };
            lapic_writes = ws;
          }))
          (six_writes p.lapic_writes (0x2f0, 0x10000) (0x320, 0x10000) (0x340, 0x10000)
            (0x330, 0x10000) (0x370, 0x10000) (0xf0, bit_or vector 0x100 % 2 ^ 32)))
]

-- the pin with vector 0xfe, the mode of non-maskable interrupts, bit 10, and the bits 13 and 15 for a low
-- level and a level trigger; the other pin is masked
abbrev pub pin_writes : Bool → Bool → Bool → LapicWrites
pin_writes first low level =
    (
      if first then 0x350 else 0x360,
      0x4fe + (if low then 0x2000 else 0) + (if level then 0x8000 else 0),
    )
    ∷ (if first then 0x360 else 0x350, 0x10000)
    ∷ []

pub set_pins :
    (first low level : Bool) (ws : LapicWrites)
    → set_vector
        (if first then lvt_lint1 else lvt_lint0)
        0
        false
        false
        false
        true
        (set_vector (if first then lvt_lint0 else lvt_lint1) 0xfe true low level false ws)
      ≡ ws ++ pin_writes first low level
unfolding set_vector write_lapic offset
set_pins true true true ws = two_writes ws (0x350, 0xa4fe) (0x360, 0x10000)
set_pins true true false ws = two_writes ws (0x350, 0x24fe) (0x360, 0x10000)
set_pins true false true ws = two_writes ws (0x350, 0x84fe) (0x360, 0x10000)
set_pins true false false ws = two_writes ws (0x350, 0x4fe) (0x360, 0x10000)
set_pins false true true ws = two_writes ws (0x360, 0xa4fe) (0x350, 0x10000)
set_pins false true false ws = two_writes ws (0x360, 0x24fe) (0x350, 0x10000)
set_pins false false true ws = two_writes ws (0x360, 0x84fe) (0x350, 0x10000)
set_pins false false false ws = two_writes ws (0x360, 0x4fe) (0x350, 0x10000)
