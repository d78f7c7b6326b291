-- ===== src/Cpu/Apic/Tests.antt =====
-- Two controllers of 24 lines each: tests, and the theorem at concrete inputs.
use fish_os.Base.{ℕ, ◌≡◌, refl, true, false, List, [], ◌∷◌, Result, ok, panic, replicate, map}
use fish_os.Klib.Bitmap.{get, bit_of}
use fish_os.Cpu.Idt.{Idt, null, function, allocate_vector, allocate_from}
use fish_os.Cpu.Apic.{
  IoApic, Interrupts, LapicWrites, lvt_lint0, offset, new_io_apic, write_reg, write_lapic,
  redir_low, set_redir_entry, set_vector, mask_vector, unmask_vector, enable, serves, route,
  register_gsi, register_irq, override_irq_source,
}

abbrev idt : Idt
idt = record {
  entries = λ i. record {
    offset1 = 0;
    selector = 0;
    attributes = 0;
    offset2 = 0;
    offset3 = 0;
    reserved = 0;
  };
  handlers = λ i. null;
  bitmap = record { buffer = 0xff ∷ 0xff ∷ 0xff ∷ 0xff ∷ replicate 28 0; size = 256 };
}

abbrev lines : List ℕ
lines = 0 ∷ 1 ∷ 2 ∷ 3 ∷ 4 ∷ 5 ∷ 6 ∷ 7 ∷ 8 ∷ 9 ∷ 10 ∷ 11 ∷ 12 ∷ 13 ∷ 14 ∷ 15 ∷ []

abbrev controllers : List IoApic
controllers =
    record { id = 1; gsi_base = 0; max_entries = 24; writes = [] }
    ∷ record { id = 2; gsi_base = 24; max_entries = 24; writes = [] }
    ∷ []

abbrev interrupts : Interrupts
interrupts = record {
  idt = idt;
  ioapics = controllers;
  irq_to_gsi = lines;
  irq_flags = replicate 16 0;
}

writes_of : Result Interrupts → List (List (ℕ × ℕ))
writes_of panic = []
writes_of (ok s) = map (λ (io : IoApic). io.writes) s.ioapics

-- the timer on line 2, active low and level triggered
override_test :
    writes_of (register_irq 0 0 (function 7) (override_irq_source 0 2 0xf interrupts))
    ≡ ((0x14, 0xa020) ∷ (0x15, 0) ∷ []) ∷ [] ∷ []
unfolding writes_of register_irq register_gsi override_irq_source allocate_vector allocate_from get
    bit_of route serves set_redir_entry redir_low write_reg
override_test = refl

-- line 25 is the second of the second controller, but its entry is written at number 25
second_test :
    writes_of (register_gsi 0 25 false false (function 7) interrupts)
    ≡ [] ∷ ((0x42, 0x20) ∷ (0x43, 0) ∷ []) ∷ []
unfolding writes_of register_gsi allocate_vector allocate_from get bit_of route serves
    set_redir_entry redir_low write_reg
second_test = refl

lint_test :
    unmask_vector lvt_lint0 0x124fe
      (mask_vector lvt_lint0 0x24fe (set_vector lvt_lint0 0xfe true true false false []))
    ≡ (0x350, 0x24fe) ∷ (0x350, 0x124fe) ∷ (0x350, 0x24fe) ∷ []
unfolding unmask_vector mask_vector set_vector write_lapic offset
lint_test = refl

version_test :
    new_io_apic 2 24 0x170020 ≡ record { id = 2; gsi_base = 24; max_entries = 24; writes = [] }
unfolding new_io_apic
version_test = refl

spurious_of : Result (Idt × LapicWrites) → LapicWrites
spurious_of panic = []
spurious_of (ok (t, ws)) = ws

enable_test : spurious_of (enable (function 9) idt []) ≡ (0xf0, 0x120) ∷ []
unfolding spurious_of enable allocate_vector allocate_from get bit_of write_lapic offset
enable_test = refl
