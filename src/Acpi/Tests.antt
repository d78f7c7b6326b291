-- ===== src/Acpi/Tests.antt =====
-- A table with two processors, a controller, an overridden source, a pin and an unknown entry.
use fish_os.Base.{
  ℕ, ◌+◌, ◌==◌, ◌&&◌, ◌≡◌, refl, Bool, true, List, [], ◌∷◌, ◌++◌, Option, none, some, Result, ok,
  panic, get_or, if◌then◌else◌, ◌-◌, replicate, leb,
}
use fish_os.Klib.Memory.{Memory}
use fish_os.Klib.Bitmap.{get, bit_of}
use fish_os.Cpu.Idt.{Idt, null, function, allocate_vector, allocate_from}
use fish_os.Cpu.Apic.{offset, new_io_apic, write_lapic, set_vector, enable, override_irq_source}
use fish_os.Acpi.{sum_bytes, do_checksum, has_text, parse_sdt}
use fish_os.Acpi.Madt.{
  Platform, Devices, u16, u32, add_lapic, add_io_apic, add_override, madt_entry, madt_loop,
  find_bsp, set_nmi, nmi_entry, nmi_loop, mask_lvt, enable_lapic, parse_madt,
}
use fish_os.Acpi.Entries.{Entry, local, io, override, nmi, other, encode}

abbrev madt_entries : List Entry
madt_entries =
    local 1 0 1
    ∷ local 2 1 0
    ∷ io 2 0xfec00000 0
    ∷ override 0 2 0
    ∷ nmi 0xff 5 1
    ∷ other 9 (7 ∷ [])
    ∷ []

abbrev table_header : List ℕ
table_header =
    b'A'
    ∷ b'P'
    ∷ b'I'
    ∷ b'C'
    ∷ 91
    ∷ 0
    ∷ 0
    ∷ 0
    ∷ (replicate 28 0 ++ 0 ∷ 0 ∷ 0xe0 ∷ 0xfe ∷ replicate 4 0)

abbrev bytes : List ℕ
bytes =
    table_header
    ++ (encode (local 1 0 1)
        ++ (encode (local 2 1 0)
            ++ (encode (io 2 0xfec00000 0)
                ++ (encode (override 0 2 0)
                    ++ (encode (nmi 0xff 5 1) ++ encode (other 9 (7 ∷ [])))))))

-- the table at 0x1000
abbrev memory : Memory
memory a = if leb 0x1000 a then get_or bytes (a - 0x1000) 0 else 0

devices : Devices
devices = record { version = λ a. 0x170020; lapic_id = 0; spurious = function 9 }

abbrev idt : Idt
idt = record {
  entries = λ i. record {
    offset1 = 0;
    selector = 0;
    attributes = 0;
    offset2 = 0;
    offset3 = 0;
    reserved = 0;
  };
  handlers = λ i. null;
  bitmap = record { buffer = 0xff ∷ 0xff ∷ 0xff ∷ 0xff ∷ replicate 28 0; size = 256 };
}

abbrev platform : Platform
platform = record {
  interrupts = record {
    idt = idt;
    ioapics = [];
    irq_to_gsi = 0 ∷ 1 ∷ 2 ∷ 3 ∷ [];
    irq_flags = replicate 4 0;
  };
  lapics = [];
  lapic_writes = [];
  mapped_pages = [];
  hpets = [];
}

agrees : Memory → ℕ → List ℕ → Bool
agrees m a [] = true
agrees m a (b ∷ bs) = (m a == b) && agrees m (a + 1) bs

writes_of : Option (Result Platform) → List (ℕ × ℕ)
writes_of none = []
writes_of (some panic) = []
writes_of (some (ok p)) = p.lapic_writes

-- the table with the sum of its bytes made 0 by its byte 9, behind a table of tables at 0x2000
abbrev summed : Memory
summed a = if a == 0x1009 then 152 else memory a

parse_sdt_test :
    writes_of (parse_sdt devices summed 0x1000 platform)
    ≡ (0x360, 0x4fe)
      ∷ (0x350, 0x10000)
      ∷ (0x2f0, 0x10000)
      ∷ (0x320, 0x10000)
      ∷ (0x340, 0x10000)
      ∷ (0x330, 0x10000)
      ∷ (0x370, 0x10000)
      ∷ (0xf0, 0x120)
      ∷ []
unfolding writes_of parse_sdt do_checksum sum_bytes has_text parse_madt madt_loop madt_entry
    add_lapic add_io_apic add_override nmi_loop nmi_entry set_nmi find_bsp enable_lapic mask_lvt u32
    u16 enable allocate_vector allocate_from set_vector write_lapic offset new_io_apic
    override_irq_source get bit_of devices
parse_sdt_test = refl
