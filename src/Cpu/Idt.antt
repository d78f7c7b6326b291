-- ===== src/Cpu/Idt.antt =====
-- src/cpu/interrupts/idt.cpp: the table of the interrupts and the allocation of its vectors.
-- The table and the handlers are functions of the vector, a number of 8 bits. The processor's registers
-- that `lidt`, `cli` and `sti` set are left out.
pub mod Vectors
pub mod Load
pub mod Faults
pub mod Contained
mod Tests
use Prim.Native.Nat.{bit_or}
use fish_os.Base.{
  ℕ, zero, suc, ◌+◌, ◌*◌, ◌/◌, ◌%◌, ◌^◌, Bool, true, false, not, Option, none, some, Result, ok,
  panic, ◌==◌, if◌then◌else◌, List,
}
use fish_os.Klib.Bitmap.{Bitmap, get, set_bit}
use fish_os.Cpu.{kernel_code_64}
use fish_os.Cpu.{selector as segment_selector}

-- the fields of a gate, in their order
pub record IdtEntry : Type 0 where
  pub offset1 : ℕ
  pub selector : ℕ
  pub attributes : ℕ
  pub offset2 : ℕ
  pub offset3 : ℕ
  pub reserved : ℕ

pub data IdtType : Type 0 where
  interrupt : IdtType
  trap : IdtType

unfoldable pub type_bits : IdtType → ℕ
type_bits interrupt = 0b1110
type_bits trap = 0b1111

-- what a pointer of the type `IDTHandler` points to: nothing, the two functions of the file, or the
-- function at an address
pub data IdtHandler : Type 0 where
  null : IdtHandler
  exception_handler : IdtHandler
  page_fault_handler : IdtHandler
  function : ℕ → IdtHandler

-- `idt`, `idt_handlers` and `idt_bitmap`
pub record Idt : Type 0 where
  pub entries : ℕ → IdtEntry
  pub handlers : ℕ → IdtHandler
  pub bitmap : Bitmap

-- the loop of `allocate_vector` from `i` on, until the 8 bits of `i` are 0
unfoldable pub allocate_from : ℕ → ℕ → Idt → Result (ℕ × Idt)
allocate_from zero i t = panic
allocate_from (suc rounds) i t =
    let rest = allocate_from rounds ((i + 1) % 256) t in
    if i == 0
    then panic
    else if not (get t.bitmap i)
    then ok (i, record t { bitmap = set_bit t.bitmap i true })
    else rest

unfoldable pub allocate_vector : Idt → Result (ℕ × Idt)
allocate_vector t = allocate_from 256 32 t

-- the gate of a wrapper's address
unfoldable pub gate : ℕ → IdtType → IdtEntry
gate wrapper type = record {
  offset1 = wrapper % 2 ^ 16;
  selector = segment_selector kernel_code_64;
  attributes = bit_or (1 * 2 ^ 15) (type_bits type * 2 ^ 8);
  offset2 = wrapper / 2 ^ 16 % 2 ^ 16;
  offset3 = wrapper / 2 ^ 32 % 2 ^ 32;
  reserved = 0;
}

unfoldable pub load_idt_entry : ℕ → ℕ → IdtType → Idt → Idt
load_idt_entry index wrapper type t = record t {
  entries = λ i. if i == index then gate wrapper type else t.entries i;
}

unfoldable pub load_idt_handler : ℕ → IdtHandler → Idt → Idt
load_idt_handler index handler t = record t {
  handlers = λ i. if i == index then handler else t.handlers i;
}

-- the first loop of `load_idt`, over the vectors below `n`
unfoldable pub load_entries : (ℕ → ℕ) → ℕ → Idt → Idt
load_entries wrappers zero t = t
load_entries wrappers (suc n) t =
    load_idt_entry n (wrappers n) interrupt (load_entries wrappers n t)

-- the second loop, over the vectors below `n`
unfoldable pub load_exceptions : ℕ → Idt → Idt
load_exceptions zero t = t
load_exceptions (suc n) t =
    let t' : Idt =
      load_idt_handler n (if n == 0xe then page_fault_handler else exception_handler)
        (load_exceptions n t) in
    record t' { bitmap = set_bit t'.bitmap n true }

-- the bitmap gets its buffer, and the loops go over the 256 wrappers, which the assembly defines, and the
-- 32 exceptions
unfoldable pub load_idt : (ℕ → ℕ) → List ℕ → Idt → Idt
load_idt wrappers idt_raw_bitmap t = load_exceptions 32 (
    load_entries wrappers 256
      (record t { bitmap = record { buffer = idt_raw_bitmap; size = 256 } }))
