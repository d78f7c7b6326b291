-- ===== src/Cpu/Idt/Load.antt =====
-- src/cpu/interrupts/idt.cpp, `load_idt`: the table after the set-up.
use fish_os.Base.{
  ℕ, zero, suc, ◌+◌, ◌*◌, ◌/◌, ◌%◌, ◌^◌, ◌≤◌, ◌<◌, ◌≡◌, refl, ap, ◌∙◌, sym, true, false, List, ◌==◌,
  if◌then◌else◌, ltb, length, get_or, arith, ◌≢◌,
}
use native.Mathlib.Decide.{ℕ_discrete}
use native.Mathlib.Nat.{zero-div}
use fish_os.Klib.Bitmap.{bit_of, get}
use fish_os.Klib.Bitmap.Bits.{get-set_bit, set_bit-IsBytes, length-set_bit}
use fish_os.Cpu.Idt.{
  Idt, IdtEntry, IdtType, interrupt, type_bits, exception_handler, page_fault_handler, gate,
  load_idt_entry, load_idt_handler, load_entries, load_exceptions, load_idt,
}
use fish_os.Cpu.Idt.Vectors.{HasVectors}

-- the address that the processor jumps to, from the three parts of it in a gate
unfoldable pub target : IdtEntry → ℕ
target e = e.offset1 + e.offset2 * 2 ^ 16 + e.offset3 * 2 ^ 32

pub target-gate :
    (wrapper : ℕ) (type : IdtType) → wrapper < 2 ^ 64 → target (gate wrapper type) ≡ wrapper
unfolding target gate
target-gate wrapper type h = omega arith

entries-load_entries :
    (wrappers : ℕ → ℕ) (n i : ℕ) (t : Idt)
    → i < n
    → (load_entries wrappers n t).entries i ≡ gate (wrappers i) interrupt
unfolding load_entries load_idt_entry
entries-load_entries wrappers zero i t h = absurd (omega arith)
entries-load_entries wrappers (suc n) i t h = elim (ℕ_discrete i n) [
  | yes e ↦
      let same : (i == n) ≡ true = ground (arith, e) in
      rw same (ap (λ k. gate (wrappers k) interrupt) (sym e))
  | no ne ↦
      let other : (i == n) ≡ false = ground (arith, ne) in
      rw other (entries-load_entries wrappers n i t (omega (arith, ne)))
]

bitmap-load_entries :
    (wrappers : ℕ → ℕ) (n : ℕ) (t : Idt) → (load_entries wrappers n t).bitmap ≡ t.bitmap
unfolding load_entries load_idt_entry
bitmap-load_entries wrappers zero t = refl
bitmap-load_entries wrappers (suc n) t = bitmap-load_entries wrappers n t

entries-load_exceptions : (n : ℕ) (t : Idt) → (load_exceptions n t).entries ≡ t.entries
unfolding load_exceptions load_idt_handler
entries-load_exceptions zero t = refl
entries-load_exceptions (suc n) t = entries-load_exceptions n t

handlers-load_exceptions :
    (n i : ℕ) (t : Idt)
    → i < n
    → (load_exceptions n t).handlers i
      ≡ (if i == 0xe then page_fault_handler else exception_handler)
unfolding load_exceptions load_idt_handler
handlers-load_exceptions zero i t h = absurd (omega arith)
handlers-load_exceptions (suc n) i t h = elim (ℕ_discrete i n) [
  | yes e ↦
      let same : (i == n) ≡ true = ground (arith, e) in
      rw same (ap (λ k. if k == 0xe then page_fault_handler else exception_handler) (sym e))
  | no ne ↦
      let other : (i == n) ≡ false = ground (arith, ne) in
      rw other (handlers-load_exceptions n i t (omega (arith, ne)))
]

HasVectors-load_exceptions :
    (n : ℕ) (t : Idt) → n ≤ 256 → HasVectors t → HasVectors (load_exceptions n t)
unfolding load_exceptions load_idt_handler
HasVectors-load_exceptions zero t le v = v
HasVectors-load_exceptions (suc n) t le v =
    let before = HasVectors-load_exceptions n t (omega arith) v in
    record {
      bytes =
          set_bit-IsBytes (load_exceptions n t).bitmap n true before.bytes
            (omega (arith, before.room));
      room = length-set_bit (load_exceptions n t).bitmap n true ∙ before.room;
    }

bits-load_exceptions :
    (n j : ℕ) (t : Idt)
    → n ≤ 256
    → HasVectors t
    → get (load_exceptions n t).bitmap j ≡ (if ltb j n then true else get t.bitmap j)
unfolding load_exceptions load_idt_handler
bits-load_exceptions zero j t le v = ground arith
bits-load_exceptions (suc n) j t le v =
    let before = HasVectors-load_exceptions n t (omega arith) v in
    get-set_bit (load_exceptions n t).bitmap n j true before.bytes (omega (arith, before.room))
    ∙ ground (arith, bits-load_exceptions n j t (omega arith) v)

attributes-gate : (wrapper : ℕ) → (gate wrapper interrupt).attributes ≡ 0x8e00
unfolding gate type_bits
attributes-gate wrapper = refl

selector-gate : (wrapper : ℕ) → (gate wrapper interrupt).selector ≡ 8
unfolding gate fish_os.Cpu.selector
selector-gate wrapper = refl

bit_of-zero : (r : ℕ) → bit_of 0 r ≡ false
unfolding bit_of
bit_of-zero r = let none : 0 / 2 ^ r ≡ 0 = zero-div (2 ^ r) in rw none refl

-- each gate leads to its wrapper, is present and closes the interrupts; the page fault and the other
-- exceptions have their handlers; the vectors below 32 are in use, and the rest is free
pub record Loaded (wrappers : ℕ → ℕ) (t : Idt) : Type 0 where
  pub targets : (i : ℕ) → i < 256 → target (t.entries i) ≡ wrappers i
  pub kernel_code : (i : ℕ) → i < 256 → (t.entries i).selector ≡ 8
  pub present : (i : ℕ) → i < 256 → (t.entries i).attributes ≡ 0x8e00
  pub page_fault : t.handlers 14 ≡ page_fault_handler
  pub exceptions : (i : ℕ) → i < 32 → i ≢ 14 → t.handlers i ≡ exception_handler
  pub in_use : (i : ℕ) → get t.bitmap i ≡ ltb i 32
  pub has_vectors : HasVectors t

module _ (wrappers : ℕ → ℕ) (raw : List ℕ) (t : Idt) (addresses : (i : ℕ) → wrappers i < 2 ^ 64)
    (zeros : (d : ℕ) → get_or raw d 0 ≡ 0) (size : length raw ≡ 32) where
  abbrev start : Idt
  start = record t { bitmap = record { buffer = raw; size = 256 } }

  start-HasVectors : HasVectors (load_entries wrappers 256 start)
  start-HasVectors = record {
    bytes = rw (bitmap-load_entries wrappers 256 start) (λ d. rw (zeros d) (omega arith));
    room = rw (bitmap-load_entries wrappers 256 start) size;
  }

  entry : (i : ℕ) → i < 256 → (load_idt wrappers raw t).entries i ≡ gate (wrappers i) interrupt
  unfolding load_idt
  entry i h =
      ap (λ (es : ℕ → IdtEntry). es i)
        (entries-load_exceptions 32 (load_entries wrappers 256 start))
      ∙ entries-load_entries wrappers 256 i start h

  unused : (i : ℕ) → get (load_entries wrappers 256 start).bitmap i ≡ false
  unfolding get
  unused i = rw (bitmap-load_entries wrappers 256 start, zeros (i / 8)) (bit_of-zero (i % 8))

  -- With a buffer of 32 zeros and wrappers at addresses of 64 bits, `load_idt` leaves a table in which each
  -- of the 256 gates is present, in the kernel's code, and leads to its wrapper; the page fault and the
  -- other exceptions have their handlers, and just the vectors below 32 are in use.
  pub load_idt-Loaded : Loaded wrappers (load_idt wrappers raw t)
  unfolding load_idt
  load_idt-Loaded = record {
    targets = λ i h. ap target (entry i h) ∙ target-gate (wrappers i) interrupt (addresses i);
    kernel_code = λ i h. ap (λ (e : IdtEntry). e.selector) (entry i h) ∙ selector-gate (wrappers i);
    present = λ i h. ap (λ (e : IdtEntry). e.attributes) (entry i h) ∙ attributes-gate (wrappers i);
    page_fault = handlers-load_exceptions 32 14 (load_entries wrappers 256 start) (omega arith);
    exceptions = λ i h ne.
        handlers-load_exceptions 32 i (load_entries wrappers 256 start) h ∙ ground (arith, ne);
    in_use = λ i.
        bits-load_exceptions 32 i (load_entries wrappers 256 start) (omega arith) start-HasVectors
        ∙ rw (unused i) (ground arith);
    has_vectors =
        HasVectors-load_exceptions 32 (load_entries wrappers 256 start) (omega arith)
          start-HasVectors;
  }
