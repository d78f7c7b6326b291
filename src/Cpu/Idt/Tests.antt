-- ===== src/Cpu/Idt/Tests.antt =====
-- The table of the interrupts: tests, and the theorems at concrete inputs.
use fish_os.Base.{
  ℕ, zero, suc, Result, panic, leb, ◌^◌, ◌+◌, ◌*◌, ◌<◌, ◌≡◌, refl, List, [], ◌∷◌, ok, if◌then◌else◌,
  get_or, replicate, arith,
}
use fish_os.Cpu.{InterruptState, no_state}
use fish_os.Klib.Bitmap.{bit_of, get}
use fish_os.Cpu.Idt.{Idt, null, allocate_from, allocate_vector, load_idt}
use fish_os.Cpu.Idt.Vectors.{HasVectors, Allocates, allocate_vector-Allocates}
use fish_os.Cpu.Idt.Load.{Loaded, load_idt-Loaded}
use fish_os.Cpu.Idt.Faults.{Kernel, err_name}
use fish_os.Mem.Vmm.Pages.Sample.{paging, heap}
use fish_os.Sched.Sample.{sched}

abbrev zeros : List ℕ
zeros = replicate 32 0

-- the static variables
abbrev start : Idt
start = record {
  entries = λ i. record {
    offset1 = 0;
    selector = 0;
    attributes = 0;
    offset2 = 0;
    offset3 = 0;
    reserved = 0;
  };
  handlers = λ i. null;
  bitmap = record { buffer = 0xff ∷ 0xff ∷ 0xff ∷ 0xff ∷ 0x05 ∷ replicate 27 0; size = 256 };
}

vector_of : Result (ℕ × Idt) → ℕ
vector_of panic = 0
vector_of (ok (v, t)) = v

allocate_test : vector_of (allocate_vector start) ≡ 33
unfolding vector_of allocate_vector allocate_from get bit_of
allocate_test = refl

err_name_test : err_name 13 ≡ "General protection fault"
unfolding err_name
err_name_test = refl

-- the table has a name for it
simd_test : err_name 19 ≡ "Reserved"
unfolding err_name
simd_test = refl

replicate_zeros : (n d : ℕ) → get_or {A = ℕ} (replicate n 0) d 0 ≡ 0
replicate_zeros zero d = refl
replicate_zeros (suc n) zero = refl
replicate_zeros (suc n) (suc d) = replicate_zeros n d

start_bytes : (d : ℕ) → get_or start.bitmap.buffer d 0 < 256
start_bytes zero = omega arith
start_bytes (suc zero) = omega arith
start_bytes (suc (suc zero)) = omega arith
start_bytes (suc (suc (suc zero))) = omega arith
start_bytes (suc (suc (suc (suc zero)))) = omega arith
start_bytes (suc (suc (suc (suc (suc d))))) = omega (arith, replicate_zeros 27 d)

start-HasVectors : HasVectors start
start-HasVectors = record { bytes = start_bytes; room = refl }

allocate_vector-Allocates_example : Allocates start (allocate_vector start)
allocate_vector-Allocates_example = allocate_vector-Allocates start start-HasVectors

wrappers : ℕ → ℕ
wrappers i = if leb i 255 then 0xffffffff80000000 + i * 16 else 0

wrappers-lt : (i : ℕ) → wrappers i < 2 ^ 64
unfolding wrappers
wrappers-lt i = ground arith

zeros-zero : (d : ℕ) → get_or zeros d 0 ≡ 0
zeros-zero d = replicate_zeros 32 d

load_idt-Loaded_example : Loaded wrappers (load_idt wrappers zeros start)
load_idt-Loaded_example = load_idt-Loaded wrappers zeros start wrappers-lt zeros-zero refl

-- the task at 10 runs in ring 3
abbrev kernel : Kernel
kernel = record {
  gs_base = 10;
  cr2 = 0x40201008;
  hhdm = 0;
  sched = sched;
  pagemaps = λ a. record { pml4 = 0x1000; mapped_ranges = heap ∷ [] };
  kernel_pagemap = 100;
  paging = paging;
}

abbrev frame : InterruptState
frame = record no_state { cs = 0x23 }
