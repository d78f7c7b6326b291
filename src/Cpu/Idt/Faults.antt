-- ===== src/Cpu/Idt/Faults.antt =====
-- src/cpu/interrupts/idt.cpp: what the handlers of exceptions do to the task that runs.
-- The lines printed before a panic, and before a task dies, are left out but for the name of the exception.
use Prim.Native.String.{String}
use fish_os.Base.{
  ℕ, ◌%◌, Bool, List, [], ◌∷◌, none, some, ok, panic, ◌==◌, ltb, if◌then◌else◌, get_or,
}
use fish_os.Cpu.{InterruptState}
use fish_os.Cpu.Idt.{Idt, null, exception_handler, page_fault_handler, function}
use fish_os.Mem.Vmm.{MappedRange}
use fish_os.Mem.Vmm.Pages.{Paging, handle_page_fault}
use fish_os.Sched.{Sched, dequeue_and_die}

-- what the page fault handler reads of a page map
pub record Pagemap : Type 0 where
  pub pml4 : ℕ
  pub mapped_ranges : List MappedRange

-- the registers, the tasks, the page maps at their addresses, and the memory of pages
pub record Kernel : Type 0 where
  pub gs_base : ℕ
  pub cr2 : ℕ
  pub hhdm : ℕ
  pub sched : Sched
  pub pagemaps : ℕ → Pagemap
  pub kernel_pagemap : ℕ
  pub paging : Paging

-- how a handler ends: the kernel panics, the task is out of the list and the processor waits for the timer,
-- a store through a null pointer, a return to what was interrupted, or another function takes over
pub data Ending : Type 0 where
  panicked : String → Ending
  died : Kernel → Ending
  null_store : Ending
  resumed : Kernel → Ending
  handed_over : ℕ → Ending

unfoldable pub exception_strings : List String
exception_strings =
    "Division by 0" ∷ "Debug" ∷ "NMI" ∷ "Breakpoint" ∷ "Overflow" ∷ "Bound range exceeded"
    ∷ "Invalid opcode" ∷ "Device not available" ∷ "Double fault" ∷ "???" ∷ "Invalid TSS"
    ∷ "Segment not present" ∷ "Stack-segment fault" ∷ "General protection fault" ∷ "Page fault"
    ∷ "???" ∷ "x87 exception" ∷ "Alignment check" ∷ "Machine check" ∷ "SIMD exception"
    ∷ "Virtualisation" ∷ "???" ∷ "???" ∷ "???" ∷ "???" ∷ "???" ∷ "???" ∷ "???" ∷ "???" ∷ "???"
    ∷ "Security" ∷ []

unfoldable pub err_name : ℕ → String
unfolding exception_strings
err_name vec = if ltb vec 19 then get_or exception_strings vec "Reserved" else "Reserved"

-- the interrupt came from code of ring 3
unfoldable pub from_user : InterruptState → Bool
from_user state = state.cs % 4 == 3

unfoldable pub handle_exception : ℕ → InterruptState → Kernel → Ending
handle_exception vec state k =
    if from_user state
    then elim (dequeue_and_die k.gs_base k.sched) [
      | none ↦ null_store
      | some sched ↦ died (record k { sched = sched })
    ]
    else panicked (err_name vec)

-- the page map in which the fault is looked up
unfoldable pub fault_pagemap : InterruptState → Kernel → Pagemap
fault_pagemap state k =
    k.pagemaps (if from_user state then (k.sched.tasks k.gs_base).pagemap else k.kernel_pagemap)

unfoldable pub handle_fault : ℕ → InterruptState → Kernel → Ending
handle_fault vec state k =
    let p = fault_pagemap state k in
    elim (handle_page_fault k.hhdm k.cr2 p.mapped_ranges p.pml4 k.paging) [
      | panic ↦ panicked "Out of physical memory"
      | ok (unhandled, paging) ↦
          let k' : Kernel = record k { paging = paging } in
          if unhandled then handle_exception vec state k' else resumed k'
    ]

-- `__idt_handler_common`: the call of the handler; a null handler is a jump to address 0
unfoldable pub idt_handler_common : Idt → ℕ → InterruptState → Kernel → Ending
idt_handler_common t vec state k = elim (t.handlers vec) [
  | null ↦ handed_over 0
  | exception_handler ↦ handle_exception vec state k
  | page_fault_handler ↦ handle_fault vec state k
  | function address ↦ handed_over address
]
