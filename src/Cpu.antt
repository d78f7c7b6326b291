-- ===== src/Cpu.antt =====
-- src/cpu: what the scheduler and the page fault handler know of the processor.
-- src/cpu/cpu.hpp and src/cpu/gdt/gdt.hpp: the registers that an interrupt saves, the segments.
pub mod Idt
pub mod Gdt
pub mod Pic
pub mod Apic
use fish_os.Base.{ℕ}

pub record InterruptState : Type 0 where
  pub ds : ℕ
  pub es : ℕ
  pub r15 : ℕ
  pub r14 : ℕ
  pub r13 : ℕ
  pub r12 : ℕ
  pub r11 : ℕ
  pub r10 : ℕ
  pub r9 : ℕ
  pub r8 : ℕ
  pub rbp : ℕ
  pub rdi : ℕ
  pub rsi : ℕ
  pub rdx : ℕ
  pub rcx : ℕ
  pub rbx : ℕ
  pub rax : ℕ
  pub err : ℕ
  pub rip : ℕ
  pub cs : ℕ
  pub rflags : ℕ
  pub rsp : ℕ
  pub ss : ℕ

-- `GDTSegment`
pub data GdtSegment : Type 0 where
  kernel_code_64 : GdtSegment
  kernel_data_64 : GdtSegment
  user_data_64 : GdtSegment
  user_code_64 : GdtSegment
  tss : GdtSegment

unfoldable pub selector : GdtSegment → ℕ
selector kernel_code_64 = 0x8
selector kernel_data_64 = 0x10
selector user_data_64 = 0x18
selector user_code_64 = 0x20
selector tss = 0x28

-- `new InterruptState()`
abbrev pub no_state : InterruptState
no_state = record {
  ds = 0;
  es = 0;
  r15 = 0;
  r14 = 0;
  r13 = 0;
  r12 = 0;
  r11 = 0;
  r10 = 0;
  r9 = 0;
  r8 = 0;
  rbp = 0;
  rdi = 0;
  rsi = 0;
  rdx = 0;
  rcx = 0;
  rbx = 0;
  rax = 0;
  err = 0;
  rip = 0;
  cs = 0;
  rflags = 0;
  rsp = 0;
  ss = 0;
}
