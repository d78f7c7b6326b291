-- ===== src/Sched/Sample.antt =====
-- src/sched/sched.cpp: two tasks at the addresses 10 and 20 in the list of the head at 5, for the tests of
-- the scheduler and its clients.
use fish_os.Base.{ℕ, refl, false, [], ◌∷◌, ◌==◌, if◌then◌else◌, arith}
use fish_os.Cpu.{InterruptState}
use fish_os.Klib.List.{Links}
use fish_os.Klib.List.Ring.{Chain, Apart, Unique}
use fish_os.Sched.{Sched, Task}
use fish_os.Sched.Rotation.{Runs}

-- registers that are told apart by `rax`
abbrev pub registers : ℕ → InterruptState
registers n = record {
  ds = 0x10;
  es = 0x10;
  r15 = 0;
  r14 = 0;
  r13 = 0;
  r12 = 0;
  r11 = 0;
  r10 = 0;
  r9 = 0;
  r8 = 0;
  rbp = 0;
  rdi = 0;
  rsi = 0;
  rdx = 0;
  rcx = 0;
  rbx = 0;
  rax = n;
  err = 0;
  rip = 0;
  cs = 0x8;
  rflags = 0x202;
  rsp = 0;
  ss = 0x10;
}

abbrev pub task : ℕ → Task
task n = record {
  running_on = 0;
  tid = n;
  pagemap = 100;
  gpr_state = registers n;
  gs_base = 0;
  fs_base = n;
  stack = 0;
  blocked = false;
}

abbrev pub links : Links
links = λ a.
    if a == 5
    then record { next = 10; prev = 20 }
    else if a == 10
    then record { next = 20; prev = 5 }
    else if a == 20
    then record { next = 5; prev = 10 }
    else record { next = 0; prev = 0 }

abbrev pub sched : Sched
sched = record { head = 5; links = links; tasks = task; last_tid = 2 }

pub sched-Runs : Runs sched (10 ∷ 20 ∷ [])
unfolding Chain Unique Apart
sched-Runs = record {
  chain = (refl, (refl, (refl, (refl, (refl, refl)))));
  unique = ((ground arith, (ground arith, tt)), ((ground arith, tt), (tt, tt)));
  no_null = (ground arith, (ground arith, (ground arith, tt)));
}
