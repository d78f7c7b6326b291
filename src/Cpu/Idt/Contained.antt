-- ===== src/Cpu/Idt/Contained.antt =====
-- src/cpu/interrupts/idt.cpp: an exception of a program ends at most that program.
use fish_os.Base.{ℕ, ◌<◌, ◌≡◌, ◌≢◌, refl, true, List, ◌∷◌, ◌++◌}
use fish_os.Cpu.{InterruptState}
use fish_os.Cpu.Idt.{Idt}
use fish_os.Cpu.Idt.Load.{Loaded}
use fish_os.Cpu.Idt.Faults.{
  Pagemap, Kernel, Ending, died, resumed, from_user, handle_exception, idt_handler_common,
}
use fish_os.Mem.Vmm.Pages.Tree.{Levels, IsTree}
use fish_os.Mem.Vmm.Pages.Enough.{Enough}
use fish_os.Mem.Vmm.Pages.Fault.{Backed}
use fish_os.Sched.Rotation.{Runs}
use fish_os.Sched.Create.{dequeue_and_die-Runs}

-- the task that ran is out of the scheduler's list, the others stay in their order, and no task has changed
pub record Killed (k : Kernel) (others : List ℕ) (ending : Ending) : Type 0 where
  pub after : Kernel
  pub ended : ending ≡ died after
  pub runs : Runs after.sched others
  pub same_tasks : after.sched.tasks ≡ k.sched.tasks

pub handle_exception-Killed :
    (vec : ℕ) (state : InterruptState) (k : Kernel) (xs ys : List ℕ)
    → from_user state ≡ true
    → Runs k.sched (xs ++ (k.gs_base ∷ ys))
    → Killed k (xs ++ ys) (handle_exception vec state k)
unfolding handle_exception
handle_exception-Killed vec state k xs ys user runs =
    let (sched, run, (left, (same, _))) = dequeue_and_die-Runs k.gs_base k.sched xs ys runs in
    record {
      after = record k { sched = sched };
      ended = rw (handle_exception, user, run) refl;
      runs = left;
      same_tasks = same;
    }

-- With the table as `load_idt` leaves it, an exception other than a page fault that comes from a program
-- does not panic: the task that ran leaves the scheduler's list, and the others stay in their order.
pub exception-Killed :
    (wrappers : ℕ → ℕ) (t : Idt) (vec : ℕ) (state : InterruptState) (k : Kernel) (xs ys : List ℕ)
    → Loaded wrappers t
    → vec < 32
    → vec ≢ 14
    → from_user state ≡ true
    → Runs k.sched (xs ++ (k.gs_base ∷ ys))
    → Killed k (xs ++ ys) (idt_handler_common t vec state k)
unfolding idt_handler_common
exception-Killed wrappers t vec state k xs ys loaded low other user runs =
    rw (idt_handler_common, loaded.exceptions vec low other)
      (handle_exception-Killed vec state k xs ys user runs)

-- the program goes on, and the address of the fault leads to a page of zeros; the tasks are as they were
pub record Resumed (k : Kernel) (p : Pagemap) (ending : Ending) : Type 0 where
  pub after : Kernel
  pub ended : ending ≡ resumed after
  pub same_sched : after.sched ≡ k.sched
  pub level : Levels
  pub tree : IsTree level after.paging
  pub backed : Backed level k.cr2 p.pml4 after.paging
