-- ===== src/Sched.antt =====
-- src/sched/sched.cpp: the tasks in a circular list, and the switch from one to the next.
-- A task is named by the address of its `sched_list`, so LIST_ENTRY is the identity. Of a task there
-- is what the scheduler works on; the descriptors are in Fs/Descriptors.antt.
pub mod Rotation
pub mod Turns
pub mod Create
pub mod Sample
mod Tests
use fish_os.Base.{
  ℕ, ◌+◌, ◌*◌, ◌/◌, ◌%◌, ◌^◌, Bool, true, false, List, [], ◌∷◌, Option, none, some, ok, panic,
  Result, ◌==◌, if◌then◌else◌,
}
use fish_os.Klib.List.{ListHead, Links, add_before, remove, empty}
use fish_os.Klib.List
use fish_os.Cpu.{InterruptState, no_state, selector, kernel_code_64, kernel_data_64}
use fish_os.Mem.Pmm.{Pmm, alloc_pages}

pub record Task : Type 0 where
  pub running_on : ℕ
  pub tid : ℕ
  pub pagemap : ℕ
  pub gpr_state : InterruptState
  pub gs_base : ℕ
  pub fs_base : ℕ
  pub stack : ℕ
  pub blocked : Bool

-- `sched_list_head`, the links of all lists, the tasks at their addresses, and `last_tid`
pub record Sched : Type 0 where
  pub head : ℕ
  pub links : Links
  pub tasks : ℕ → Task
  pub last_tid : ℕ

-- the registers that the switch writes, the page tables in use, and the timer's delay when it runs
pub record Cpu : Type 0 where
  pub gs_base : ℕ
  pub kernel_gs_base : ℕ
  pub fs_base : ℕ
  pub pagemap : ℕ
  pub timer : Option ℕ

-- what the interrupt finds and leaves; `gpr_state` is the frame that the return loads
pub record Machine : Type 0 where
  pub sched : Sched
  pub cpu : Cpu
  pub gpr_state : InterruptState

unfoldable pub put_task : ℕ → Task → (ℕ → Task) → ℕ → Task
put_task p t tasks a = if a == p then t else tasks a

abbrev pub saved : Cpu → InterruptState → Task → Task
saved c frame t = record t { gpr_state = frame; gs_base = c.kernel_gs_base; fs_base = c.fs_base }

-- the registers copied into the current task, if there is one
unfoldable pub save : Cpu → InterruptState → Sched → Sched
save c frame s = record s {
  tasks =
      if c.gs_base == 0
      then s.tasks
      else put_task c.gs_base (saved c frame (s.tasks c.gs_base)) s.tasks;
}

-- the head's first task; `none` where the list is empty
unfoldable pub first : Sched → Option ℕ
first s = if empty s.head s.links then none else some (s.links s.head).next

-- the task to switch to
unfoldable pub pick : Sched → ℕ → Option ℕ
pick s current =
    let next = (s.links current).next in
    if current == 0
    then first s
    else if next == 0
    then first s
    else if next == s.head
    then first s
    else some next

-- the processor as `current` runs
unfoldable pub load : ℕ → Sched → Cpu → Machine
load current s c =
    let t = s.tasks current in
    record {
      sched = s;
      cpu = record {
        gs_base = current;
        kernel_gs_base = if t.gpr_state.cs % 4 == 3 then t.gs_base else current;
        fs_base = t.fs_base;
        pagemap = t.pagemap;
        timer = some (1000000 / 300);
      };
      gpr_state = t.gpr_state;
    }

unfoldable pub scheduler_isr : InterruptState → Machine → Result Machine
scheduler_isr frame m =
    let s = save m.cpu frame m.sched in
    elim (pick s m.cpu.gs_base) [ none ↦ panic | some next ↦ ok (load next s m.cpu) ]

-- one interrupt after another, each with the registers it finds: the tasks switched to, in order
unfoldable pub turns : List InterruptState → Machine → Result (List ℕ × Machine)
turns [] m = ok ([], m)
turns (frame ∷ frames) m =
    let rest = turns frames in
    elim (scheduler_isr frame m) [
      | panic ↦ panic
      | ok m' ↦ elim (rest m') [
        | panic ↦ panic
        | ok (tasks, m'') ↦ ok (m'.cpu.gs_base ∷ tasks, m'')
      ]
    ]

-- `dequeue_and_die` up to its endless loop; `none` is a store through a null pointer
unfoldable pub dequeue_and_die : ℕ → Sched → Option Sched
dequeue_and_die current s = elim (remove current s.links) [
  | none ↦ none
  | some links ↦ some (record s { links = links })
]

-- `add_before` of a new task
unfoldable pub enqueue : ℕ → Sched → Option Sched
enqueue task s = elim (add_before s.head task s.links) [
  | none ↦ none
  | some links ↦ some (record s { links = links })
]

-- the frame of a new kernel task
unfoldable pub kernel_frame : ℕ → ℕ → InterruptState
kernel_frame ip stack = record no_state {
  cs = selector kernel_code_64;
  ds = selector kernel_data_64;
  es = selector kernel_data_64;
  ss = selector kernel_data_64;
  rflags = 0x202;
  rip = ip;
  rsp = stack;
}

abbrev pub stack_size : ℕ
stack_size = 64 * 1024

-- the task, with what its memory holds in the fields that are not set
unfoldable pub kernel_task : Task → ℕ → ℕ → ℕ → ℕ → Task
kernel_task fresh tid kernel ip stack = record {
  running_on = 0;
  tid = tid;
  pagemap = kernel;
  gpr_state = kernel_frame ip stack;
  gs_base = fresh.gs_base;
  fs_base = fresh.fs_base;
  stack = stack;
  blocked = false;
}

-- `task` and `fresh` are the memory that the heap gave to the task, with what it holds; `kernel` is the
-- kernel's page map. The result is `panic` where there is no memory for the stack.
unfoldable pub new_kernel_task :
    ℕ → Task → ℕ → ℕ → ℕ → Bool → Pmm → Sched → Result (Pmm × Option Sched)
new_kernel_task task fresh kernel hhdm ip enqueued p s =
    elim (alloc_pages (stack_size / 0x1000) p) [
      | panic ↦ panic
      | ok (p', stack_phy) ↦
          let stack = (stack_phy + stack_size + hhdm) % 2 ^ 64 in
          let s' : Sched = record s {
            tasks = put_task task (kernel_task fresh s.last_tid kernel ip stack) s.tasks;
            last_tid = (s.last_tid + 1) % 2 ^ 16;
          } in
          ok (p', if enqueued then enqueue task s' else some s')
    ]
