-- ===== src/Sched/Create.antt =====
-- src/sched/sched.cpp: a task joins the list, and leaves it.
use fish_os.Base.{
  ℕ, ◌+◌, ◌/◌, ◌%◌, ◌^◌, ◌≡◌, ◌≢◌, inl, inr, refl, ap, subst, true, false, List, [], ◌∷◌, ◌++◌,
  some, ok, arith,
}
use fish_os.Mem.Pmm.{Pmm, alloc_pages}
use fish_os.Klib.List.{ListHead}
use fish_os.Klib.List.Ring.{Apart}
use fish_os.Klib.List.Entries.{add_before-IsRing}
use fish_os.Klib.List.Removal.{remove-IsRing}
use fish_os.Cpu.{selector}
use fish_os.Sched.{
  Sched, Task, put_task, first, pick, dequeue_and_die, enqueue, kernel_task, kernel_frame,
  stack_size, new_kernel_task,
}
use fish_os.Sched.Rotation.{Runs, pick-first}

-- a kernel task that begins at `ip` with `stack` as its stack pointer, in kernel segments
pub record Starts (tid kernel ip stack : ℕ) (t : Task) : Type 0 where
  pub number : t.tid ≡ tid
  pub pagemap : t.pagemap ≡ kernel
  pub stack_end : t.stack ≡ stack
  pub runnable : t.blocked ≡ false
  pub rip : t.gpr_state.rip ≡ ip
  pub rsp : t.gpr_state.rsp ≡ stack
  pub cs : t.gpr_state.cs ≡ 0x8
  pub ss : t.gpr_state.ss ≡ 0x10
  pub ds : t.gpr_state.ds ≡ 0x10
  pub es : t.gpr_state.es ≡ 0x10
  pub rflags : t.gpr_state.rflags ≡ 0x202

kernel_task-Starts :
    (fresh : Task) (tid kernel ip stack : ℕ)
    → Starts tid kernel ip stack (kernel_task fresh tid kernel ip stack)
unfolding kernel_task kernel_frame selector
kernel_task-Starts fresh tid kernel ip stack = record {
  number = refl;
  pagemap = refl;
  stack_end = refl;
  runnable = refl;
  rip = refl;
  rsp = refl;
  cs = refl;
  ss = refl;
  ds = refl;
  es = refl;
  rflags = refl;
}

-- `s'` is `s` with one more task, the last of its list, which starts at `ip`
pub record Joined (s s' : Sched) (tasks : List ℕ) (task kernel ip stack : ℕ) : Type 0 where
  pub runs : Runs s' (tasks ++ (task ∷ []))
  pub starts : Starts s.last_tid kernel ip stack (s'.tasks task)
  pub others : (a : ℕ) → a ≢ task → s'.tasks a ≡ s.tasks a
  pub next_tid : s'.last_tid ≡ (s.last_tid + 1) % 2 ^ 16

-- With memory for its stack a new kernel task is put at the end of the list, with the number that is next,
-- the kernel's page map, its stack pointer at the end of its 64 KiB of stack, its code's address, the
-- kernel's segments and interrupts on; all other tasks are as before.
pub new_kernel_task-Joined :
    (task : ℕ) (fresh : Task) (kernel hhdm ip : ℕ) (p p' : Pmm) (phy : ℕ) (s : Sched)
    (tasks : List ℕ)
    → alloc_pages (stack_size / 0x1000) p ≡ ok (p', phy)
    → Runs s tasks
    → task ≢ 0
    → Apart task (s.head ∷ tasks)
    → (s' : Sched) × (new_kernel_task task fresh kernel hhdm ip true p s ≡ ok (p', some s'))
      × Joined s s' tasks task kernel ip ((phy + 0x10000 + hhdm) % 2 ^ 64)
unfolding new_kernel_task enqueue put_task
new_kernel_task-Joined task fresh kernel hhdm ip p p' phy s tasks stack r ne apart =
    let stack_top = (phy + stack_size + hhdm) % 2 ^ 64 in
    let t = kernel_task fresh s.last_tid kernel ip stack_top in
    let (links, run, (ring, _)) = add_before-IsRing s.links s.head task tasks r ne apart in
    let s' : Sched = record s {
      links = links;
      tasks = put_task task t s.tasks;
      last_tid = (s.last_tid + 1) % 2 ^ 16;
    } in
    (
      s',
      rw (new_kernel_task, stack, enqueue, run) refl,
      record {
        runs = ring;
        starts =
            subst (Starts s.last_tid kernel ip stack_top)
              (let here : t ≡ s'.tasks task = ground arith in here)
              (kernel_task-Starts fresh s.last_tid kernel ip stack_top);
        others = λ a other. ground arith;
        next_tid = refl;
      },
    )

-- A task of the list that dies leaves it, and the others stay in their order; at the next interrupt the
-- scheduler goes on with the first of them.
pub dequeue_and_die-Runs :
    (x : ℕ) (s : Sched) (xs ys : List ℕ)
    → Runs s (xs ++ (x ∷ ys))
    → (s' : Sched) × (dequeue_and_die x s ≡ some s')
      × (Runs s' (xs ++ ys) × ((s'.tasks ≡ s.tasks) × (pick s' x ≡ first s')))
unfolding dequeue_and_die
dequeue_and_die-Runs x s xs ys r =
    let (links, run, (ring, unlinked)) = remove-IsRing s.links s.head x xs ys r in
    let s' : Sched = record s { links = links } in
    (
      s',
      rw (dequeue_and_die, run) refl,
      (ring, (refl, pick-first s' x (inr (inl (ap (λ (n : ListHead). n.next) unlinked))))),
    )
