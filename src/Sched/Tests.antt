-- ===== src/Sched/Tests.antt =====
-- src/sched/sched.cpp: two tasks at the addresses 10 and 20, in the list of the head at 5.
use fish_os.Base.{◌+◌, ◌%◌, ◌^◌, ◌≡◌, refl, true, [], ◌∷◌, none, some, ok, arith}
use fish_os.Mem.Pmm.Sample
use fish_os.Klib.List.Ring.{Apart}
use fish_os.Sched.{Sched, Machine, saved, turns, new_kernel_task}
use fish_os.Sched.Turns.{Resumed, turns-round}
use fish_os.Sched.Sample.{registers, task, links, sched, sched-Runs}
use fish_os.Sched.Create.{Joined, new_kernel_task-Joined}

-- the task at 20 runs
abbrev machine : Machine
machine = record {
  sched = sched;
  cpu = record { gs_base = 20; kernel_gs_base = 20; fs_base = 7; pagemap = 100; timer = none };
  gpr_state = registers 20;
}

turns-round_example :
    (m' : Machine) × (turns (registers 33 ∷ registers 34 ∷ []) machine ≡ ok (10 ∷ 20 ∷ [], m'))
    × Resumed links 5 m' 20 (saved machine.cpu (registers 33) (task 20))
turns-round_example =
    turns-round (10 ∷ []) [] machine (registers 33) (registers 34 ∷ []) sched-Runs refl

new_task-Apart : Apart 30 (5 ∷ 10 ∷ 20 ∷ [])
unfolding Apart
new_task-Apart = (ground arith, (ground arith, (ground arith, tt)))

new_kernel_task-Joined_example :
    (s' : Sched) × (new_kernel_task 30 (task 0) 100 0x4000 0x9000 true Sample.before sched
      ≡ ok (Sample.after, some s'))
    × Joined sched s' (10 ∷ 20 ∷ []) 30 100 0x9000 ((0x1000 + 0x10000 + 0x4000) % 2 ^ 64)
new_kernel_task-Joined_example =
    new_kernel_task-Joined 30 (task 0) 100 0x4000 0x9000 Sample.before Sample.after 0x1000 sched
      (10 ∷ 20 ∷ []) Sample.sixteen sched-Runs (ground arith) new_task-Apart
