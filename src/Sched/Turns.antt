-- ===== src/Sched/Turns.antt =====
-- src/sched/sched.cpp: the timer's interrupts give each task its turn.
use fish_os.Base.{
  ℕ, ◌+◌, ◌/◌, ◌%◌, ◌≡◌, ◌≢◌, refl, sym, ap, List, [], ◌∷◌, ◌++◌, some, ok, length, length-append,
  append_assoc, subst, arith,
}
use fish_os.Cpu.{InterruptState}
use fish_os.Klib.List.{Links}
use fish_os.Klib.List.Ring.{Apart, Unique, Apart-append_right, Apart-append}
use fish_os.Klib.List.Removal.{Unique-middle}
use fish_os.Sched.{
  Sched, Task, Cpu, Machine, put_task, saved, save, pick, load, scheduler_isr, turns,
}
use fish_os.Sched.Rotation.{Runs, Picks, Runs-Picks}

-- picking does not read the tasks
Picks-tasks :
    (s : Sched) (tasks : ℕ → Task) (x : ℕ) (xs : List ℕ)
    → Picks s x xs
    → Picks (record s { tasks = tasks }) x xs
unfolding Picks pick fish_os.Sched.first
Picks-tasks s tasks x [] _ = tt
Picks-tasks s tasks x (y ∷ ys) (p, ps) = (p, Picks-tasks s tasks y ys ps)

-- another task than the current one stays as it is
save_other :
    (c : Cpu) (frame : InterruptState) (s : Sched) (a : ℕ)
    → a ≢ c.gs_base
    → (save c frame s).tasks a ≡ s.tasks a
unfolding save put_task
save_other c frame s a ne = ground arith

save_self :
    (c : Cpu) (frame : InterruptState) (s : Sched)
    → c.gs_base ≢ 0
    → (save c frame s).tasks c.gs_base ≡ saved c frame (s.tasks c.gs_base)
unfolding save put_task
save_self c frame s ne = ground arith

scheduler_isr-pick :
    (frame : InterruptState) (m : Machine) (next : ℕ)
    → pick m.sched m.cpu.gs_base ≡ some next
    → scheduler_isr frame m ≡ ok (load next (save m.cpu frame m.sched) m.cpu)
unfolding scheduler_isr save pick fish_os.Sched.first
scheduler_isr-pick frame m next e = rw (scheduler_isr, e) refl

-- the interrupt that switches to `next`, and those after it
turns-cons :
    (frame : InterruptState) (frames : List InterruptState) (m : Machine) (next : ℕ)
    (tasks : List ℕ) (m' : Machine)
    → pick m.sched m.cpu.gs_base ≡ some next
    → turns frames (load next (save m.cpu frame m.sched) m.cpu) ≡ ok (tasks, m')
    → turns (frame ∷ frames) m ≡ ok (next ∷ tasks, m')
unfolding turns load
turns-cons frame frames m next tasks m' e run =
    rw (turns, scheduler_isr-pick frame m next e, run) refl

-- the interrupts end with `a` running, whose state is what `t` holds
pub record Resumed (links : Links) (head : ℕ) (m' : Machine) (a : ℕ) (t : Task) : Type 0 where
  pub running : m'.cpu.gs_base ≡ a
  pub registers : m'.gpr_state ≡ t.gpr_state
  pub fs_base : m'.cpu.fs_base ≡ t.fs_base
  pub user_base : t.gpr_state.cs % 4 ≡ 3 → m'.cpu.kernel_gs_base ≡ t.gs_base
  pub kernel_base : t.gpr_state.cs % 4 ≢ 3 → m'.cpu.kernel_gs_base ≡ a
  pub timer : m'.cpu.timer ≡ some (1000000 / 300)
  pub pagemap : m'.cpu.pagemap ≡ t.pagemap
  pub list : m'.sched.links ≡ links
  pub same_head : m'.sched.head ≡ head

load-Resumed :
    (a : ℕ) (s : Sched) (c : Cpu) (t : Task)
    → s.tasks a ≡ t
    → Resumed s.links s.head (load a s c) a t
unfolding load
load-Resumed a s c t e = record {
  running = refl;
  registers = ap (λ (u : Task). u.gpr_state) e;
  fs_base = ap (λ (u : Task). u.fs_base) e;
  user_base = λ user. ground (arith, user, e);
  kernel_base = λ kernel. ground (arith, kernel, e);
  timer = refl;
  pagemap = ap (λ (u : Task). u.pagemap) e;
  list = refl;
  same_head = refl;
}

-- the other tasks run, and then `a`, in the state that it was left in
turns-resume :
    (frames : List InterruptState) (zs : List ℕ) (m : Machine) (a : ℕ)
    → Picks m.sched m.cpu.gs_base (zs ++ (a ∷ []))
    → Apart a (m.cpu.gs_base ∷ zs)
    → length frames ≡ length zs + 1
    → (m' : Machine) × (turns frames m ≡ ok (zs ++ (a ∷ []), m'))
      × Resumed m.sched.links m.sched.head m' a (m.sched.tasks a)
unfolding turns Picks Apart save load
turns-resume [] zs m a p apart n = absurd (omega arith)
turns-resume (frame ∷ (frame' ∷ frames)) [] m a p apart n = absurd (omega arith)
turns-resume (frame ∷ []) [] m a (p, _) (ne, _) n =
    let s = save m.cpu frame m.sched in
    (
      load a s m.cpu,
      turns-cons frame [] m a [] (load a s m.cpu) p refl,
      load-Resumed a s m.cpu (m.sched.tasks a) (save_other m.cpu frame m.sched a ne),
    )
turns-resume (frame ∷ frames) (z ∷ zs) m a (p, ps) (ne, apart) n =
    let s = save m.cpu frame m.sched in
    let m1 = load z s m.cpu in
    let picks = Picks-tasks m.sched s.tasks z (zs ++ (a ∷ [])) ps in
    let (m', run, r) = turns-resume frames zs m1 a picks apart (omega arith) in
    (
      m',
      turns-cons frame frames m z (zs ++ (a ∷ [])) m' p run,
      subst (λ t. Resumed m.sched.links m.sched.head m' a t) (save_other m.cpu frame m.sched a ne)
          r,
    )

-- a task that is interrupted, and runs again after the others have run
turns_self :
    (frame : InterruptState) (frames : List InterruptState) (zs : List ℕ) (m : Machine)
    → Picks m.sched m.cpu.gs_base (zs ++ (m.cpu.gs_base ∷ []))
    → Apart m.cpu.gs_base zs
    → m.cpu.gs_base ≢ 0
    → length frames ≡ length zs
    → (m' : Machine) × (turns (frame ∷ frames) m ≡ ok (zs ++ (m.cpu.gs_base ∷ []), m'))
      × Resumed m.sched.links m.sched.head m' m.cpu.gs_base
          (saved m.cpu frame (m.sched.tasks m.cpu.gs_base))
unfolding turns Picks Apart save load
turns_self frame (f ∷ fs) [] m p apart ne n = absurd (omega arith)
turns_self frame [] [] m (p, _) _ ne n =
    let s = save m.cpu frame m.sched in
    let a = m.cpu.gs_base in
    (
      load a s m.cpu,
      turns-cons frame [] m a [] (load a s m.cpu) p refl,
      load-Resumed a s m.cpu (saved m.cpu frame (m.sched.tasks a))
          (save_self m.cpu frame m.sched ne),
    )
turns_self frame frames (z ∷ zs) m (p, ps) apart ne n =
    let s = save m.cpu frame m.sched in
    let a = m.cpu.gs_base in
    let picks = Picks-tasks m.sched s.tasks z (zs ++ (a ∷ [])) ps in
    let (m', run, r) = turns-resume frames zs (load z s m.cpu) a picks apart (omega arith) in
    (
      m',
      turns-cons frame frames m z (zs ++ (a ∷ [])) m' p run,
      subst (λ t. Resumed m.sched.links m.sched.head m' a t) (save_self m.cpu frame m.sched ne) r,
    )

-- As many timer interrupts as the list has tasks, while one of them runs, give each its turn: those
-- behind it, those in front of it, and at last the task itself, which then has the registers, the `fs` base
-- and the page map that the first interrupt found it with. The `gs` base behind `swapgs` is the one it was
-- found with for a user task, and the address of the task for a kernel task. The timer is set, and the list
-- is as it was.
pub turns-round :
    (xs ys : List ℕ) (m : Machine) (frame : InterruptState) (frames : List InterruptState)
    → Runs m.sched (xs ++ (m.cpu.gs_base ∷ ys))
    → length frames ≡ length xs + length ys
    → (m' : Machine) × (turns (frame ∷ frames) m ≡ ok ((ys ++ xs) ++ (m.cpu.gs_base ∷ []), m'))
      × Resumed m.sched.links m.sched.head m' m.cpu.gs_base
          (saved m.cpu frame (m.sched.tasks m.cpu.gs_base))
unfolding Unique Apart
turns-round xs ys m frame frames r n =
    let a = m.cpu.gs_base in
    let (_, unique) = r.unique in
    let (a_xs, a_ys) = Unique-middle xs a ys unique in
    let (_, null) = r.no_null in
    let (a0, _) = Apart-append_right 0 xs (a ∷ ys) null in
    turns_self frame frames (ys ++ xs) m
      (rw (append_assoc ys xs (a ∷ [])) (Runs-Picks m.sched xs a ys r))
      (Apart-append a ys xs a_ys a_xs) (λ i. a0 (sym i)) (omega (arith, length-append ys xs, n))
