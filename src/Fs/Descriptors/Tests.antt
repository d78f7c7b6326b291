-- ===== src/Fs/Descriptors/Tests.antt =====
-- A task with four descriptors, the third of them closed.
use fish_os.Base.{
  ℕ, zero, suc, Option, ◌≡◌, refl, sym, ap, [], ◌∷◌, none, some, if◌then◌else◌, ◌==◌, arith,
}
use fish_os.Base.Int.{pos}
use fish_os.Fs.Node.{Store, directory, new_node}
use fish_os.Fs.Path.Components.{IsPlain}
use fish_os.Fs.Path.Ends.{IsFlat}
use fish_os.Klib.Cstring.{strlen}
use fish_os.Fs.Descriptors.{
  FileDescriptor, Task, slot, find_free, allocate_fdnum, install, descriptor, is_at_fdcwd,
  starting_point, openat_inner, close_slot, syscall_close, syscall_seek,
}
use fish_os.Fs.Descriptors.Slots.{count}
use fish_os.Fs.Descriptors.Table.{IsValid, syscall_close-slots}
use fish_os.Fs.Descriptors.Open.{Returns, openat_inner-Returns}

-- as those that a task starts with
abbrev first : FileDescriptor
first = record { node = none; cursor = 0 }

abbrev moved : FileDescriptor
moved = record { node = some 0; cursor = 7 }

abbrev task : Task
task = record {
  file_descriptors = some first ∷ some first ∷ none ∷ some moved ∷ [];
  num_file_descriptors = 3;
  first_free_fdnum = 2;
  cwd = 0;
}

evaluate : Unit {0}
unfolding find_free allocate_fdnum install descriptor close_slot syscall_close syscall_seek count
evaluate = tt

task-IsValid : IsValid task
unfolding count
task-IsValid = record { number = refl }

-- after slots 1 and 3 are closed the next open takes 3, although 1 is free
highest_first :
    (let (n, t') = install 5 (syscall_close (pos 3) (syscall_close (pos 1) task)) in n) ≡ 3
unfolding evaluate
highest_first = refl

seek_moves :
    (syscall_seek (pos 3) 9 task).file_descriptors
    ≡ some first ∷ some first ∷ none ∷ some (record { node = some 0; cursor = 9 }) ∷ []
unfolding evaluate
seek_moves = refl

syscall_close-slots_example :
    IsValid (syscall_close (pos 3) task)
    × ((j : ℕ)
        → slot (syscall_close (pos 3) task).file_descriptors j
          ≡ (if 3 == j then none else slot task.file_descriptors j))
syscall_close-slots_example = syscall_close-slots 3 moved task task-IsValid refl

abbrev store : Store
store = new_node none directory none [] ∷ []

store-IsFlat : IsFlat store
unfolding IsFlat new_node
store-IsFlat zero next e = absurd (ground (arith, e))
store-IsFlat (suc n) next e = absurd (ground (arith, e))

a-IsPlain : IsPlain (97 ∷ [])
unfolding IsPlain strlen
a-IsPlain = refl

-- a relative path from a descriptor with a null node is a load through it
open_from_stdin : openat_inner store 0 (pos 0) (97 ∷ []) task ≡ none
unfolding openat_inner starting_point is_at_fdcwd descriptor
open_from_stdin = refl

node_of : Option FileDescriptor → Option ℕ
node_of none = none
node_of (some d) = d.node

task-HasNode :
    (d : FileDescriptor) → descriptor task (pos 3) ≡ some d → (node : ℕ) × (d.node ≡ some node)
unfolding descriptor node_of
task-HasNode d used = (0, ap node_of (sym used))

openat_inner-Returns_example : Returns store task (openat_inner store 0 (pos 3) (97 ∷ []) task)
openat_inner-Returns_example =
    openat_inner-Returns store 0 (pos 3) (97 ∷ []) task store-IsFlat a-IsPlain task-IsValid
      (λ relative. task-HasNode)
