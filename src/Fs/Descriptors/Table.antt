-- ===== src/Fs/Descriptors/Table.antt =====
-- src/sched/sched.cpp and src/fs/vfs.cpp: opening and closing against the table of descriptors.
use fish_os.Base.{
  ℕ, zero, suc, ◌-◌, ◌<◌, ◌≡◌, ◌≢◌, refl, sym, ap, ◌∙◌, inl, inr, List, [], ◌∷◌, ◌++◌, Option, none,
  some, true, ltb, ◌==◌, if◌then◌else◌, length, set, arith, get_or-set, get_or-set_ne,
  get_or-set_self, length-append, length-set, lt→ltb,
}
use fish_os.Base.Int.{pos}
use fish_os.Fs.Descriptors.{
  FileDescriptor, Task, slot, allocate_fdnum, install, descriptor, close_slot, syscall_close,
}
use fish_os.Fs.Descriptors.Slots.{
  count, count-append-none, count-set-some, count-set-none, find_free-cases, find_free-first,
  slot-length,
}

-- the number of descriptors is that of the slots in use
pub record IsValid (t : Task) : Type 0 where
  pub number : t.num_file_descriptors ≡ count t.file_descriptors

-- a new descriptor of `node` stands in slot `fd`, which was free
pub record Installed (node : ℕ) (t : Task) (fd : ℕ) (t' : Task) : Type 0 where
  pub valid : IsValid t'
  pub free : slot t.file_descriptors fd ≡ none
  pub mine : slot t'.file_descriptors fd ≡ some (record { node = some node; cursor = 0 })
  pub others : (j : ℕ) → j ≢ fd → slot t'.file_descriptors j ≡ slot t.file_descriptors j

slot-beyond :
    (table : List (Option FileDescriptor)) (j : ℕ) → slot (table ++ (none ∷ [])) j ≡ slot table j
slot-beyond [] zero = refl
slot-beyond [] (suc j) = refl
slot-beyond (d ∷ table) zero = refl
slot-beyond (d ∷ table) (suc j) = slot-beyond table j

slot-end : (table : List (Option FileDescriptor)) → slot table (length table) ≡ none
slot-end [] = refl
slot-end (d ∷ table) = slot-end table

-- what `allocate_fdnum` returns: a free slot of a table that has the same slots
record Allocated (t : Task) (fd : ℕ) (t' : Task) : Type 0 where
  number : t'.num_file_descriptors ≡ suc t.num_file_descriptors
  inside : fd < length t'.file_descriptors
  same : (j : ℕ) → slot t'.file_descriptors j ≡ slot t.file_descriptors j
  used : count t'.file_descriptors ≡ count t.file_descriptors
  free : slot t.file_descriptors fd ≡ none

allocate_fdnum-Allocated : (t : Task) → let (fd, t') = allocate_fdnum t in Allocated t fd t'
unfolding allocate_fdnum
allocate_fdnum-Allocated t =
    let size = length t.file_descriptors in
    elim (find_free-cases (size - t.first_free_fdnum) t.first_free_fdnum t.file_descriptors) [
      | inl missing ↦
          rw (allocate_fdnum, missing)
            (record {
              number = omega arith;
              inside = omega (arith, length-append t.file_descriptors (none ∷ []));
              same = slot-beyond t.file_descriptors;
              used = count-append-none t.file_descriptors;
              free = slot-end t.file_descriptors;
            })
      | inr (j, found, free, l, h) ↦
          rw (allocate_fdnum, found)
            (record {
              number = omega arith;
              inside = omega (arith, l, h);
              same = λ j. refl;
              used = refl;
              free = free;
            })
    ]

-- Opening a node in a valid task puts a new descriptor into a slot that was free, keeps every other
-- slot, and keeps the task valid.
pub install-Installed :
    (node : ℕ) (t : Task) → IsValid t → let (fd, t') = install node t in Installed node t fd t'
unfolding install
install-Installed node t v =
    let (fd, t') = allocate_fdnum t in
    let a = allocate_fdnum-Allocated t in
    let free : slot t'.file_descriptors fd ≡ none = a.same fd ∙ a.free in
    record {
      valid = record {
        number =
            a.number
            ∙ ap suc (v.number ∙ sym a.used)
            ∙ sym (
                count-set-some t'.file_descriptors fd (record { node = some node; cursor = 0 }) free
                  a.inside);
      };
      free = a.free;
      mine =
          get_or-set_self t'.file_descriptors fd (some (record { node = some node; cursor = 0 }))
            none a.inside;
      others = λ j ne.
          get_or-set_ne t'.file_descriptors fd j (some (record { node = some node; cursor = 0 }))
            none (λ e. ne (sym e))
          ∙ a.same j;
    }

close_open :
    (fd : ℕ) (d : FileDescriptor) (t : Task)
    → slot t.file_descriptors fd ≡ some d
    → syscall_close (pos fd) t ≡ close_slot fd t
unfolding syscall_close descriptor
close_open fd d t used =
    let inside : ltb fd (length t.file_descriptors) ≡ true =
      lt→ltb fd (length t.file_descriptors) (slot-length t.file_descriptors fd d used) in
    rw (syscall_close, descriptor, inside, used) refl

-- Closing an open descriptor of a valid task frees its slot alone, and keeps the task valid.
pub syscall_close-slots :
    (fd : ℕ) (d : FileDescriptor) (t : Task)
    → IsValid t
    → slot t.file_descriptors fd ≡ some d
    → IsValid (syscall_close (pos fd) t)
      × ((j : ℕ)
          → slot (syscall_close (pos fd) t).file_descriptors j
            ≡ (if fd == j then none else slot t.file_descriptors j))
unfolding close_slot
syscall_close-slots fd d t v used = rw (close_open fd d t used) (
  record { number = omega (arith, v.number, count-set-none t.file_descriptors fd d used) },
  λ j. get_or-set t.file_descriptors fd j none none (slot-length t.file_descriptors fd d used),
)

-- An open after a close takes the closed number, even if a lower one is free.
pub install-close :
    (node fd : ℕ) (d : FileDescriptor) (t : Task)
    → slot t.file_descriptors fd ≡ some d
    → (let (n, t') = install node (syscall_close (pos fd) t) in n) ≡ fd
unfolding install allocate_fdnum close_slot
install-close node fd d t used =
    let table = set t.file_descriptors fd none in
    let inside = slot-length t.file_descriptors fd d used in
    let found =
      find_free-first (length table - fd) fd table
        (get_or-set_self t.file_descriptors fd none none inside)
        (omega (arith, length-set t.file_descriptors fd none, inside)) in
    rw (close_open fd d t used, install, allocate_fdnum, found) refl
