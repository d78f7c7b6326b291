-- ===== src/Fs/Descriptors.antt =====
-- src/sched/sched.cpp (`allocate_fdnum`) and src/fs/vfs.cpp (`openat_inner`, `syscall_close`,
-- `syscall_seek`): the file descriptors of a task.
-- A table is taken to have fewer than 2 ^ 31 slots, so that its size is an `int`; a null pointer in a
-- slot is `none`. The descriptors 0 to 2 that a task starts with have no node: their `node` is null.
pub mod Slots
pub mod Table
pub mod Open
mod Tests
use fish_os.Base.{
  ℕ, zero, suc, ◌+◌, ◌-◌, ◌⊎◌, inl, inr, Bool, true, false, List, [], ◌∷◌, ◌++◌, Option, none, some,
  ◌==◌, ltb, if◌then◌else◌, length, get_or, set,
}
use fish_os.Base.Int.{ℤ, pos, negsuc}
use fish_os.Klib.Cstring.{CString}
use fish_os.Fs.Node.{Store, is_directory, node_at}
use fish_os.Fs.Path.{PathToNodeResult, path_to_node}

pub record FileDescriptor : Type 0 where
  pub node : Option ℕ
  pub cursor : ℕ

-- the fields of `sched::Task` about files
pub record Task : Type 0 where
  pub file_descriptors : List (Option FileDescriptor)
  pub num_file_descriptors : ℕ
  pub first_free_fdnum : ℕ
  pub cwd : ℕ

abbrev pub slot : List (Option FileDescriptor) → ℕ → Option FileDescriptor
slot table i = get_or table i none

-- the loop of `allocate_fdnum` from index `i` on
unfoldable pub find_free : ℕ → ℕ → List (Option FileDescriptor) → Option ℕ
find_free zero i table = none
find_free (suc rounds) i table = elim (slot table i) [
  | none ↦ some i
  | some _ ↦ find_free rounds (i + 1) table
]

unfoldable pub allocate_fdnum : Task → ℕ × Task
allocate_fdnum t =
    let n = t.num_file_descriptors + 1 in
    let size = length t.file_descriptors in
    elim (find_free (size - t.first_free_fdnum) t.first_free_fdnum t.file_descriptors) [
      | some i ↦ (i, record t { num_file_descriptors = n; first_free_fdnum = i })
      | none ↦ (
        size,
        record t {
          num_file_descriptors = n;
          first_free_fdnum = size;
          file_descriptors = t.file_descriptors ++ (none ∷ []);
        },
      )
    ]

-- the end of `openat_inner`: the new descriptor and its number
unfoldable pub install : ℕ → Task → ℕ × Task
install node t =
    let (fd, t') = allocate_fdnum t in
    (
      fd,
      record t' {
        file_descriptors =
            set t'.file_descriptors fd (some (record { node = some node; cursor = 0 }));
      },
    )

-- the descriptor of a number, none for a number out of range or a null slot
unfoldable pub descriptor : Task → ℤ → Option FileDescriptor
descriptor t (pos fd) =
    if ltb fd (length t.file_descriptors) then slot t.file_descriptors fd else none
descriptor t (negsuc fd) = none

-- `-n`, for `n` above 0
abbrev pub error : ℕ → ℤ
error n = negsuc (n - 1)

-- `dirfd == AT_FDCWD`, which is -100
unfoldable pub is_at_fdcwd : ℤ → Bool
is_at_fdcwd (pos n) = false
is_at_fdcwd (negsuc n) = n == 99

-- what a relative path starts from, or an error; `none` is a load through a null node
unfoldable pub starting_point : Store → Task → ℤ → Option (ℤ ⊎ ℕ)
starting_point store t dirfd =
    if is_at_fdcwd dirfd then some (inr t.cwd) else elim (descriptor t dirfd) [
      | none ↦ some (inl (error 1008))
      | some d ↦ elim d.node [
        | none ↦ none
        | some node ↦
            some (if is_directory (node_at store node).type then inr node else inl (error 1053))
      ]
    ]

-- the result of the search and the task with the new descriptor
unfoldable pub open_result : Task → Option PathToNodeResult → Option (ℤ × Task)
open_result t none = none
open_result t (some r) = elim r.target [
  | none ↦ some (error 1043, t)
  | some node ↦ some (let (fd, t') = install node t in (pos fd, t'))
]

-- `none` is a search that does not end, or a load through a null node
unfoldable pub openat_inner : Store → ℕ → ℤ → CString → Task → Option (ℤ × Task)
openat_inner store root dirfd path t =
    if get_or path 0 0 == 47
    then open_result t (path_to_node store root path none)
    else elim (starting_point store t dirfd) [
      | none ↦ none
      | some start ↦ elim start [
        | inl e ↦ some (e, t)
        | inr node ↦ open_result t (path_to_node store root path (some node))
      ]
    ]

unfoldable pub close_slot : ℕ → Task → Task
close_slot fd t = record t {
  file_descriptors = set t.file_descriptors fd none;
  num_file_descriptors = t.num_file_descriptors - 1;
  first_free_fdnum = fd;
}

unfoldable pub syscall_close : ℤ → Task → Task
syscall_close (negsuc fd) t = t
syscall_close (pos fd) t = elim (descriptor t (pos fd)) [ none ↦ t | some d ↦ close_slot fd t ]

unfoldable pub syscall_seek : ℤ → ℕ → Task → Task
syscall_seek (negsuc fd) offset t = t
syscall_seek (pos fd) offset t = elim (descriptor t (pos fd)) [
  | none ↦ t
  | some d ↦ record t {
    file_descriptors = set t.file_descriptors fd (some (record d { cursor = offset }));
  }
]
