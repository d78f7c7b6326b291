-- ===== src/Fs/Calls.antt =====
-- src/fs/vfs.cpp: the system calls that read and write through a descriptor.
-- `buf` is what the memory holds from the pointer on. The console is the sequence of characters that
-- `printf("%.*s", count, buf)` prints; a precision of 0 means none, so it prints up to the first NUL.
-- `count` is below 2 ^ 31 where it is passed as an `int`. `none` is a fault, or a read of the keyboard
-- that still waits at the end of the schedule.
pub mod Transfer
mod Tests
use fish_os.Base.{
  ℕ, zero, suc, ◌+◌, ◌%◌, ◌^◌, Bool, true, false, List, [], ◌∷◌, ◌++◌, Option, none, some, ◌==◌,
  ltb, if◌then◌else◌, length, set, take,
}
use fish_os.Base.Int.{ℤ, pos, negsuc}
use fish_os.Klib.Cstring.{CString}
use fish_os.Klib.Cstring.Compare.{chars}
use fish_os.Ps2.Keyboard
use fish_os.Ps2.Keyboard.{Keyboard}
use fish_os.Fs.Node.{Node, Store, node_at}
use fish_os.Fs.Tmpfs
use fish_os.Fs.Descriptors.{FileDescriptor, Task, descriptor, openat_inner}

-- what the calls of a task work on
pub record World : Type 0 where
  pub store : Store
  pub task : Task
  pub keyboard : Keyboard
  pub console : List ℕ

-- `AT_FDCWD`
abbrev pub at_fdcwd : ℤ
at_fdcwd = negsuc 99

pub syscall_open : ℕ → CString → World → Option (ℤ × Task)
syscall_open root path w = openat_inner w.store root at_fdcwd path w.task

pub syscall_openat : ℕ → ℤ → CString → World → Option (ℤ × Task)
syscall_openat root dirfd path w = openat_inner w.store root dirfd path w.task

abbrev pub set_descriptor : ℕ → FileDescriptor → World → World
set_descriptor fd d w = record w {
  task = record w.task { file_descriptors = set w.task.file_descriptors fd (some d) };
}

-- `descriptor->cursor += count`
abbrev pub advanced : FileDescriptor → ℕ → FileDescriptor
advanced d count = record d { cursor = (d.cursor + count) % 2 ^ 64 }

-- `fs->read` on the node of a descriptor
unfoldable pub read_node : World → FileDescriptor → ℕ → ℕ → Option (ℤ × List ℕ)
read_node w d count offset = elim d.node [
  | none ↦ none
  | some at ↦ let node = node_at w.store at in Tmpfs.read node.type node.content count offset
]

-- `fs->write` on the node of a descriptor, with `count` bytes of `buf`
unfoldable pub write_node : (ℕ → ℕ) → World → FileDescriptor → List ℕ → ℕ → Option World
write_node fresh w d bytes offset = elim d.node [
  | none ↦ none
  | some at ↦
      let node = node_at w.store at in
      elim (Tmpfs.write fresh node.type node.content bytes offset) [
        | none ↦ none
        | some content ↦
            some (record w { store = set w.store at (record node { content = content }) })
      ]
]

-- the bytes put into the buffer, and the world after the call
unfoldable pub syscall_read : List (List ℕ) → ℤ → ℕ → World → Option (List ℕ × World)
syscall_read schedule (negsuc fd) count w = some ([], w)
syscall_read schedule (pos zero) count w =
    if ltb 0 (length w.task.file_descriptors)
    then elim (Keyboard.read count schedule w.keyboard) [
      | none ↦ none
      | some (bytes, k, later) ↦ some (bytes, record w { keyboard = k })
    ]
    else some ([], w)
syscall_read schedule (pos (suc fd)) count w = elim (descriptor w.task (pos (suc fd))) [
  | none ↦ some ([], w)
  | some d ↦ elim (read_node w d count d.cursor) [
    | none ↦ none
    | some (n, bytes) ↦ some (bytes, set_descriptor (suc fd) (advanced d count) w)
  ]
]

unfoldable pub syscall_pread : ℤ → ℕ → ℕ → World → Option (List ℕ × World)
syscall_pread (negsuc fd) count offset w = some ([], w)
syscall_pread (pos fd) count offset w = elim (descriptor w.task (pos fd)) [
  | none ↦ some ([], w)
  | some d ↦ elim (read_node w d count offset) [ none ↦ none | some (n, bytes) ↦ some (bytes, w) ]
]

unfoldable pub syscall_write : (ℕ → ℕ) → ℤ → List ℕ → ℕ → World → Option World
syscall_write fresh (negsuc fd) buf count w = some w
syscall_write fresh (pos fd) buf count w =
    let printed = if count == 0 then chars buf else take count buf in
    if ltb fd (length w.task.file_descriptors)
    then (if fd == 1
        then some (record w { console = w.console ++ printed })
        else elim (descriptor w.task (pos fd)) [
          | none ↦ some w
          | some d ↦ elim (write_node fresh w d (take count buf) d.cursor) [
            | none ↦ none
            | some w' ↦ some (set_descriptor fd (advanced d count) w')
          ]
        ])
    else some w

unfoldable pub syscall_pwrite : (ℕ → ℕ) → ℤ → List ℕ → ℕ → ℕ → World → Option World
syscall_pwrite fresh (negsuc fd) buf count offset w = some w
syscall_pwrite fresh (pos fd) buf count offset w = elim (descriptor w.task (pos fd)) [
  | none ↦ some w
  | some d ↦ write_node fresh w d (take count buf) offset
]
