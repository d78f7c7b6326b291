-- ===== src/Fs/Cwd.antt =====
-- src/fs/vfs.cpp: `syscall_getcwd` and `syscall_chdir`.
-- The buffer is the sequence of the bytes written to it from its start on. `none` is a walk to the
-- root, or a search, that does not end: the walk takes one round for each node and one more.
pub mod Text
pub mod Change
mod Tests
use fish_os.Base.{
  ℕ, zero, suc, ◌+◌, Bool, List, [], ◌∷◌, ◌++◌, Option, none, some, ◌==◌, leb, if◌then◌else◌,
  length, get_or,
}
use fish_os.Base.Int.{ℤ, pos, negsuc}
use fish_os.Klib.Cstring.{CString}
use fish_os.Fs.Node.{Store, is_directory, node_at}
use fish_os.Fs.Path.{PathToNodeResult, path_to_node}
use fish_os.Fs.Descriptors.{Task, error}

-- the names from the node `current` up to the one below the root, `parent_names`
unfoldable pub names_up : ℕ → Store → ℕ → Option (List CString)
names_up zero store current = none
names_up (suc fuel) store current =
    let name = (node_at store current).name in
    let rest = names_up fuel store in
    elim (node_at store current).parent [
      | none ↦ some (name ∷ [])
      | some p ↦ elim (node_at store p).parent [
        | none ↦ some (name ∷ [])
        | some _ ↦ elim (rest p) [ none ↦ none | some names ↦ some (name ∷ names) ]
      ]
    ]

-- how the writing goes on, or that the buffer is full
pub data Progress : Type 0 where
  more : List ℕ → Progress
  erange : List ℕ → Progress

-- a byte, and the test of `buf_index` behind it, up to a NUL
unfoldable pub put_chars : ℕ → List ℕ → List ℕ → Progress
put_chars size [] out = more out
put_chars size (c ∷ cs) out =
    let out' = out ++ (c ∷ []) in
    let rest = put_chars size cs out' in
    if c == 0 then more out else if leb size (length out') then erange out' else rest

-- the loop from the last name to the first, each behind a slash
unfoldable pub put_names : ℕ → List CString → List ℕ → Progress
put_names size [] out = more out
put_names size (name ∷ names) out = elim (put_names size names out) [
  | erange out' ↦ erange out'
  | more out' ↦ put_chars size (47 ∷ name) out'
]

-- the value returned, 0 or `-ERANGE`, and the buffer
unfoldable pub syscall_getcwd : Store → Task → ℕ → Option (ℤ × List ℕ)
syscall_getcwd store t size = elim (names_up (length store + 1) store t.cwd) [
  | none ↦ none
  | some names ↦ elim (put_names size names []) [
    | more out ↦ some (pos 0, out)
    | erange out ↦ some (error 3, out)
  ]
]

-- what `syscall_chdir` makes of the search's result
unfoldable pub changed : Store → Task → Option PathToNodeResult → Option (ℤ × Task)
changed store t none = none
changed store t (some r) = elim r.target [
  | none ↦ some (error 1043, t)
  | some node ↦
      if is_directory (node_at store node).type
      then some (pos 0, record t { cwd = node })
      else some (error 1053, t)
]

unfoldable pub syscall_chdir : Store → ℕ → CString → Task → Option (ℤ × Task)
syscall_chdir store root path t =
    if get_or path 0 0 == 47
    then changed store t (path_to_node store root path none)
    else changed store t (path_to_node store root path (some t.cwd))
