-- ===== src/Fs/Cwd/Change.antt =====
-- src/fs/vfs.cpp: `syscall_chdir` keeps the working directory a directory.
use fish_os.Base.{
  ℕ, ◌≡◌, refl, true, Bool-cases, inl, inr, ◌⊎◌, Option, none, some, Option-cases, ◌==◌, get_or,
}
use fish_os.Base.Int.{ℤ, pos, negsuc}
use fish_os.Klib.Cstring.{CString}
use fish_os.Fs.Node.{Store, is_directory, node_at}
use fish_os.Fs.Path.{PathToNodeResult, path_to_node}
use fish_os.Fs.Path.Components.{IsPlain}
use fish_os.Fs.Path.Ends.{IsFlat, Ends, path_to_node-Ends}
use fish_os.Fs.Descriptors.{Task, error}
use fish_os.Fs.Cwd.{changed, syscall_chdir}

-- the working directory is a directory
pub record InDirectory (store : Store) (t : Task) : Type 0 where
  pub directory : is_directory (node_at store t.cwd).type ≡ true

-- an error leaves the task as it was; 0 changes the working directory alone, to a directory
abbrev pub Changed : Store → Task → ℤ → Task → Type 0
Changed store t n t' =
    ((e : ℕ) × (n ≡ negsuc e) × (t' ≡ t))
    ⊎ ((node : ℕ) × (n ≡ pos 0) × (t' ≡ record t { cwd = node }) × InDirectory store t')

abbrev pub ReturnsChanged : Store → Task → Option (ℤ × Task) → Type 0
ReturnsChanged store t o = (n : ℤ) × (t' : Task) × (o ≡ some (n, t')) × Changed store t n t'

changed-Returns :
    (store : Store) (t : Task) (o : Option PathToNodeResult)
    → Ends store o
    → ReturnsChanged store t (changed store t o)
unfolding changed
changed-Returns store t o (r, e, direct) = elim (Option-cases r.target) [
  | inl missing ↦ (error 1043, t, rw (e, changed, missing) refl, inl (1042, refl, refl))
  | inr (node, found) ↦ elim (Bool-cases (is_directory (node_at store node).type)) [
    | inl dir ↦ (
      pos 0,
      record t { cwd = node },
      rw (e, changed, found, dir) refl,
      inr (node, refl, refl, record { directory = dir }),
    )
    | inr other ↦ (error 1053, t, rw (e, changed, found, other) refl, inl (1052, refl, refl))
  ]
]

-- In a store where no redirection leads to another, and for a path without a NUL among its bytes,
-- `syscall_chdir` returns: an error, which is negative, leaves the task as it was; 0 changes the
-- working directory alone, to a directory.
pub syscall_chdir-Returns :
    (store : Store) (root : ℕ) (path : CString) (t : Task)
    → IsFlat store
    → IsPlain path
    → ReturnsChanged store t (syscall_chdir store root path t)
unfolding syscall_chdir
syscall_chdir-Returns store root path t flat plain = elim (Bool-cases (get_or path 0 0 == 47)) [
  | inl absolute ↦
      rw (syscall_chdir, absolute)
        (changed-Returns store t (path_to_node store root path none)
          (path_to_node-Ends store root path none flat plain))
  | inr relative ↦
      rw (syscall_chdir, relative)
        (changed-Returns store t (path_to_node store root path (some t.cwd))
          (path_to_node-Ends store root path (some t.cwd) flat plain))
]
