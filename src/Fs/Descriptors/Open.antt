-- ===== src/Fs/Descriptors/Open.antt =====
-- src/fs/vfs.cpp: what `openat_inner` returns.
use fish_os.Base.{
  ℕ, ◌≡◌, refl, ◌⊎◌, inl, inr, Option, none, some, Bool-cases, ◌==◌, Option-cases, get_or, arith,
}
use fish_os.Base.Int.{ℤ, pos, negsuc}
use fish_os.Klib.Cstring.{CString}
use fish_os.Fs.Node.{Store, node_at, is_directory}
use fish_os.Fs.Path.{PathToNodeResult, path_to_node}
use fish_os.Fs.Path.Components.{IsPlain}
use fish_os.Fs.Path.Ends.{IsFlat, Ends, path_to_node-Ends}
use fish_os.Fs.Descriptors.{
  FileDescriptor, Task, descriptor, is_at_fdcwd, install, error, starting_point, open_result,
  openat_inner,
}
use fish_os.Fs.Descriptors.Table.{IsValid, Installed, install-Installed}

-- an error leaves the task as it was; otherwise a node that is no redirection was opened
abbrev pub Opened : Store → Task → ℤ → Task → Type 0
Opened store t n t' =
    ((e : ℕ) × (n ≡ negsuc e) × (t' ≡ t))
    ⊎ ((fd : ℕ) × (node : ℕ) × (n ≡ pos fd)
        × ((node_at store node).redirect ≡ none)
        × Installed node t fd t')

abbrev pub Returns : Store → Task → Option (ℤ × Task) → Type 0
Returns store t o = (n : ℤ) × (t' : Task) × (o ≡ some (n, t')) × Opened store t n t'

open_result-Returns :
    (store : Store) (t : Task) (o : Option PathToNodeResult)
    → IsValid t
    → Ends store o
    → Returns store t (open_result t o)
unfolding open_result
open_result-Returns store t o v (r, e, direct) = elim (Option-cases r.target) [
  | inl missing ↦ (error 1043, t, rw (e, open_result, missing) refl, inl (1042, refl, refl))
  | inr (node, found) ↦
      let (fd, t') = install node t in
      (
        pos fd,
        t',
        rw (e, open_result, found) refl,
        inr (fd, node, refl, direct node found, install-Installed node t v),
      )
]

-- the descriptor of that number, if there is one, has a node, as those that `openat_inner` makes
abbrev pub HasNode : Task → ℤ → Type 0
HasNode t dirfd =
    (d : FileDescriptor) → descriptor t dirfd ≡ some d → (node : ℕ) × (d.node ≡ some node)

starting_point-cases :
    (store : Store) (t : Task) (dirfd : ℤ)
    → HasNode t dirfd
    → ((e : ℕ) × (starting_point store t dirfd ≡ some (inl (negsuc e))))
      ⊎ ((node : ℕ) × (starting_point store t dirfd ≡ some (inr node)))
unfolding starting_point
starting_point-cases store t dirfd has = elim (Bool-cases (is_at_fdcwd dirfd)) [
  | inl cwd ↦ inr (t.cwd, rw (starting_point, cwd) refl)
  | inr other ↦ elim (Option-cases (descriptor t dirfd)) [
    | inl missing ↦ inl (1007, rw (starting_point, other, missing) refl)
    | inr (d, found) ↦
        let (node, points) = has d found in
        elim (Bool-cases (is_directory (node_at store node).type)) [
          | inl dir ↦ inr (node, rw (starting_point, other, found, points, dir) refl)
          | inr file ↦ inl (1052, rw (starting_point, other, found, points, file) refl)
        ]
  ]
]

-- On a valid task, in a store where no redirection leads to another, for a path without a NUL among its
-- bytes, and where a relative path does not start from a descriptor with a null node, `openat_inner`
-- returns: an error, which is negative, leaves the task as it was; a number of a descriptor is that of a
-- slot that was free, which now holds a new descriptor of a node that is no redirection, while every other
-- slot is as before and the task is valid.
pub openat_inner-Returns :
    (store : Store) (root : ℕ) (dirfd : ℤ) (path : CString) (t : Task)
    → IsFlat store
    → IsPlain path
    → IsValid t
    → (¬ (get_or path 0 0 ≡ 47) → HasNode t dirfd)
    → Returns store t (openat_inner store root dirfd path t)
unfolding openat_inner
openat_inner-Returns store root dirfd path t flat plain v has =
    elim (Bool-cases (get_or path 0 0 == 47)) [
      | inl absolute ↦
          rw (openat_inner, absolute)
            (open_result-Returns store t (path_to_node store root path none) v
              (path_to_node-Ends store root path none flat plain))
      | inr relative ↦
          elim (starting_point-cases store t dirfd (has (λ e. ground (arith, relative, e)))) [
            | inl (e, bad) ↦
                rw (openat_inner, relative, bad) (negsuc e, t, refl, inl (e, refl, refl))
            | inr (node, good) ↦
                rw (openat_inner, relative, good)
                  (open_result-Returns store t (path_to_node store root path (some node)) v
                    (path_to_node-Ends store root path (some node) flat plain))
          ]
    ]
