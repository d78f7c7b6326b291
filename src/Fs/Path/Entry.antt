-- ===== src/Fs/Path/Entry.antt =====
-- src/fs/vfs.cpp: a path of one name.
use fish_os.Base.{ℕ, ◌<◌, ◌≡◌, refl, ap, ◌∙◌, true, [], ◌∷◌, none, some, length, arith}
use fish_os.Klib.Cstring.{CString, strchr}
use fish_os.Klib.HashMap.{get}
use fish_os.Fs.Node.{Store, is_directory, node_at}
use fish_os.Fs.Path.{reduce_node, path_to_node}
use fish_os.Fs.Path.Resolve.{resolve, lookup, path_to_node-lookup}
use fish_os.Fs.Path.Components.{is_nil, IsPlain, components-one}

-- a name that can stand in a directory: not empty, without a NUL or a slash
pub record IsName (name : CString) : Type 0 where
  pub plain : IsPlain name
  pub one : strchr name 47 ≡ none
  pub some_char : 0 < length name

resolve-one :
    (store : Store) (dir child target : ℕ) (name : CString)
    → is_directory (node_at store dir).type ≡ true
    → get name (node_at store dir).children ≡ some child
    → reduce_node store child ≡ some target
    → resolve store dir (name ∷ [])
      ≡ some (record { target_parent = some dir; target = some target; basename = some name })
unfolding resolve is_nil
resolve-one store dir child target name d found reduced = rw (resolve, d, found, reduced) refl

-- In a directory that has a child of that name, the path of the name leads to what the child reduces
-- to.
pub path_to_node-one :
    (store : Store) (root dir child target : ℕ) (name : CString)
    → IsName name
    → is_directory (node_at store dir).type ≡ true
    → get name (node_at store dir).children ≡ some child
    → reduce_node store child ≡ some target
    → path_to_node store root name (some dir)
      ≡ some (record { target_parent = some dir; target = some target; basename = some name })
unfolding lookup
path_to_node-one store root dir child target [] n d found reduced =
    absurd (omega (arith, n.some_char))
path_to_node-one store root dir child target (c ∷ cs) n d found reduced =
    path_to_node-lookup store root (c ∷ cs) (some dir) n.plain
    ∙ ap (resolve store dir) (components-one (c ∷ cs) n.plain n.one)
    ∙ resolve-one store dir child target (c ∷ cs) d found reduced
