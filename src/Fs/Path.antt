-- ===== src/Fs/Path.antt =====
-- src/fs/vfs.cpp: `reduce_node` and `path_to_node`.
-- `reduce_node` follows at most as many redirections as there are nodes and one, `none` stands for a
-- chain that does not end; the loop of `path_to_node` takes a round for each byte of the path and one
-- more, which is enough. An allocation that fails is left out.
pub mod Components
pub mod Resolve
pub mod Ends
pub mod Entry
mod Tests
use fish_os.Base.{
  ℕ, zero, suc, ◌+◌, ◌-◌, Bool, true, false, List, [], ◌∷◌, Option, none, some, ◌==◌, if◌then◌else◌,
  length, get_or, take, drop,
}
use fish_os.Klib.Cstring.{CString, strlen, strchr}
use fish_os.Klib.HashMap.{get}
use fish_os.Fs.Node.{Node, Store, is_directory, node_at}

-- a null pointer is `none`
pub record PathToNodeResult : Type 0 where
  pub target_parent : Option ℕ
  pub target : Option ℕ
  pub basename : Option CString

abbrev pub nothing : PathToNodeResult
nothing = record { target_parent = none; target = none; basename = none }

pub follow : ℕ → Store → ℕ → Option ℕ
follow zero store node = none
follow (suc fuel) store node = elim (node_at store node).redirect [
  | none ↦ some node
  | some next ↦ follow fuel store next
]

pub reduce_node : Store → ℕ → Option ℕ
reduce_node store node = follow (length store + 1) store node

-- `s - path`, where `s` is the next slash or the end
unfoldable pub entry_name_len : CString → ℕ → ℕ
entry_name_len path path_len = elim (strchr path 47) [ none ↦ path_len | some s ↦ s ]

unfoldable pub is_last : CString → ℕ → Bool
is_last path path_len = elim (strchr path 47) [ none ↦ true | some s ↦ s + 1 == path_len ]

-- the loop from the node `current` on
pub walk : ℕ → Store → ℕ → CString → ℕ → Option PathToNodeResult
walk zero store current path path_len = none
walk (suc fuel) store current path path_len =
    let n = entry_name_len path path_len in
    let entry_name = take n path in
    elim (is_directory (node_at store current).type) [
      | false ↦ some nothing
      | true ↦ elim (get entry_name (node_at store current).children) [
        | none ↦
            some
              (record { target_parent = some current; target = none; basename = some entry_name })
        | some next ↦ elim (reduce_node store next) [
          | none ↦ none
          | some node ↦ elim (is_last path path_len) [
            | true ↦ some (record {
              target_parent = some current;
              target = some node;
              basename = some entry_name;
            })
            | false ↦ walk fuel store node (drop (n + 1) path) (path_len - (n + 1))
          ]
        ]
      ]
    ]

pub path_to_node : Store → ℕ → CString → Option ℕ → Option PathToNodeResult
path_to_node store root path starting_point =
    let path_len = strlen path in
    if path_len == 0 then some nothing else elim starting_point [
      | some node ↦ walk (path_len + 1) store node path path_len
      | none ↦
          if get_or path 0 0 == 47
          then walk (path_len + 1) store root (drop 1 path) (path_len - 1)
          else some nothing
    ]
