-- ===== src/Fs/Create.antt =====
-- src/fs/tmpfs.cpp (`create`) and src/fs/vfs.cpp (`create_dotentries`): new nodes in the tree.
-- A new node stands at the end of the store; `heap` gives the pointer that its memory holds in the place of
-- `redirect`, which the constructor does not set. `none` is a load through a null pointer or a hash table
-- that runs out of its levels of nesting.
mod Added
pub mod File
pub mod Directory
pub mod Tree
mod Tests
use fish_os.Base.{ℕ, ◌+◌, List, [], ◌∷◌, ◌++◌, Option, none, some, length, set}
use fish_os.Klib.Cstring.{CString}
use fish_os.Klib.HashMap.{insert}
use fish_os.Fs.Node.{Node, NodeType, none_type, file, directory, Store, new_node, node_at}

-- `dir->children.insert(name, child)`
pub add_child : ℕ → CString → ℕ → Store → Option Store
add_child dir name child store = elim (insert name child (node_at store dir).children) [
  | none ↦ none
  | some table ↦ some (set store dir (record (node_at store dir) { children = table }))
]

abbrev pub dot : CString
dot = 46 ∷ []

abbrev pub dotdot : CString
dotdot = 46 ∷ 46 ∷ []

-- `parent ? parent : this`
unfoldable pub parent_or : ℕ → Option ℕ → ℕ
parent_or self none = self
parent_or self (some parent) = parent

-- the two nodes that `create_dotentries` makes, with their redirections set
unfoldable pub dot_nodes : ℕ → Option ℕ → List Node
dot_nodes self parent =
    record (new_node none none_type (some self) dot) { redirect = some self }
    ∷ record (new_node none none_type (some self) dotdot) {
      redirect = some (parent_or self parent);
    }
    ∷ []

pub create_dotentries : ℕ → Store → Option Store
create_dotentries self store =
    let n = length store in
    elim (add_child self dot n (store ++ dot_nodes self (node_at store self).parent)) [
      | none ↦ none
      | some store' ↦ add_child self dotdot (n + 1) store'
    ]

-- the node returned, null for another type, and the store
pub create : (ℕ → Option ℕ) → NodeType → Option ℕ → CString → Store → Option (Option ℕ × Store)
create heap file none name store = none
create heap file (some parent) name store =
    let node = length store in
    elim (add_child parent name node
      (store ++ (new_node (heap node) file (some parent) name ∷ []))) [
        | none ↦ none
        | some store' ↦ some (some node, store')
      ]
create heap directory parent name store =
    let node = length store in
    elim (create_dotentries node (store ++ (new_node (heap node) directory parent name ∷ []))) [
      | none ↦ none
      | some store' ↦ elim parent [
        | none ↦ some (some node, store')
        | some p ↦ elim (add_child p name node store') [
          | none ↦ none
          | some store'' ↦ some (some node, store'')
        ]
      ]
    ]
create heap none_type parent name store = some (none, store)
