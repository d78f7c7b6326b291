-- ===== src/Fs/Node.antt =====
-- src/fs/vfs.hpp: nodes, in a store that a pointer indexes.
-- There is one file system, tmpfs, so a node does not hold a pointer to it; the `NodeData` behind
-- `data` is part of the node, empty for a node that has none. The constructor leaves `redirect` as the
-- heap gave it, which is its first argument here.
use fish_os.Base.{ℕ, Bool, true, false, List, [], Option, none, get_or}
use fish_os.Klib.Cstring.{CString}
use fish_os.Klib.HashMap.{HashMap, new}

pub data NodeType : Type 0 where
  none_type : NodeType
  file : NodeType
  directory : NodeType

-- `tmpfs::NodeData`
pub record NodeData : Type 0 where
  pub storage : List ℕ
  pub size : ℕ

pub record Node : Type 0 where
  pub type : NodeType
  pub content : NodeData
  pub redirect : Option ℕ
  pub parent : Option ℕ
  pub name : CString
  pub children : HashMap ℕ

abbrev pub Store : Type 0
Store = List Node

unfoldable pub is_file : NodeType → Bool
is_file file = true
is_file _ = false

unfoldable pub is_directory : NodeType → Bool
is_directory directory = true
is_directory _ = false

-- the constructors `FileNode`, `DirectoryNode` and, for the dot entries, `Node`
unfoldable pub new_node : Option ℕ → NodeType → Option ℕ → CString → Node
unfolding new
new_node heap type parent name = record {
  type = type;
  content = record { storage = []; size = 0 };
  redirect = heap;
  parent = parent;
  name = name;
  children = new 16;
}

-- a load through a pointer; a dangling one reads this node
abbrev pub nowhere : Node
nowhere = record {
  type = none_type;
  content = record { storage = []; size = 0 };
  redirect = none;
  parent = none;
  name = [];
  children = record { array = []; capacity = 0; size = 0 };
}

abbrev pub node_at : Store → ℕ → Node
node_at store at = get_or store at nowhere
