-- ===== src/Fs/Node.antt =====
-- kernel/src/fs/node.rs and the links of kernel/src/fs/directory.rs. A file system is known by a
-- number, which stands for the pointer that `Weak::ptr_eq` and `Arc::ptr_eq` compare. The weak
-- reference of a node to itself is never followed, and is left out.
use pimento.Base.{ℕ, Bool, true, false, ◌&&◌, ◌==◌}
use pimento.Fs.Name.{Name}

abbrev pub FsId : Type 0
FsId = ℕ

pub data NodeType : Type 0 where
  character_device directory file : NodeType

pub record Node : Type 0 where
  pub file_system : FsId
  pub node_id : ℕ
  pub node_type : NodeType

-- `PartialEq`: the type is not compared.
abbrev pub node_eq : Node → Node → Bool
node_eq a b = (a.file_system == b.file_system) && (a.node_id == b.node_id)

-- `matches!(node_type, NodeType::Directory)`
abbrev pub is_directory : NodeType → Bool
is_directory NodeType.directory = true
is_directory _ = false

pub record NodeLink : Type 0 where
  pub name : Name
  pub node : Node
