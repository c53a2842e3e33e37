-- ===== src/Fs/Mounts.antt =====
-- The mounts of kernel/src/fs/virtual_file_system.rs and the two walks over them. A walk is cut off
-- by fuel, and returns nothing when it is: the source's loop then goes on.
pub mod Ranked
pub mod Subtree
pub mod Mounting
mod Runs
use pimento.Base.{
  ℕ, zero, suc, Bool, true, false, Option, none, some, List, [], ◌∷◌, ◌++◌, Result, ok, err, panic,
  ◌>>=◌, if◌then◌else◌, not, ◌&&◌, ◌==◌, length, find,
}
use pimento.Base.Outcome.{ok_or}
use pimento.Fs.Node.{FsId, Node, node_eq, is_directory}

-- `Arc<dyn FileSystem>`: the file system's number, and its root, which never changes.
pub record Handle : Type 0 where
  pub id : FsId
  pub root : Node

pub record Mount : Type 0 where
  pub mount_point : Node
  pub subtree : Handle

-- `mounts.iter().find(|mount| mount.mount_point == node)`
abbrev pub find_mount_point : Node → List Mount → Option Mount
find_mount_point node mounts = find (λ mount. node_eq mount.mount_point node) mounts

-- `mounts.iter().find(|mount| Arc::ptr_eq(&mount.subtree, &file_system))`
abbrev pub find_subtree : FsId → List Mount → Option Mount
find_subtree id mounts = find (λ mount. mount.subtree.id == id) mounts

unfoldable pub resolve_subtree : ℕ → List Mount → Node → Bool → Option (Node × Bool)
resolve_subtree zero mounts node changed = none
resolve_subtree (suc fuel) mounts node changed = elim (find_mount_point node mounts) [
  | none ↦ some (node, changed)
  | some mount ↦ resolve_subtree fuel mounts mount.subtree.root true
]

-- `root_of` is the root of a file system that is there still.
unfoldable pub resolve_mount_point :
    ℕ → (FsId → Option Node) → List Mount → Node → Bool → Option (Result (Node × Bool))
resolve_mount_point zero root_of mounts node changed = none
resolve_mount_point (suc fuel) root_of mounts node changed = elim (root_of node.file_system) [
  | none ↦ some err
  | some root ↦ elim (node_eq node root) [
    | false ↦ some (ok (node, changed))
    | true ↦ elim (find_subtree node.file_system mounts) [
      | none ↦ some (ok (node, changed))
      | some mount ↦ resolve_mount_point fuel root_of mounts mount.mount_point true
    ]
  ]
]

-- More rounds than there are mounts.
abbrev pub rounds : List Mount → ℕ
rounds mounts = suc (length mounts)

-- The rest of `mount`, with the mount point resolved.
unfoldable pub push_mount : Node → Handle → List Mount → Result (Unit {0}) × List Mount
push_mount mount_point subtree mounts =
    if not (is_directory mount_point.node_type)
    then (err, mounts)
    else elim (find_subtree subtree.id mounts) [
      | some _ ↦ (err, mounts)
      | none ↦ (ok tt, mounts ++ (record { mount_point = mount_point; subtree = subtree } ∷ []))
    ]

unfoldable pub mount : Node → Handle → List Mount → Option (Result (Unit {0}) × List Mount)
mount mount_point subtree mounts = elim (resolve_subtree (rounds mounts) mounts mount_point false) [
  | none ↦ none
  | some (resolved, _) ↦ some (push_mount resolved subtree mounts)
]
