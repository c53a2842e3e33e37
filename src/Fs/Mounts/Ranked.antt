-- ===== src/Fs/Mounts/Ranked.antt =====
-- An order on the file systems in which each mount leads upwards.
use pimento.Base.{ℕ, ◌≤◌, ◌<◌, ◌≡◌, ◌⊎◌, some, List, length, All}
use pimento.Fs.Node.{FsId}
use pimento.Fs.Mounts.{Mount, find_subtree}

-- The file system at the root of all, or one that is mounted.
abbrev pub Attached : FsId → List Mount → FsId → Type 0
Attached top mounts id = (id ≡ top) ⊎ ((m : Mount) × (find_subtree id mounts ≡ some m))

-- The mount point is in an attached file system, which ranks below the one that is mounted there.
pub record Climbs (top : FsId) (rank : FsId → ℕ) (mounts : List Mount) (m : Mount) : Type 0 where
  pub attached : Attached top mounts m.mount_point.file_system
  pub up : rank m.mount_point.file_system < rank m.subtree.id
  pub bounded : rank m.subtree.id ≤ length mounts
  pub mounted : (m' : Mount) × (find_subtree m.subtree.id mounts ≡ some m')
  pub own_root : m.subtree.root.file_system ≡ m.subtree.id

pub record Ranked (top : FsId) (mounts : List Mount) : Type 0 where
  pub rank : FsId → ℕ
  pub bottom : rank top ≡ 0
  pub climbs : All (Climbs top rank mounts) mounts
