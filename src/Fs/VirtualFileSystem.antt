-- ===== src/Fs/VirtualFileSystem.antt =====
-- kernel/src/fs/virtual_file_system.rs: the calls that go to the file system of a resolved node. A
-- call is `none` when the walk over the mounts is cut off. `rename` is a `todo!()` and is left out.
pub mod Changes
mod Runs
use pimento.Base.{
  ℕ, zero, suc, Bool, true, false, not, ◌||◌, Option, none, some, List, Result, ok, err, panic,
  if◌then◌else◌, length,
}
use pimento.Base.Map.{insert}
use pimento.Fs.Name.{Name, name_eq, current, parent}
use pimento.Fs.Node.{FsId, Node, NodeLink, is_directory}
use pimento.Fs.FileSystem as F
use pimento.Fs.Mounts.{Mount, Handle, resolve_subtree, resolve_mount_point, rounds}
use pimento.Fs.Mounts as M
use pimento.Fs.Open.{FileSystems, Directory, File, new_directory, new_file}
use pimento.Fs.Open as O

pub record VirtualFileSystem : Type 0 where
  pub root_file_system : FsId
  pub mounts : List Mount
  pub file_systems : FileSystems

-- A resolved node's call of the file system that it belongs to.
abbrev commit :
    FsId
    → VirtualFileSystem
    → Result (Unit {0}) × F.FileSystem
    → Result (Unit {0}) × VirtualFileSystem
commit id v (r, fs) = (r, record v { file_systems = insert id fs v.file_systems })

abbrev pub call_at :
    F.Change → Node → Name → VirtualFileSystem → Result (Unit {0}) × VirtualFileSystem
call_at change dir name v =
    if not (is_directory dir.node_type)
    then (err, v)
    else if name_eq name current || name_eq name parent
    then (err, v)
    else elim (v.file_systems dir.file_system) [
      | none ↦ (err, v)
      | some fs ↦ commit dir.file_system v (change dir name fs)
    ]

-- The body that the four calls share.
unfoldable pub change_at :
    F.Change → Node → Name → VirtualFileSystem → Option (Result (Unit {0}) × VirtualFileSystem)
change_at change dir name v = elim (resolve_subtree (rounds v.mounts) v.mounts dir false) [
  | none ↦ none
  | some (resolved, _) ↦ some (call_at change resolved name v)
]

unfoldable pub mkdir :
    Node → Name → VirtualFileSystem → Option (Result (Unit {0}) × VirtualFileSystem)
mkdir = change_at F.mkdir

unfoldable pub rmdir :
    Node → Name → VirtualFileSystem → Option (Result (Unit {0}) × VirtualFileSystem)
rmdir = change_at F.rmdir

unfoldable pub mknod :
    Node → Name → VirtualFileSystem → Option (Result (Unit {0}) × VirtualFileSystem)
mknod = change_at F.mknod

-- The file system's `rmdir` is what the source calls here.
unfoldable pub unlink :
    Node → Name → VirtualFileSystem → Option (Result (Unit {0}) × VirtualFileSystem)
unlink = change_at F.rmdir

abbrev opened : {A : Type 0} → A → Result (Unit {0}) → Result A
opened a (ok _) = ok a
opened a err = err
opened a panic = panic

unfoldable pub opendir : Node → VirtualFileSystem → Option (Result Directory)
opendir node v = elim (resolve_subtree (rounds v.mounts) v.mounts node false) [
  | none ↦ none
  | some (resolved, _) ↦ some (
      if not (is_directory resolved.node_type)
      then err
      else elim (v.file_systems resolved.file_system) [
        | none ↦ err
        | some fs ↦ opened (new_directory resolved) (F.opendir resolved fs)
      ])
]

unfoldable pub open_file : Node → VirtualFileSystem → Option (Result File)
open_file node v = elim (resolve_subtree (rounds v.mounts) v.mounts node false) [
  | none ↦ none
  | some (resolved, _) ↦ some (
      if is_directory resolved.node_type then err else elim (v.file_systems resolved.file_system) [
        | none ↦ err
        | some fs ↦ opened (new_file resolved) (F.open_file resolved fs)
      ])
]

abbrev mounted :
    VirtualFileSystem → Result (Unit {0}) × List Mount → Result (Unit {0}) × VirtualFileSystem
mounted v (r, mounts) = (r, record v { mounts = mounts })

unfoldable pub mount :
    Node → Handle → VirtualFileSystem → Option (Result (Unit {0}) × VirtualFileSystem)
mount mount_point subtree v = elim (M.mount mount_point subtree v.mounts) [
  | none ↦ none
  | some r ↦ some (mounted v r)
]

-- The root of a file system that is there still.
abbrev pub root_of : VirtualFileSystem → FsId → Option Node
root_of v id = elim (v.file_systems id) [ none ↦ none | some fs ↦ some (F.root fs) ]

abbrev to_parent :
    Result (Option NodeLink) → Option (Result (Option NodeLink)) → Option (Result (Option NodeLink))
to_parent (ok (some l)) rest = if name_eq l.name parent then some (ok (some l)) else rest
to_parent (ok none) rest = some err
to_parent err rest = some err
to_parent panic rest = some panic

-- The inner loop of `readdir`: the first `..` of the mount point's directory.
unfoldable pub find_parent : ℕ → Directory → FileSystems → Option (Result (Option NodeLink))
find_parent zero d live = none
find_parent (suc fuel) d live =
    to_parent (O.readdir d live).0 (find_parent fuel (O.readdir d live).1 live)

-- The link to the parent of what `node` is mounted on, or `own` if it is mounted nowhere.
unfoldable pub parent_link :
    ℕ → Node → Result (Option NodeLink) → VirtualFileSystem → Option (Result (Option NodeLink))
unfolding find_parent opendir
parent_link size node own v =
    elim (resolve_mount_point (rounds v.mounts) (root_of v) v.mounts node false) [
      | none ↦ none
      | some err ↦ some err
      | some panic ↦ some panic
      | some (ok (mount_point, false)) ↦ some own
      | some (ok (mount_point, true)) ↦ elim (opendir mount_point v) [
        | none ↦ none
        | some err ↦ some err
        | some panic ↦ some panic
        | some (ok d) ↦ find_parent (suc size) d v.file_systems
      ]
    ]

abbrev with_position :
    Directory → Option (Result (Option NodeLink)) → Option (Result (Option NodeLink) × Directory)
with_position d none = none
with_position d (some r) = some (r, d)

abbrev redirect :
    ℕ → Node → Result (Option NodeLink) → VirtualFileSystem → Option (Result (Option NodeLink))
redirect size node (ok (some l)) v =
    if name_eq l.name parent then parent_link size node (ok (some l)) v else some (ok (some l))
redirect size node r v = some r

-- With fuel for directories of up to `size` links.
unfoldable pub readdir :
    ℕ → Directory → VirtualFileSystem → Option (Result (Option NodeLink) × Directory)
readdir size d v =
    with_position (O.readdir d v.file_systems).1
      (redirect size d.node (O.readdir d v.file_systems).0 v)
