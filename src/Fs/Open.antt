-- ===== src/Fs/Open.antt =====
-- The open directories of kernel/src/fs/directory.rs and the open files of kernel/src/fs/file.rs: a
-- node, and the position that a call moves on. `me` and the upgrades of it are left out, since what
-- calls a method is there.
pub mod Directories
pub mod Files
mod Runs
use pimento.Base.{ℕ, Option, none, some, List, length, Result, ok, err, panic, ◌>>=◌}
use pimento.Base.Map.{Map, insert}
use pimento.Base.Outcome.{ok_or}
use pimento.Memory.Address.{wrapping_add}
use pimento.Memory.Reserve.{HeapRoom}
use pimento.Fs.Node.{Node, NodeLink}
use pimento.Fs.Devfs.{CharacterDevices}
use pimento.Fs.FileSystem as F

-- The file systems that a weak reference leads to.
abbrev pub FileSystems : Type 0
FileSystems = Map F.FileSystem

pub record Directory : Type 0 where
  pub node : Node
  pub position : ℕ

unfoldable pub new_directory : Node → Directory
new_directory node = record { node = node; position = 0 }

abbrev moved : Directory → Result (Option NodeLink) → Result (Option NodeLink) × Directory
moved d (ok entry) = (ok entry, record d { position = wrapping_add d.position 1 })
moved d r = (r, d)

-- The position moves on at the end of the directory too, and stays on an error.
unfoldable pub readdir : Directory → FileSystems → Result (Option NodeLink) × Directory
readdir d live =
    moved d
      (do file_system ← ok_or (live d.node.file_system); F.readdir d.node d.position file_system)

pub record File : Type 0 where
  pub node : Node
  pub position : ℕ

unfoldable pub new_file : Node → File
new_file node = record { node = node; position = 0 }

unfoldable pub seek : File → ℕ → FileSystems → Result (Unit {0}) × File
seek f position live = elim (live f.node.file_system) [
  | none ↦ (err, f)
  | some file_system ↦ elim (F.seek f.node position file_system) [
    | ok u ↦ (ok u, record f { position = position })
    | err ↦ (err, f)
    | panic ↦ (panic, f)
  ]
]

module _ {W : Type 0} (devices : CharacterDevices W) where
  abbrev pub advanced : File → Result (List ℕ) × W → Result (List ℕ) × File × W
  advanced f (ok buf, w) = (ok buf, record f { position = wrapping_add f.position (length buf) }, w)
  advanced f (r, w) = (r, f, w)

  unfoldable pub read : File → ℕ → FileSystems → W → Result (List ℕ) × File × W
  read f count live w = elim (live f.node.file_system) [
    | none ↦ (err, f, w)
    | some file_system ↦ advanced f (F.read devices f.node f.position count file_system w)
  ]

  abbrev pub put_back :
      File → FileSystems → Result ℕ × F.FileSystem × W → Result ℕ × File × FileSystems × W
  put_back f live (ok len, file_system, w) = (
    ok len,
    record f { position = wrapping_add f.position len },
    insert f.node.file_system file_system live,
    w,
  )
  put_back f live (r, file_system, w) = (r, f, insert f.node.file_system file_system live, w)

  unfoldable pub write :
      HeapRoom → File → List ℕ → FileSystems → W → Result ℕ × File × FileSystems × W
  write heap f buf live w = elim (live f.node.file_system) [
    | none ↦ (err, f, live, w)
    | some file_system ↦ put_back f live (F.write devices heap f.node f.position buf file_system w)
  ]
