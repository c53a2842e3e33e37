-- ===== src/Fs/FileSystem.antt =====
-- The trait of kernel/src/fs/file_system.rs: a call goes to the file system that implements it, and
-- is an error where none does.
use pimento.Base.{ℕ, Option, List, Result, ok, err}
use pimento.Memory.Reserve.{HeapRoom}
use pimento.Fs.Name.{Name}
use pimento.Fs.Node.{Node, NodeLink}
use pimento.Fs.Tmpfs as T
use pimento.Fs.Devfs as D

pub data FileSystem : Type 0 where
  tmpfs : T.Tmpfs → FileSystem
  devfs : D.Devfs → FileSystem

-- A call that changes a file system.
abbrev pub Change : Type 0
Change = Node → Name → FileSystem → Result (Unit {0}) × FileSystem

abbrev back : {A : Type 0} → Result A × T.Tmpfs → Result A × FileSystem
back (r, fs) = (r, tmpfs fs)

abbrev pub root : FileSystem → Node
root (tmpfs fs) = fs.root
root (devfs fs) = fs.root

unfoldable pub mkdir : Change
mkdir dir name (tmpfs fs) = back (T.mkdir dir name fs)
mkdir dir name (devfs fs) = (err, devfs fs)

unfoldable pub rmdir : Change
rmdir dir name (tmpfs fs) = back (T.rmdir dir name fs)
rmdir dir name (devfs fs) = (err, devfs fs)

unfoldable pub mknod : Change
mknod dir name (tmpfs fs) = back (T.mknod dir name fs)
mknod dir name (devfs fs) = (err, devfs fs)

unfoldable pub unlink : Change
unlink dir name (tmpfs fs) = back (T.unlink dir name fs)
unlink dir name (devfs fs) = (err, devfs fs)

unfoldable pub readdir : Node → ℕ → FileSystem → Result (Option NodeLink)
readdir node position (tmpfs fs) = T.readdir node position fs
readdir node position (devfs fs) = D.readdir node position fs

-- `opendir`, `open` and `seek` succeed in both.
abbrev pub opendir : Node → FileSystem → Result (Unit {0})
opendir node fs = ok tt

abbrev pub open_file : Node → FileSystem → Result (Unit {0})
open_file node fs = ok tt

abbrev pub seek : Node → ℕ → FileSystem → Result (Unit {0})
seek node position fs = ok tt

module _ {W : Type 0} (devices : D.CharacterDevices W) where
  unfoldable pub read : Node → ℕ → ℕ → FileSystem → W → Result (List ℕ) × W
  read node position count (tmpfs fs) w = (T.read node position count fs, w)
  read node position count (devfs fs) w = D.read devices node count fs w

  abbrev pub stored : W → Result ℕ × T.Tmpfs → Result ℕ × FileSystem × W
  stored w (r, fs) = (r, tmpfs fs, w)

  abbrev sent : D.Devfs → Result ℕ × W → Result ℕ × FileSystem × W
  sent fs (r, w) = (r, devfs fs, w)

  unfoldable pub write : HeapRoom → Node → ℕ → List ℕ → FileSystem → W → Result ℕ × FileSystem × W
  write heap node position buf (tmpfs fs) w = stored w (T.write heap node position buf fs)
  write heap node position buf (devfs fs) w = sent fs (D.write devices node buf fs w)
