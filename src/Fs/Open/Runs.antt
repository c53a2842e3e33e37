-- ===== src/Fs/Open/Runs.antt =====
-- A file of three bytes and the root of a new device file system, opened, and the theorems at them.
use pimento.Base.{ℕ, ◌+◌, ◌≡◌, refl, inr, arith, List, [], ◌∷◌, ok, length, some, get_elem?, ◌<◌}
use pimento.Base.Map.{empty, insert}
use pimento.Fs.Name.{current, parent}
use pimento.Fs.Node.{Node, directory, file}
use pimento.Fs.Tmpfs.{Tmpfs, link}
use pimento.Fs.Devfs.{CharacterDevices, Devfs}
use pimento.Fs.FileSystem as F
use pimento.Fs.Open.{FileSystems, File, new_directory, seek, read, write}
use pimento.Fs.Open.Directories.{read_all, read_all_lem}
use pimento.Fs.Tmpfs.Files.{Room}
use pimento.Memory.Reserve.{reserves, unused}
use pimento.Fs.Open.Files.{write-seek-read}

-- Devices that echo: a read returns what was written last.
abbrev echo : CharacterDevices (List ℕ)
echo = record { read = λ device count w. (ok w, w); write = λ device buf w. (ok (length buf), buf) }

abbrev notes : File
notes = record { node = record { file_system = 1; node_id = 1; node_type = file }; position = 2 }

abbrev disk : Tmpfs
disk = record {
  me = 1;
  root = record { file_system = 1; node_id = 0; node_type = directory };
  node_counter = 2;
  directories = empty;
  files = insert 1 (7 ∷ 8 ∷ 9 ∷ []) empty;
}

abbrev dev : Node
dev = record { file_system = 2; node_id = 0; node_type = directory }

abbrev devices : Devfs
devices = record {
  me = 2;
  root = dev;
  node_counter = 1;
  directories = insert 0 (link current dev ∷ link parent dev ∷ []) empty;
  character_devices = empty;
}

abbrev live : FileSystems
live = insert 1 (F.tmpfs disk) (insert 2 (F.devfs devices) empty)

read_all_lem_example :
    (length (read_all 9 (new_directory dev) live) ≡ 9)
    × ((i : ℕ)
        → i < 9
        → get_elem? (read_all 9 (new_directory dev) live) i
          ≡ some (ok (get_elem? (link current dev ∷ link parent dev ∷ []) i)))
read_all_lem_example = read_all_lem dev live (F.devfs devices) _ refl refl 9 (omega arith)

room : Room unused 4 (7 ∷ 8 ∷ 9 ∷ [])
unfolding reserves
room = inr refl

write-seek-read_example :
    (f1 : File) × (live1 : FileSystems) × (write echo unused notes (5 ∷ 6 ∷ []) live []
      ≡ (ok 2, f1, live1, []))
    × (f1.position ≡ 2 + 2)
    × ((f2 : File) × (seek f1 2 live1 ≡ (ok tt, f2))
        × ((read echo f2 2 live1 []).0 ≡ ok (5 ∷ 6 ∷ [])))
write-seek-read_example =
    write-seek-read echo unused notes (5 ∷ 6 ∷ []) (7 ∷ 8 ∷ 9 ∷ []) disk live [] refl refl
      (omega arith) room
