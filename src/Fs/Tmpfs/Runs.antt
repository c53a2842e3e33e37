-- ===== src/Fs/Tmpfs/Runs.antt =====
-- A file system with one directory and one file in it, and the theorems at it.
use pimento.Base.{
  ℕ, ◌+◌, ◌-◌, ◌≤◌, ◌<◌, ◌≡◌, refl, inr, false, ◌⊎◌, arith, none, some, List, [], ◌∷◌, ok, err,
  panic, length, get_elem?, min, ◌%◌, word,
}
use pimento.Base.Map.{empty, insert}
use pimento.Memory.Reserve.{reserves, unused}
use pimento.Fs.Name.{Name}
use pimento.Fs.Node.{Node, NodeLink, directory, file}
use pimento.Fs.Tmpfs.{Tmpfs, new, link, mkdir, mknod, read, write}
use pimento.Fs.Tmpfs.Files.{Room, Writes, write_lem, write-read, read_lem}
use pimento.Fs.Tmpfs.Directories.{MadeDirectory, MadeFile, mkdir_lem, mknod_lem}
use pimento.Fs.Tmpfs.Invariant.{IsValid}
use pimento.Fs.Tmpfs.Histories.{Call, make_directory, make_file, store, after_all, history-IsValid}

abbrev top : Node
top = record { file_system = 7; node_id = 0; node_type = directory }

abbrev readme : Node
readme = record { file_system = 7; node_id = 1; node_type = file }

abbrev readme_name : Name
readme_name = b'r' ∷ b'e' ∷ []

-- After `mknod(root, "re")` and a write of three bytes.
abbrev disk : Tmpfs
disk = record {
  me = 7;
  root = top;
  node_counter = 2;
  directories = insert 0 (link readme_name readme ∷ []) empty;
  files = insert 1 (104 ∷ 101 ∷ 121 ∷ []) empty;
}

-- Two bytes at position 5 of the three-byte file.
write_gap :
    (f : Tmpfs) × (write unused readme 5 (1 ∷ 2 ∷ []) disk ≡ (ok 2, f))
    × (f.files 1 ≡ some (104 ∷ 101 ∷ 121 ∷ 0 ∷ 0 ∷ 1 ∷ 2 ∷ []))
unfolding write reserves
write_gap = (_, refl, refl)

write_lem_example :
    ((v : List ℕ) × (disk.files 1 ≡ some v)
      × Room unused 7 v
      × ((fs' : Tmpfs) × (write unused readme 5 (1 ∷ 2 ∷ []) disk ≡ (ok 2, fs'))
          × Writes readme 5 (1 ∷ 2 ∷ []) v disk fs'))
    ⊎ (((v : List ℕ) × (disk.files 1 ≡ some v)
          × (length v < 7)
          × (reserves unused 7 ≡ false)
          × (write unused readme 5 (1 ∷ 2 ∷ []) disk ≡ (panic, disk)))
        ⊎ ((disk.files 1 ≡ none) × (write unused readme 5 (1 ∷ 2 ∷ []) disk ≡ (err, disk))))
write_lem_example = write_lem unused readme 5 (1 ∷ 2 ∷ []) disk (omega arith)

room : Room unused 7 (104 ∷ 101 ∷ 121 ∷ [])
unfolding reserves
room = inr refl

-- No file takes a byte behind the first 4 MB.
too_long : write unused readme 0x40_0000 (1 ∷ []) disk ≡ (panic, disk)
unfolding write reserves
too_long = refl

write-read_example : read readme 5 2 (write unused readme 5 (1 ∷ 2 ∷ []) disk).1 ≡ ok (1 ∷ 2 ∷ [])
write-read_example =
    write-read unused readme 5 (1 ∷ 2 ∷ []) disk (104 ∷ 101 ∷ 121 ∷ []) refl (omega arith) room

read_lem_example :
    ((v : List ℕ) × (disk.files 1 ≡ some v)
      × (2 ≤ length v)
      × ((bytes : List ℕ) × (read readme 2 9 disk ≡ ok bytes)
          × (length bytes ≡ min 9 (length v - 2))
          × ((i : ℕ) → i < length bytes → get_elem? bytes i ≡ get_elem? v (2 + i))))
    ⊎ (((v : List ℕ) × (disk.files 1 ≡ some v) × (length v < 2) × (read readme 2 9 disk ≡ panic))
        ⊎ ((disk.files 1 ≡ none) × (read readme 2 9 disk ≡ err)))
read_lem_example = read_lem readme 2 9 disk (omega arith)

mkdir_lem_example :
    ((entries : List NodeLink) × (fs' : Tmpfs) × (disk.directories 0 ≡ some entries)
      × (mkdir top readme_name disk ≡ (ok tt, fs'))
      × MadeDirectory top readme_name entries disk fs')
    ⊎ ((disk.directories 0 ≡ none)
        × (mkdir top readme_name disk ≡ (err, record disk { node_counter = 3 % word })))
mkdir_lem_example = mkdir_lem top readme_name disk refl

mknod_lem_example :
    ((entries : List NodeLink) × (fs' : Tmpfs) × (disk.directories 1 ≡ some entries)
      × (mknod readme readme_name disk ≡ (ok tt, fs'))
      × MadeFile readme readme_name entries disk fs')
    ⊎ ((disk.directories 1 ≡ none)
        × (mknod readme readme_name disk
            ≡ (err, record disk { node_counter = 3 % word; files = insert 2 [] disk.files })))
mknod_lem_example = mknod_lem readme readme_name disk

abbrev calls : List Call
calls =
    make_file top readme_name ∷ store unused readme 0 (1 ∷ []) ∷ make_directory top (b'd' ∷ []) ∷ []

history-IsValid_example : IsValid (after_all calls (new 7))
history-IsValid_example = history-IsValid 7 calls (refl, (omega arith, (refl, tt))) (omega arith)
