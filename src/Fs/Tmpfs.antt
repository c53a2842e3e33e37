-- ===== src/Fs/Tmpfs.antt =====
-- kernel/src/fs/tmpfs.rs: directories and files in two maps from node numbers. An operation that
-- changes the file system returns what is left of it on the error paths too.
pub mod Slices
pub mod Bytes
pub mod Files
pub mod Directories
pub mod Invariant
pub mod Histories
mod Runs
use pimento.Base.{
  ℕ, ◌+◌, ◌-◌, ◌%◌, Option, none, some, List, [], ◌∷◌, ◌++◌, Result, ok, err, panic, ◌>>=◌, length,
  get_elem?, take, drop, replicate, ltb, leb, not, ◌&&◌, if◌then◌else◌, word,
}
use pimento.Base.Map.{Map, empty, insert}
use pimento.Base.Outcome.{ok_or}
use pimento.Memory.Reserve.{HeapRoom, reserves}
use pimento.Memory.Address.{wrapping_add}
use pimento.Fs.Name.{Name, current, parent}
use pimento.Fs.Node.{FsId, Node, NodeLink, directory, file}

pub record Tmpfs : Type 0 where
  pub me : FsId
  pub root : Node
  pub node_counter : ℕ
  pub directories : Map (List NodeLink)
  pub files : Map (List ℕ)

abbrev pub link : Name → Node → NodeLink
link name node = record { name = name; node = node }

unfoldable pub new : FsId → Tmpfs
new me =
    let root : Node = record { file_system = me; node_id = 0; node_type = directory } in
    record {
      me = me;
      root = root;
      node_counter = 1;
      directories = insert 0 (link current root ∷ link parent root ∷ []) empty;
      files = empty;
    }

-- A step that may fail, with the directories that it leaves.
abbrev pub Links : Type 0
Links = Result (Unit {0}) × Map (List NodeLink)

-- `get_mut(&id).ok_or(())?.push(link)`
abbrev pub push_link : ℕ → NodeLink → Map (List NodeLink) → Links
push_link id l m = elim (m id) [
  | none ↦ (err, m)
  | some entries ↦ (ok tt, insert id (entries ++ (l ∷ [])) m)
]

abbrev pub and_then : Links → (Map (List NodeLink) → Links) → Links
and_then (ok _, m) next = next m
and_then (err, m) next = (err, m)
and_then (panic, m) next = (panic, m)

-- `fetch_add(1)`, and a child of `dir` with the number that it returns.
abbrev pub count : Tmpfs → Tmpfs
count fs = record fs { node_counter = wrapping_add fs.node_counter 1 }

-- The three changes of `directories` in `mkdir`: the link in the parent is pushed before the new
-- directory is there, and once more behind it.
unfoldable pub mkdir_links : Node → Node → Name → Map (List NodeLink) → Links
mkdir_links dir child name m = and_then (push_link dir.node_id (link name child) m) λ pushed.
    push_link dir.node_id (link name child)
      (insert child.node_id (link current child ∷ link parent dir ∷ []) pushed)

abbrev pub after_links : Tmpfs → Links → Result (Unit {0}) × Tmpfs
after_links fs (r, m) = (r, record fs { directories = m })

unfoldable pub mkdir : Node → Name → Tmpfs → Result (Unit {0}) × Tmpfs
unfolding mkdir_links
mkdir dir name fs =
    let child : Node = record {
      file_system = dir.file_system;
      node_id = fs.node_counter;
      node_type = directory;
    } in
    after_links (count fs) (mkdir_links dir child name fs.directories)

unfoldable pub mknod : Node → Name → Tmpfs → Result (Unit {0}) × Tmpfs
mknod dir name fs =
    let child : Node = record {
      file_system = dir.file_system;
      node_id = fs.node_counter;
      node_type = file;
    } in
    let made = record (count fs) { files = insert fs.node_counter [] fs.files } in
    after_links made (push_link dir.node_id (link name child) fs.directories)

-- `rmdir`, `unlink` and `rename` are `todo!()`.
unfoldable pub rmdir : Node → Name → Tmpfs → Result (Unit {0}) × Tmpfs
rmdir dir name fs = (panic, fs)

unfoldable pub unlink : Node → Name → Tmpfs → Result (Unit {0}) × Tmpfs
unlink dir name fs = (panic, fs)

unfoldable pub readdir : Node → ℕ → Tmpfs → Result (Option NodeLink)
readdir node position fs = do
  entries ← ok_or (fs.directories node.node_id)
  ok (get_elem? entries position)

-- `v[start..end]`, a panic out of range.
unfoldable pub slice : ℕ → ℕ → List ℕ → Result (List ℕ)
slice start end v =
    if leb start end && leb end (length v) then ok (take (end - start) (drop start v)) else panic

unfoldable pub read : Node → ℕ → ℕ → Tmpfs → Result (List ℕ)
unfolding slice
read node position count fs = do
  bytes ← ok_or (fs.files node.node_id)
  let end = wrapping_add position count
  slice position (if ltb (length bytes) end then length bytes else end) bytes

-- What `resize_with(end, || 0)` makes of a vector that can have the room, when `end` is longer;
-- `write` asks for the room first.
unfoldable pub grow : ℕ → List ℕ → List ℕ
grow end v = if ltb (length v) end then v ++ replicate (end - length v) 0 else v

-- `v[start..end].copy_from_slice(buf)`, a panic out of range and where the lengths differ.
unfoldable pub overwrite : ℕ → ℕ → List ℕ → List ℕ → Result (List ℕ)
overwrite start end buf v =
    if leb start end
      && leb end (length v)
      && (leb (end - start) (length buf) && leb (length buf) (end - start))
    then ok (take start v ++ (buf ++ drop end v))
    else panic

-- The file is longer already when the copy panics.
abbrev after_write : ℕ → ℕ → List ℕ → Tmpfs → Result (List ℕ) → Result ℕ × Tmpfs
after_write id len grown fs (ok bytes) = (ok len, record fs { files = insert id bytes fs.files })
after_write id len grown fs _ = (panic, record fs { files = insert id grown fs.files })

-- `resize_with` panics when the vector cannot have the room.
unfoldable pub write : HeapRoom → Node → ℕ → List ℕ → Tmpfs → Result ℕ × Tmpfs
unfolding grow overwrite
write heap node position buf fs = elim (fs.files node.node_id) [
  | none ↦ (err, fs)
  | some bytes ↦
      let end = wrapping_add position (length buf) in
      let grown = grow end bytes in
      if ltb (length bytes) end && not (reserves heap end)
      then (panic, fs)
      else after_write node.node_id (end - position) grown fs (overwrite position end buf grown)
]
