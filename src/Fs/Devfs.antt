-- ===== src/Fs/Devfs.antt =====
-- kernel/src/device/devfs.rs. A character device is a number; what it does is `CharacterDevices`.
use pimento.Base.{ℕ, Option, List, [], ◌∷◌, Result, ok, err, panic, ◌>>=◌, get_elem?}
use pimento.Base.Map.{Map, empty, insert}
use pimento.Base.Outcome.{ok_or}
use pimento.Memory.Address.{wrapping_add}
use pimento.Fs.Name.{Name, current, parent}
use pimento.Fs.Node.{FsId, Node, NodeLink, NodeType, character_device, directory}
use pimento.Fs.Tmpfs.{Links, link, push_link}

-- kernel/src/device/character_device.rs: the drivers, which work on the devices' state `W`.
pub record CharacterDevices (W : Type 0) : Type 0 where
  pub read : (device count : ℕ) → W → Result (List ℕ) × W
  pub write : (device : ℕ) → List ℕ → W → Result ℕ × W

pub record Devfs : Type 0 where
  pub me : FsId
  pub root : Node
  pub node_counter : ℕ
  pub directories : Map (List NodeLink)
  pub character_devices : Map ℕ

unfoldable pub new : FsId → Devfs
new me =
    let root : Node = record { file_system = me; node_id = 0; node_type = directory } in
    record {
      me = me;
      root = root;
      node_counter = 1;
      directories = insert 0 (link current root ∷ link parent root ∷ []) empty;
      character_devices = empty;
    }

abbrev registered : Devfs → ℕ → Links → Result (Unit {0}) × Devfs
registered fs device (r, m) = (
  r,
  record fs {
    node_counter = wrapping_add fs.node_counter 1;
    directories = m;
    character_devices = insert fs.node_counter device fs.character_devices;
  },
)

unfoldable pub register_character_device : Name → ℕ → Devfs → Result (Unit {0}) × Devfs
register_character_device name device fs =
    let child : Node = record {
      file_system = fs.root.file_system;
      node_id = fs.node_counter;
      node_type = character_device;
    } in
    registered fs device (push_link fs.root.node_id (link name child) fs.directories)

unfoldable pub readdir : Node → ℕ → Devfs → Result (Option NodeLink)
readdir node position fs = do
  entries ← ok_or (fs.directories node.node_id)
  ok (get_elem? entries position)

-- The device of a node, if it is one's.
abbrev pub device_of : Node → Devfs → Result ℕ
device_of node fs = elim node.node_type [
  | NodeType.character_device ↦ ok_or (fs.character_devices node.node_id)
  | _ ↦ err
]

module _ {W : Type 0} (devices : CharacterDevices W) where
  unfoldable pub read : Node → ℕ → Devfs → W → Result (List ℕ) × W
  read node count fs w = elim (device_of node fs) [
    | ok device ↦ devices.read device count w
    | err ↦ (err, w)
    | panic ↦ (panic, w)
  ]

  unfoldable pub write : Node → List ℕ → Devfs → W → Result ℕ × W
  write node buf fs w = elim (device_of node fs) [
    | ok device ↦ devices.write device buf w
    | err ↦ (err, w)
    | panic ↦ (panic, w)
  ]
