-- ===== src/Log.antt =====
-- kernel/src/log.rs: what is printed goes to the character device that was set, if there is one.
-- The lines with the time of `println!` are left out.
use pimento.Base.{ℕ, Option, none, some, List, Result, ok, err, panic}
use pimento.Fs.Devfs.{CharacterDevices}

pub record Log : Type 0 where
  pub device : Option ℕ

-- The cell is set once.
unfoldable pub set_character_device : ℕ → Log → Result (Unit {0}) × Log
set_character_device logger log = elim log.device [
  | none ↦ (ok tt, record { device = some logger })
  | some _ ↦ (err, log)
]

module _ {W : Type 0} (devices : CharacterDevices W) where
  -- What the device returns is dropped.
  abbrev pub dropped : Result ℕ × W → Result (Unit {0}) × W
  dropped (ok _, w) = (ok tt, w)
  dropped (err, w) = (ok tt, w)
  dropped (panic, w) = (panic, w)

  unfoldable pub write_str : Log → List ℕ → W → Result (Unit {0}) × W
  write_str log s w = elim log.device [
    | none ↦ (ok tt, w)
    | some logger ↦ dropped (devices.write logger s w)
  ]

  -- `_print` of one string.
  unfoldable pub print : Log → List ℕ → W → Result (Unit {0}) × W
  unfolding write_str
  print log s w = write_str log s w
