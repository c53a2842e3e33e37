-- ===== src/Base/Map.antt =====
-- `BTreeMap` with numbers for keys. The source looks keys up and inserts them, and never walks a
-- map, so a map is the function that its lookups compute.
use Prim.Native.Nat.{ℕ}
use mathlib.Core.Path.{◌≡◌}
use mathlib.Core.Option.{Option, none, some}
use native.Mathlib.Omega.{arith}
use pimento.Base.Tests.{◌==◌, if◌then◌else◌}

module _ {ℓ} where
  abbrev pub Map : Type ℓ → Type ℓ
  Map V = ℕ → Option V

  abbrev pub empty : {V : Type ℓ} → Map V
  empty k = none

  abbrev pub insert : {V : Type ℓ} → ℕ → V → Map V → Map V
  insert k v m j = if j == k then some v else m j

  pub insert_self : {V : Type ℓ} (k : ℕ) (v : V) (m : Map V) → insert k v m k ≡ some v
  insert_self k v m = ground arith
