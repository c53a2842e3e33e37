-- ===== src/Fs/Mounts/Runs.antt =====
-- A device file system on `/dev`, and the theorems at it.
use pimento.Base.{
  if◌then◌else◌, ◌==◌, ◌≡◌, ◌≢◌, refl, ◌⊎◌, inl, arith, Bool, true, false, none, some, List, [],
  ◌∷◌, ok, err,
}
use pimento.Fs.Node.{Node, directory, is_directory}
use pimento.Fs.Mounts.{
  Handle, Mount, mount, resolve_subtree, rounds, find_subtree, resolve_mount_point,
}
use pimento.Fs.Mounts.Ranked.{Ranked}
use pimento.Fs.Mounts.Subtree.{Resolves, resolve_subtree_lem}
use pimento.Fs.Mounts.Mounting.{Mounted, mount_lem}

abbrev dev : Node
dev = record { file_system = 1; node_id = 1; node_type = directory }

abbrev devfs : Handle
devfs = record { id = 2; root = record { file_system = 2; node_id = 0; node_type = directory } }

abbrev one : List Mount
one = record { mount_point = dev; subtree = devfs } ∷ []

-- Up from `/dev` and down again.
round_trip :
    (resolve_subtree 2 one dev false ≡ some (devfs.root, true))
    × (resolve_mount_point 2
          (λ id. some (record { file_system = id; node_id = 0; node_type = directory }))
          one
          devfs.root
          false
        ≡ some (ok (dev, true)))
unfolding resolve_subtree resolve_mount_point
round_trip = (refl, refl)

abbrev bare : Ranked 1 []
bare = record { rank = λ id. 0; bottom = refl; climbs = tt }

abbrev ranks : Ranked 1 one
ranks = record {
  rank = λ id. if id == 2 then 1 else 0;
  bottom = refl;
  climbs = (
    record {
      attached = inl refl;
      up = omega arith;
      bounded = omega arith;
      mounted = (_, refl);
      own_root = refl;
    },
    tt,
  );
}

resolve_subtree_lem_example :
    (resolved : Node) × (moved : Bool) × (resolve_subtree (rounds one) one dev false
      ≡ some (resolved, moved))
    × Resolves 1 one dev resolved moved
resolve_subtree_lem_example = resolve_subtree_lem 1 one ranks dev

mount_lem_example :
    (resolved : Node) × (moved : Bool) × (resolve_subtree (rounds []) [] dev false
      ≡ some (resolved, moved))
    × (((mount dev devfs [] ≡ some (err, []))
          × ((is_directory resolved.node_type ≡ false) ⊎ (find_subtree 2 [] ≢ none)))
        ⊎ ((is_directory resolved.node_type ≡ true)
            × (find_subtree 2 [] ≡ none)
            × ((mounts' : List Mount) × (mount dev devfs [] ≡ some (ok tt, mounts'))
                × Mounted 1 dev devfs [] mounts')))
mount_lem_example = mount_lem 1 [] bare dev devfs (inl refl) (λ e. ground arith) refl
