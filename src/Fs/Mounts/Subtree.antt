-- ===== src/Fs/Mounts/Subtree.antt =====
-- `resolve_subtree` ends, on top of all that is mounted on a node.
use mathlib.Core.Path.{subst}
use pimento.Base.{
  ℕ, zero, suc, ◌+◌, ◌≤◌, ◌<◌, ◌≡◌, refl, ap, ◌∙◌, inl, inr, arith, Bool, true, false, none, some,
  List, ◌||◌, length, Option-cases, find-All,
}
use pimento.Fs.Node.{FsId, Node, node_eq}
use pimento.Fs.Mounts.{Mount, find_mount_point, find_subtree, resolve_subtree, rounds}
use pimento.Fs.Mounts.Ranked.{Attached, Climbs, Ranked}

-- One node is under another: some mounts lead from the one up to the other.
pub data Under (mounts : List Mount) : Node → Node → Bool → Type 0 where
  here : {node : Node} → Under mounts node node false
  there :
      {node top : Node} {changed : Bool} (m : Mount)
      → find_mount_point node mounts ≡ some m
      → Under mounts m.subtree.root top changed
      → Under mounts node top true

or-true : (b : Bool) → (b || true) ≡ true
or-true true = refl
or-true false = refl

or-false : (b : Bool) → (b || false) ≡ b
or-false true = refl
or-false false = refl

module _ (top : FsId) (mounts : List Mount) (ranked : Ranked top mounts) where
  climb :
      (node : Node) (m : Mount)
      → find_mount_point node mounts ≡ some m
      → (ranked.rank node.file_system < ranked.rank m.subtree.root.file_system)
        × (ranked.rank m.subtree.root.file_system ≤ length mounts)
        × Attached top mounts m.subtree.root.file_system
  climb node m found =
      let (c, same) =
        find-All (λ m. node_eq m.mount_point node) (Climbs top ranked.rank mounts) mounts m found
          ranked.climbs in
      let below : ranked.rank m.subtree.root.file_system ≡ ranked.rank m.subtree.id =
        ap ranked.rank c.own_root in
      let at : ranked.rank node.file_system ≡ ranked.rank m.mount_point.file_system =
        ap ranked.rank (ground arith) in
      (
        omega (arith, c.up),
        omega (arith, c.bounded),
        inr (c.mounted.0, ap (λ id. find_subtree id mounts) c.own_root ∙ c.mounted.1),
      )

-- Where `resolve_subtree` ends: above the node, in an attached file system if it began in one, and
-- where nothing is mounted; `changed` says whether it went up at all.
pub record Resolves (top : FsId) (mounts : List Mount) (node resolved : Node) (moved : Bool)
    : Type 0 where
  pub under : Under mounts node resolved moved
  pub last : find_mount_point resolved mounts ≡ none
  pub stays : Attached top mounts node.file_system → Attached top mounts resolved.file_system

module _ (top : FsId) (mounts : List Mount) (ranked : Ranked top mounts) where
  stay : (node : Node) → find_mount_point node mounts ≡ none → Resolves top mounts node node false
  stay node nothing = record { under = here; last = nothing; stays = λ a. a }

  resolve_subtree-none :
      (fuel : ℕ) (node : Node) (changed : Bool)
      → find_mount_point node mounts ≡ none
      → resolve_subtree (suc fuel) mounts node changed ≡ some (node, changed)
  unfolding resolve_subtree
  resolve_subtree-none fuel node changed nothing = rw (nothing, resolve_subtree)

  resolve_subtree-some :
      (fuel : ℕ) (node : Node) (changed : Bool) {m : Mount}
      → find_mount_point node mounts ≡ some m
      → resolve_subtree (suc fuel) mounts node changed
        ≡ resolve_subtree fuel mounts m.subtree.root true
  unfolding resolve_subtree
  resolve_subtree-some fuel node changed found = rw (found, resolve_subtree)

  resolve-climbs :
      (fuel : ℕ) (node : Node) (changed : Bool)
      → length mounts ≤ fuel + ranked.rank node.file_system
      → (resolved : Node) × (moved : Bool) × (resolve_subtree (suc fuel) mounts node changed
          ≡ some (resolved, moved || changed))
        × Resolves top mounts node resolved moved
  resolve-climbs zero node changed enough = elim (Option-cases (find_mount_point node mounts)) [
    | inl nothing ↦ (node, false, resolve_subtree-none zero node changed nothing, stay node nothing)
    | inr (m, found) ↦ absurd (omega (arith, climb top mounts ranked node m found))
  ]
  resolve-climbs (suc fuel) node changed enough =
      elim (Option-cases (find_mount_point node mounts)) [
        | inl nothing ↦
            (node, false, resolve_subtree-none (suc fuel) node changed nothing, stay node nothing)
        | inr (m, found) ↦
            let (up, bounded, attached) = climb top mounts ranked node m found in
            let (resolved, moved, e, r) = resolve-climbs fuel m.subtree.root true (omega arith) in
            (
              resolved,
              true,
              resolve_subtree-some (suc fuel) node changed found
                  ∙ e
                  ∙ ap (λ c. some (resolved, c)) (or-true moved),
              record {
                under = there m found r.under;
                last = r.last;
                stays = λ a. r.stays attached;
              },
            )
      ]

-- Over mounts that the walks climb (each mount point is attached, and ranks below what is mounted
-- on it), `resolve_subtree` ends for any node, with fuel for one round more than there are mounts.
-- It ends above the node, where nothing is mounted, and says whether it moved; from an attached
-- file system it stays in attached ones.
pub resolve_subtree_lem :
    (top : FsId) (mounts : List Mount)
    → Ranked top mounts
    → (node : Node)
    → (resolved : Node) × (moved : Bool) × (resolve_subtree (rounds mounts) mounts node false
        ≡ some (resolved, moved))
      × Resolves top mounts node resolved moved
resolve_subtree_lem top mounts ranked node =
    let (resolved, moved, e, r) =
      resolve-climbs top mounts ranked (length mounts) node false (omega arith) in
    (resolved, moved, e ∙ ap (λ c. some (resolved, c)) (or-false moved), r)

-- There is one such end.
module _ (mounts : List Mount) where
  Under-unique :
      {node a b : Node} {c d : Bool}
      → Under mounts node a c
      → find_mount_point a mounts ≡ none
      → Under mounts node b d
      → find_mount_point b mounts ≡ none
      → (a ≡ b) × (c ≡ d)
  Under-unique here last here last' = (refl, refl)
  Under-unique here last (there m found u) last' = ground (arith, found, last)
  Under-unique (there m found u) last here last' = ground (arith, found, last')
  Under-unique {a = a} (there {changed = changed} m found u) last (there m' found' u') last' =
      let u'' : Under mounts m'.subtree.root a changed =
        subst (λ (x : Mount). Under mounts x.subtree.root a changed) {x = m} {y = m'} (ground arith)
          u in
      let (same, _) = Under-unique u'' last u' last' in (same, refl)

pub resolve_subtree-Under :
    (top : FsId) (mounts : List Mount)
    → Ranked top mounts
    → {node a : Node} {moved : Bool} → Under mounts node a moved
    → find_mount_point a mounts ≡ none
    → resolve_subtree (rounds mounts) mounts node false ≡ some (a, moved)
resolve_subtree-Under top mounts ranked {node = node} u last =
    let (resolved, moved', e, r) = resolve_subtree_lem top mounts ranked node in
    let (same, same') = Under-unique mounts r.under r.last u last in e ∙ cc
