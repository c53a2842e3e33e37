-- ===== src/Fs/VirtualFileSystem/Changes.antt =====
-- The calls that change a directory, on every branch.
use pimento.Base.{
  ◌≡◌, ◌≢◌, refl, ap, ◌∙◌, ◌⊎◌, inl, inr, arith, Bool, true, false, ◌||◌, Option, none, some,
  Result, err, Bool-cases, Option-cases,
}
use pimento.Base.Map.{insert, insert_self}
use pimento.Fs.Name.{Name, name_eq, name_eq_iff, current, parent}
use pimento.Fs.Node.{FsId, Node, is_directory}
use pimento.Fs.FileSystem.{FileSystem, Change}
use pimento.Fs.FileSystem as F
use pimento.Fs.Mounts.{resolve_subtree, rounds}
use pimento.Fs.Mounts.Ranked.{Ranked}
use pimento.Fs.Mounts.Subtree.{Resolves, resolve_subtree_lem}
use pimento.Fs.VirtualFileSystem.{
  VirtualFileSystem, change_at, call_at, mkdir, rmdir, mknod, unlink,
}

-- Why a call is turned down before it reaches a file system.
abbrev pub TurnedDown : Node → Name → VirtualFileSystem → Type 0
TurnedDown resolved name v =
    (is_directory resolved.node_type ≡ false)
    ⊎ (((name ≡ current) ⊎ (name ≡ parent)) ⊎ (v.file_systems resolved.file_system ≡ none))

-- The call is not turned down, and is the file system's own: its result, its new state, and nothing
-- else.
pub record Passed (change : Change) (resolved : Node) (name : Name) (v v' : VirtualFileSystem)
    (r : Result (Unit {0})) : Type 0 where
  pub folder : is_directory resolved.node_type ≡ true
  pub plain : (name ≢ current) × (name ≢ parent)
  pub before : FileSystem
  pub found : v.file_systems resolved.file_system ≡ some before
  pub result : r ≡ (change resolved name before).0
  pub after : v'.file_systems resolved.file_system ≡ some (change resolved name before).1
  pub others : (id : FsId) → id ≢ resolved.file_system → v'.file_systems id ≡ v.file_systems id
  pub mounts : v'.mounts ≡ v.mounts

module _ (change : Change) (dir : Node) (name : Name) (v : VirtualFileSystem) where
  special : name_eq name current || name_eq name parent ≡ true → (name ≡ current) ⊎ (name ≡ parent)
  special h = elim (Bool-cases (name_eq name current)) [
    | inl c ↦ inl ((name_eq_iff name current).0 c)
    | inr n ↦ inr ((name_eq_iff name parent).0 (ground arith))
  ]

  plain_name :
      name_eq name current || name_eq name parent ≡ false → (name ≢ current) × (name ≢ parent)
  plain_name h = (
    λ e. ground (arith, h, (name_eq_iff name current).1 e),
    λ e. ground (arith, h, (name_eq_iff name parent).1 e),
  )

  change_at-resolved :
      (resolved : Node) (moved : Bool)
      → resolve_subtree (rounds v.mounts) v.mounts dir false ≡ some (resolved, moved)
      → change_at change dir name v ≡ some (call_at change resolved name v)
  unfolding change_at
  change_at-resolved resolved moved e = rw (e, change_at)

  call_at_lem :
      ((call_at change dir name v ≡ (err, v)) × TurnedDown dir name v)
      ⊎ ((r : Result (Unit {0})) × (v' : VirtualFileSystem) × (call_at change dir name v ≡ (r, v'))
          × Passed change dir name v v' r)
  call_at_lem = elim (Bool-cases (is_directory dir.node_type)) [
    | inr file ↦ inl (rw (file, call_at), inl file)
    | inl folder ↦ elim (Bool-cases (name_eq name current || name_eq name parent)) [
      | inl dots ↦ inl (rw (folder, dots, call_at), inr (inl (special dots)))
      | inr plain ↦ elim (Option-cases (v.file_systems dir.file_system)) [
        | inl gone ↦ inl (rw (folder, plain, gone, call_at), inr (inr gone))
        | inr (fs, found) ↦ inr (
          (change dir name fs).0,
          record v { file_systems = insert dir.file_system (change dir name fs).1 v.file_systems },
          rw (folder, plain, found, call_at) refl,
          record {
            folder = folder;
            plain = plain_name plain;
            before = fs;
            found = found;
            result = refl;
            after = insert_self dir.file_system _ v.file_systems;
            others = λ id apart. ground arith;
            mounts = refl;
          },
        )
      ]
    ]
  ]

-- A call over mounts that the walks climb: it returns, and it is turned down, or passed on to the
-- file system on top of the node.
abbrev pub Answers :
    (Node → Name → VirtualFileSystem → Option (Result (Unit {0}) × VirtualFileSystem))
    → Change
    → Node
    → Name
    → VirtualFileSystem
    → FsId
    → Type 0
Answers call change dir name v top =
    (resolved : Node) × (moved : Bool) × Resolves top v.mounts dir resolved moved
    × (((call dir name v ≡ some (err, v)) × TurnedDown resolved name v)
        ⊎ ((r : Result (Unit {0})) × (v' : VirtualFileSystem) × (call dir name v ≡ some (r, v'))
            × Passed change resolved name v v' r))

change_at_lem :
    (change : Change) (dir : Node) (name : Name) (v : VirtualFileSystem) (top : FsId)
    → Ranked top v.mounts
    → Answers (change_at change) change dir name v top
change_at_lem change dir name v top ranked =
    let (resolved, moved, e, way) = resolve_subtree_lem top v.mounts ranked dir in
    let on_top : change_at change dir name v ≡ some (call_at change resolved name v) =
      change_at-resolved change dir name v resolved moved e in
    (
      resolved,
      moved,
      way,
      elim (call_at_lem change resolved name v) [
        | inl (refused, why) ↦ inl (on_top ∙ ap some refused, why)
        | inr (r, v', e', passed) ↦ inr (r, v', on_top ∙ ap some e', passed)
      ],
    )

-- The four calls that change a directory, over mounts that the walks climb. Each returns. It is an
-- error that changes nothing exactly when what is on top of the node is no directory, when the name
-- is `.` or `..`, or when the file system is gone. Otherwise it is a call of the file system on top
-- of the node, with its result and the state that it leaves, and no other file system and no mount
-- is different. That call is the one of the same name, except that `unlink` calls `rmdir`.
pub changes_lem :
    (dir : Node) (name : Name) (v : VirtualFileSystem) (top : FsId)
    → Ranked top v.mounts
    → Answers mkdir F.mkdir dir name v top
      × Answers rmdir F.rmdir dir name v top
      × Answers mknod F.mknod dir name v top
      × Answers unlink F.rmdir dir name v top
unfolding mkdir rmdir mknod unlink
changes_lem dir name v top ranked = (
  change_at_lem F.mkdir dir name v top ranked,
  change_at_lem F.rmdir dir name v top ranked,
  change_at_lem F.mknod dir name v top ranked,
  change_at_lem F.rmdir dir name v top ranked,
)
