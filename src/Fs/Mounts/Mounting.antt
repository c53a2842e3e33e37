-- ===== src/Fs/Mounts/Mounting.antt =====
-- `mount` on every branch.
use pimento.Base.{
  ℕ, ◌+◌, ◌≤◌, ◌≡◌, ◌≢◌, sym, ap, ◌∙◌, ◌⊎◌, inl, inr, arith, Bool, true, false, none, some, List,
  [], ◌∷◌, ◌++◌, ok, err, if◌then◌else◌, ◌==◌, length, length-append, Bool-cases, Option-cases,
  ==→≡, All-map, All-push, find-All, find-push_some, find-push_none,
}
use pimento.Fs.Node.{FsId, Node, node_eq, is_directory}
use pimento.Fs.Mounts.{
  Handle, Mount, find_mount_point, find_subtree, resolve_subtree, rounds, mount, push_mount,
}
use pimento.Fs.Mounts.Ranked.{Attached, Climbs, Ranked}
use pimento.Fs.Mounts.Subtree.{
  Under, here, there, Resolves, resolve_subtree_lem, resolve_subtree-Under,
}

module _ (top : FsId) (mounts : List Mount) (ranked : Ranked top mounts) (at : Node)
    (subtree : Handle) (attached : Attached top mounts at.file_system)
    (fresh : find_subtree subtree.id mounts ≡ none) (other : subtree.id ≢ top)
    (own : subtree.root.file_system ≡ subtree.id) where
  abbrev new_mount : Mount
  new_mount = record { mount_point = at; subtree = subtree }

  abbrev pushed : List Mount
  pushed = mounts ++ (new_mount ∷ [])

  abbrev new_rank : FsId → ℕ
  new_rank id = if id == subtree.id then length mounts + 1 else ranked.rank id

  Attached-apart : (id : FsId) → Attached top mounts id → id ≢ subtree.id
  Attached-apart id (inl e) same = other (sym same ∙ e)
  Attached-apart id (inr (m, found)) same = ground (arith, ap (λ id. find_subtree id mounts) same)

  Attached-pushed : (id : FsId) → Attached top mounts id → Attached top pushed id
  Attached-pushed id (inl e) = inl e
  Attached-pushed id (inr (m, found)) = inr (m, find-push_some _ mounts new_mount m found)

  rank-Attached : (id : FsId) → Attached top mounts id → ranked.rank id ≤ length mounts
  rank-Attached id (inl e) = omega (arith, ranked.bottom, ap ranked.rank e)
  rank-Attached id (inr (m, found)) =
      let (c, same) =
        find-All (λ m. m.subtree.id == id) (Climbs top ranked.rank mounts) mounts m found
          ranked.climbs in
      omega (arith, c.bounded, ap ranked.rank (==→≡ m.subtree.id id same))

  new_rank-Attached : (id : FsId) → Attached top mounts id → new_rank id ≡ ranked.rank id
  new_rank-Attached id a = ground (arith, Attached-apart id a)

  length-pushed : length pushed ≡ length mounts + 1
  length-pushed = length-append mounts (new_mount ∷ [])

  Climbs-pushed : (m : Mount) → Climbs top ranked.rank mounts m → Climbs top new_rank pushed m
  Climbs-pushed m c =
      let upper = new_rank-Attached m.subtree.id (inr c.mounted) in
      record {
        attached = Attached-pushed m.mount_point.file_system c.attached;
        up = rw (new_rank-Attached m.mount_point.file_system c.attached, upper) c.up;
        bounded = rw upper (omega (arith, c.bounded, length-pushed));
        mounted = (c.mounted.0, find-push_some _ mounts new_mount _ (c.mounted.1));
        own_root = c.own_root;
      }

  Climbs-new : Climbs top new_rank pushed new_mount
  Climbs-new = record {
    attached = Attached-pushed at.file_system attached;
    up =
        rw (new_rank-Attached at.file_system attached)
          (ground (arith, rank-Attached at.file_system attached));
    bounded = ground (arith, length-pushed);
    mounted = (new_mount, find-push_none _ mounts new_mount fresh (ground arith));
    own_root = own;
  }

  pub pushed-Ranked : Ranked top pushed
  pushed-Ranked = record {
    rank = new_rank;
    bottom = ground (arith, ranked.bottom);
    climbs =
        All-push (Climbs top new_rank pushed) mounts new_mount
          (All-map Climbs-pushed mounts ranked.climbs) Climbs-new;
  }

  -- Nothing is mounted in the subtree yet.
  pub subtree-last : find_mount_point subtree.root pushed ≡ none
  subtree-last = elim (Option-cases (find_mount_point subtree.root pushed)) [
    | inl nothing ↦ nothing
    | inr (m, found) ↦
        let (c, same) =
          find-All (λ m. node_eq m.mount_point subtree.root)
            (λ m. Attached top mounts m.mount_point.file_system) pushed m found
            (All-push _ mounts new_mount (All-map (λ m c. c.attached) mounts ranked.climbs)
              attached) in
        absurd (Attached-apart m.mount_point.file_system c (ground arith))
  ]

  pub Under-pushed :
      {node : Node} {moved : Bool}
      → Under mounts node at moved
      → find_mount_point at mounts ≡ none
      → Under pushed node subtree.root true
  Under-pushed here last =
      there new_mount (find-push_none _ mounts new_mount last (ground arith)) here
  Under-pushed (there m found u) last =
      there m (find-push_some _ mounts new_mount m found) (Under-pushed u last)

-- What a successful `mount` leaves.
pub record Mounted (top : FsId) (node : Node) (subtree : Handle) (mounts mounts' : List Mount)
    : Type 0 where
  pub ranked : Ranked top mounts'
  pub attached : Attached top mounts' subtree.id
  pub resolves : resolve_subtree (rounds mounts') mounts' node false ≡ some (subtree.root, true)

mounted :
    (top : FsId) (mounts : List Mount) (ranked : Ranked top mounts) (at : Node) (subtree : Handle)
    → Attached top mounts at.file_system
    → find_subtree subtree.id mounts ≡ none
    → subtree.id ≢ top
    → subtree.root.file_system ≡ subtree.id
    → {node : Node} {moved : Bool} → Resolves top mounts node at moved
    → Mounted top node subtree mounts
        (mounts ++ (record { mount_point = at; subtree = subtree } ∷ []))
mounted top mounts ranked at subtree attached fresh other own r =
    let ranked' = pushed-Ranked top mounts ranked at subtree attached fresh other own in
    record {
      ranked = ranked';
      attached = inr (_, find-push_none _ mounts _ fresh (ground arith));
      resolves =
          resolve_subtree-Under top _ ranked'
            (Under-pushed top mounts ranked at subtree attached fresh other own r.under r.last)
            (subtree-last top mounts ranked at subtree attached fresh other own);
    }

module _ (top : FsId) (mounts : List Mount) (ranked : Ranked top mounts) (node : Node)
    (subtree : Handle) (attached : Attached top mounts node.file_system) (other : subtree.id ≢ top)
    (own : subtree.root.file_system ≡ subtree.id) where
  mount-push :
      (resolved : Node) (moved : Bool)
      → resolve_subtree (rounds mounts) mounts node false ≡ some (resolved, moved)
      → mount node subtree mounts ≡ some (push_mount resolved subtree mounts)
  unfolding mount
  mount-push resolved moved e = rw (e, mount)

  -- `mount`, over mounts that the walks climb, on a node of an attached file system, of one that is
  -- not the root file system and whose root is its own node. It returns. If what is on top of the
  -- node is no directory, or the file system is mounted already, it is an error that changes
  -- nothing. Otherwise it succeeds, the file system is attached, the node resolves to its root, and
  -- the walks still climb.
  pub mount_lem :
      (resolved : Node) × (moved : Bool) × (resolve_subtree (rounds mounts) mounts node false
        ≡ some (resolved, moved))
      × (((mount node subtree mounts ≡ some (err, mounts))
            × ((is_directory resolved.node_type ≡ false) ⊎ (find_subtree subtree.id mounts ≢ none)))
          ⊎ ((is_directory resolved.node_type ≡ true)
              × (find_subtree subtree.id mounts ≡ none)
              × ((mounts' : List Mount) × (mount node subtree mounts ≡ some (ok tt, mounts'))
                  × Mounted top node subtree mounts mounts')))
  unfolding push_mount
  mount_lem =
      let (resolved, moved, e, r) = resolve_subtree_lem top mounts ranked node in
      let at = r.stays attached in
      (
        resolved,
        moved,
        e,
        elim (Bool-cases (is_directory resolved.node_type)) [
          | inr file ↦ inl (mount-push resolved moved e ∙ ap some (rw (file, push_mount)), inl file)
          | inl dir ↦ elim (Option-cases (find_subtree subtree.id mounts)) [
            | inr (m, found) ↦ inl (
              mount-push resolved moved e ∙ ap some (rw (dir, found, push_mount)),
              inr (λ nothing. ground arith),
            )
            | inl fresh ↦ inr (
              dir,
              fresh,
              (
                _,
                mount-push resolved moved e ∙ ap some (rw (dir, fresh, push_mount)),
                mounted top mounts ranked resolved subtree at fresh other own r,
              ),
            )
          ]
        ],
      )
