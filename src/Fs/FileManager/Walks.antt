-- ===== src/Fs/FileManager/Walks.antt =====
-- The search for a name in a directory.
use pimento.Base.{
  ℕ, zero, suc, ◌+◌, ◌≤◌, ◌<◌, ◌≡◌, refl, sym, ap, ◌∙◌, inl, inr, arith, Bool, true, false, Option,
  none, some, List, ◌∷◌, Result, ok, err, if◌then◌else◌, Option-cases, Bool-cases, find, drop,
  get_elem?, length, word, get_elem?-lt,
}
use pimento.Fs.Name.{Name, name_eq}
use pimento.Fs.Node.{FsId, Node, NodeLink, is_directory}
use pimento.Fs.FileSystem as F
use pimento.Fs.Tmpfs as T
use pimento.Fs.Devfs as D
use pimento.Fs.Open.{FileSystems, readdir, new_directory}
use pimento.Fs.Open.Directories.{entries_of, at, readdir-at, drop-get_elem?, drop-past, suc_lem}
use pimento.Fs.Mounts.{resolve_subtree, rounds}
use pimento.Fs.Mounts.Ranked.{Ranked}
use pimento.Fs.Mounts.Subtree.{Resolves, resolve_subtree_lem}
use pimento.Fs.VirtualFileSystem.{VirtualFileSystem, opendir}
use pimento.Fs.FileManager.{PathToken, to_str, scan, step, answer}

-- The node of the first link with a name, an error if none has it.
abbrev pub lookup : Name → List NodeLink → Result Node
lookup target entries = elim (find (λ (l : NodeLink). name_eq l.name target) entries) [
  | none ↦ err
  | some l ↦ ok l.node
]

module _ (target : Name) (l : NodeLink) (ls : List NodeLink) where
  lookup-here : name_eq l.name target ≡ true → lookup target (l ∷ ls) ≡ ok l.node
  lookup-here same = rw (same, lookup, find) refl

  lookup-there : name_eq l.name target ≡ false → lookup target (l ∷ ls) ≡ lookup target ls
  lookup-there other = rw (other, lookup, find) refl

module _ (node : Node) (live : FileSystems) (fs : F.FileSystem) (entries : List NodeLink)
    (found : live node.file_system ≡ some fs) (holds : entries_of node fs ≡ some entries)
    (target : Name) where
  scan-at :
      (fuel position : ℕ)
      → position ≤ length entries
      → length entries < fuel + position
      → fuel + position < word
      → scan fuel target (at node live fs entries found holds position) live
        ≡ some (lookup target (drop position entries))
  unfolding scan
  scan-at zero position within enough room = absurd (omega arith)
  scan-at (suc fuel) position within enough room =
      ap (λ r. answer target (r.0) (scan fuel target (r.1) live))
        (readdir-at node live fs entries found holds position (omega arith))
      ∙ elim (Option-cases (get_elem? entries position)) [
        | inl past ↦ rw (past, drop-past entries position past, answer) refl
        | inr (l, here) ↦
            rw (here, drop-get_elem? entries position here, answer)
              (elim (Bool-cases (name_eq l.name target)) [
                | inl same ↦
                    rw same
                      (ap some (sym (lookup-here target l (drop (suc position) entries) same)))
                | inr other ↦ rw other (
                    scan-at fuel (position + 1) (omega (arith, get_elem?-lt entries position here))
                      (omega arith) (omega arith)
                    ∙ ap (λ i. some (lookup target (drop i entries))) (suc_lem position)
                    ∙ ap some (sym (lookup-there target l (drop (suc position) entries) other)))
              ])
      ]

  scan-new :
      (size : ℕ)
      → length entries ≤ size
      → size + 1 < word
      → scan (suc size) target (new_directory node) live ≡ some (lookup target entries)
  unfolding new_directory
  scan-new size enough room = scan-at (suc size) 0 (omega arith) (omega arith) (omega arith)

opendir-folder :
    (v : VirtualFileSystem) (node resolved : Node) (moved : Bool) (fs : F.FileSystem)
    → resolve_subtree (rounds v.mounts) v.mounts node false ≡ some (resolved, moved)
    → is_directory resolved.node_type ≡ true
    → v.file_systems resolved.file_system ≡ some fs
    → opendir node v ≡ some (ok (new_directory resolved))
unfolding opendir
opendir-folder v node resolved moved fs e folder found = rw (e, folder, found, opendir) refl

opendir-other :
    (v : VirtualFileSystem) (node resolved : Node) (moved : Bool)
    → resolve_subtree (rounds v.mounts) v.mounts node false ≡ some (resolved, moved)
    → is_directory resolved.node_type ≡ false
    → opendir node v ≡ some err
unfolding opendir
opendir-other v node resolved moved e file = rw (e, file, opendir) refl

opendir-gone :
    (v : VirtualFileSystem) (node resolved : Node) (moved : Bool)
    → resolve_subtree (rounds v.mounts) v.mounts node false ≡ some (resolved, moved)
    → is_directory resolved.node_type ≡ true
    → v.file_systems resolved.file_system ≡ none
    → opendir node v ≡ some err
unfolding opendir
opendir-gone v node resolved moved e folder gone = rw (e, folder, gone, opendir) refl

scan-missing :
    (node : Node) (live : FileSystems) (fs : F.FileSystem) (target : Name) (size : ℕ)
    → live node.file_system ≡ some fs
    → entries_of node fs ≡ none
    → scan (suc size) target (new_directory node) live ≡ some err
unfolding scan new_directory readdir F.readdir T.readdir D.readdir
scan-missing node live (F.tmpfs fs) target size found missing =
    rw (found, missing, scan, readdir, F.readdir, T.readdir) refl
scan-missing node live (F.devfs fs) target size found missing =
    rw (found, missing, scan, readdir, F.readdir, D.readdir) refl

-- What a token leads to from a node with nothing mounted on it.
abbrev pub lookup_in : Option (List NodeLink) → Name → Result Node
lookup_in none target = err
lookup_in (some entries) target = lookup target entries

abbrev pub lookup_at : Option F.FileSystem → Node → Name → Result Node
lookup_at none node target = err
lookup_at (some fs) node target =
    if is_directory node.node_type then lookup_in (entries_of node fs) target else err

lookup_at-folder :
    {o : Option F.FileSystem} (fs : F.FileSystem) (node : Node) (target : Name)
    → o ≡ some fs
    → is_directory node.node_type ≡ true
    → lookup_at o node target ≡ lookup_in (entries_of node fs) target
lookup_at-folder fs node target found folder = rw (found, lookup_at, folder) refl

-- No directory holds more than `size` links.
abbrev pub AtMost : ℕ → FileSystems → Type 0
AtMost size live =
    (node : Node) (fs : F.FileSystem) (entries : List NodeLink)
    → live node.file_system ≡ some fs
    → entries_of node fs ≡ some entries
    → length entries ≤ size

step-folder :
    (v : VirtualFileSystem) (node resolved : Node) (moved : Bool) (token : PathToken) (size : ℕ)
    → AtMost size v.file_systems
    → size + 1 < word
    → resolve_subtree (rounds v.mounts) v.mounts node false ≡ some (resolved, moved)
    → is_directory resolved.node_type ≡ true
    → (fs : F.FileSystem) → v.file_systems resolved.file_system ≡ some fs
    → step size token v node ≡ some (lookup_in (entries_of resolved fs) (to_str token))
unfolding step
step-folder v node resolved moved token size small room e folder fs found =
    rw (opendir-folder v node resolved moved fs e folder found, step)
      (elim (Option-cases (entries_of resolved fs)) [
        | inl missing ↦
            rw (missing, lookup_in)
              (scan-missing resolved v.file_systems fs (to_str token) size found missing)
        | inr (entries, holds) ↦
            rw (holds, lookup_in)
              (scan-new resolved v.file_systems fs entries found holds (to_str token) size
                (small resolved fs entries found holds) room)
      ])

-- One token of a walk, over mounts that the walks climb, with fuel for the largest directory. It
-- returns what a lookup by name says of the node on top of the given one: the node of the first
-- link of the directory that has the token's name, and an error if there is none, if that node is
-- no directory, or if its file system or its links are gone.
pub step_lem :
    (v : VirtualFileSystem) (top : FsId) (node : Node) (token : PathToken) (size : ℕ)
    → Ranked top v.mounts
    → AtMost size v.file_systems
    → size + 1 < word
    → (resolved : Node) × (moved : Bool) × Resolves top v.mounts node resolved moved
      × (step size token v node
          ≡ some (lookup_at (v.file_systems resolved.file_system) resolved (to_str token)))
unfolding step
step_lem v top node token size ranked small room =
    let (resolved, moved, e, way) = resolve_subtree_lem top v.mounts ranked node in
    (
      resolved,
      moved,
      way,
      elim (Bool-cases (is_directory resolved.node_type)) [
        | inr file ↦ elim (Option-cases (v.file_systems resolved.file_system)) [
          | inl gone ↦ rw (opendir-other v node resolved moved e file, step, gone, lookup_at) refl
          | inr (fs, found) ↦
              rw (opendir-other v node resolved moved e file, step, found, lookup_at, file) refl
        ]
        | inl folder ↦ elim (Option-cases (v.file_systems resolved.file_system)) [
          | inl gone ↦
              rw (opendir-gone v node resolved moved e folder gone, step, gone, lookup_at) refl
          | inr (fs, found) ↦
              step-folder v node resolved moved token size small room e folder fs found
              ∙ ap some (sym (lookup_at-folder fs resolved (to_str token) found folder))
        ]
      ],
    )
