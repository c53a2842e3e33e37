-- ===== src/Fs/Tmpfs/Invariant.antt =====
-- The invariant of the two maps of kernel/src/fs/tmpfs.rs, and that each operation keeps it.
use native.Mathlib.Nat.{mod-eq_of_lt}
use mathlib.Core.Path.{subst}
use pimento.Base.{
  ℕ, ◌+◌, ◌≤◌, ◌<◌, ◌≡◌, ap, ◌∙◌, inl, inr, arith, Option, none, some, List, [], ◌∷◌, ◌++◌, ◌==◌,
  word, Bool-cases, ==→≡, leb, not_leb, leb→le,
}
use pimento.Fs.Name.{Name}
use pimento.Fs.Node.{Node, NodeLink, NodeType, character_device, directory, file}
use pimento.Fs.Tmpfs.{Tmpfs, new}
use pimento.Fs.Tmpfs.Directories.{MadeDirectory, MadeFile}

-- The node's number is in the map that its type names.
abbrev pub Present : Tmpfs → NodeType → ℕ → Type 0
Present fs directory id = (entries : List NodeLink) × (fs.directories id ≡ some entries)
Present fs file id = (bytes : List ℕ) × (fs.files id ≡ some bytes)
Present fs character_device id = ⊥

abbrev pub AllPresent : Tmpfs → List NodeLink → Type 0
AllPresent fs [] = Unit
AllPresent fs (l ∷ ls) = Present fs l.node.node_type l.node.node_id × AllPresent fs ls

abbrev pub LinksPresent : Tmpfs → Option (List NodeLink) → Type 0
LinksPresent fs none = Unit
LinksPresent fs (some ls) = AllPresent fs ls

-- Numbers from the counter on are free, and every link leads to a node of its type.
pub record IsValid (fs : Tmpfs) : Type 0 where
  pub directories_below : (id : ℕ) → fs.node_counter ≤ id → fs.directories id ≡ none
  pub files_below : (id : ℕ) → fs.node_counter ≤ id → fs.files id ≡ none
  pub links : (id : ℕ) → LinksPresent fs (fs.directories id)

-- Every node that is there stays there.
abbrev pub Keeps : Tmpfs → Tmpfs → Type 0
Keeps fs fs' = (type : NodeType) (id : ℕ) → Present fs type id → Present fs' type id

pub Keeps-maps :
    (fs fs' : Tmpfs)
    → ((id : ℕ) (entries : List NodeLink)
        → fs.directories id ≡ some entries
        → Present fs' directory id)
    → ((id : ℕ) (bytes : List ℕ) → fs.files id ≡ some bytes → Present fs' file id)
    → Keeps fs fs'
Keeps-maps fs fs' d f directory id (entries, e) = d id entries e
Keeps-maps fs fs' d f file id (bytes, e) = f id bytes e
Keeps-maps fs fs' d f character_device id h = h

module _ (fs fs' : Tmpfs) (k : Keeps fs fs') where
  AllPresent-Keeps : (ls : List NodeLink) → AllPresent fs ls → AllPresent fs' ls
  AllPresent-Keeps [] all = tt
  AllPresent-Keeps (l ∷ ls) (p, all) =
      (k l.node.node_type l.node.node_id p, AllPresent-Keeps ls all)

  pub LinksPresent-Keeps : (o : Option (List NodeLink)) → LinksPresent fs o → LinksPresent fs' o
  LinksPresent-Keeps none all = tt
  LinksPresent-Keeps (some ls) all = AllPresent-Keeps ls all

AllPresent-append :
    (fs : Tmpfs) (xs ys : List NodeLink)
    → AllPresent fs xs
    → AllPresent fs ys
    → AllPresent fs (xs ++ ys)
AllPresent-append fs [] ys all more = more
AllPresent-append fs (x ∷ xs) ys (p, all) more = (p, AllPresent-append fs xs ys all more)

below :
    (dir : Node) (entries : List NodeLink) (fs : Tmpfs)
    → IsValid fs
    → fs.directories dir.node_id ≡ some entries
    → dir.node_id < fs.node_counter
below dir entries fs valid found = elim (Bool-cases (leb fs.node_counter dir.node_id)) [
  | inl from ↦ ground (arith, valid.directories_below dir.node_id (leb→le _ _ from))
  | inr h ↦ not_leb _ _ h
]

module _ (dir : Node) (name : Name) (entries : List NodeLink) (fs fs' : Tmpfs) (valid : IsValid fs)
    (room : fs.node_counter + 1 < word) (found : fs.directories dir.node_id ≡ some entries) where
  entries-AllPresent : AllPresent fs entries
  entries-AllPresent = subst (LinksPresent fs) found (valid.links dir.node_id)

  MadeDirectory-Keeps : MadeDirectory dir name entries fs fs' → Keeps fs fs'
  MadeDirectory-Keeps m character_device id h = h
  MadeDirectory-Keeps m file id (bytes, e) = (bytes, ap (λ f. f id) m.files ∙ e)
  MadeDirectory-Keeps m directory id (es, e) = elim (Bool-cases (id == dir.node_id)) [
    | inl here ↦ (_, ap fs'.directories (==→≡ id dir.node_id here) ∙ m.linked)
    | inr away ↦ (es, m.others id (ground arith) (ground (arith, valid.directories_below id)) ∙ e)
  ]

  pub MadeDirectory-IsValid :
      dir.node_type ≡ directory → MadeDirectory dir name entries fs fs' → IsValid fs'
  MadeDirectory-IsValid type m =
      let k : Keeps fs fs' = MadeDirectory-Keeps m in
      let counted : fs'.node_counter ≡ fs.node_counter + 1 = m.counted ∙ mod-eq_of_lt room in
      let low : dir.node_id < fs.node_counter = below dir entries fs valid found in
      let child : Present fs' directory fs.node_counter = (_, m.made) in
      let up : Present fs' dir.node_type dir.node_id = rw type (_, m.linked) in
      let old : AllPresent fs' entries = AllPresent-Keeps fs fs' k entries entries-AllPresent in
      record {
        directories_below = λ id from.
            m.others id (ground arith) (ground arith) ∙ valid.directories_below id (omega arith);
        files_below = λ id from. ap (λ f. f id) m.files ∙ valid.files_below id (omega arith);
        links = λ id. elim (Bool-cases (id == dir.node_id)) [
          | inl here ↦ rw (ap fs'.directories (==→≡ id dir.node_id here) ∙ m.linked) (
              AllPresent-append fs' (entries ++ _) _
                (AllPresent-append fs' entries _ old (child, tt)) (child, tt))
          | inr away ↦ elim (Bool-cases (id == fs.node_counter)) [
            | inl new ↦
                rw (ap fs'.directories (==→≡ id fs.node_counter new) ∙ m.made) (child, (up, tt))
            | inr past ↦
                rw (m.others id (ground arith) (ground arith))
                  (LinksPresent-Keeps fs fs' k _ (valid.links id))
          ]
        ];
      }

  MadeFile-Keeps : MadeFile dir name entries fs fs' → Keeps fs fs'
  MadeFile-Keeps m character_device id h = h
  MadeFile-Keeps m file id (bytes, e) =
      (bytes, m.other_files id (ground (arith, valid.files_below id)) ∙ e)
  MadeFile-Keeps m directory id (es, e) = elim (Bool-cases (id == dir.node_id)) [
    | inl here ↦ (_, ap fs'.directories (==→≡ id dir.node_id here) ∙ m.linked)
    | inr away ↦ (es, m.others id (ground arith) ∙ e)
  ]

  pub MadeFile-IsValid : MadeFile dir name entries fs fs' → IsValid fs'
  MadeFile-IsValid m =
      let k : Keeps fs fs' = MadeFile-Keeps m in
      let counted : fs'.node_counter ≡ fs.node_counter + 1 = m.counted ∙ mod-eq_of_lt room in
      let low : dir.node_id < fs.node_counter = below dir entries fs valid found in
      record {
        directories_below =
            λ id from. m.others id (ground arith) ∙ valid.directories_below id (omega arith);
        files_below =
            λ id from. m.other_files id (ground arith) ∙ valid.files_below id (omega arith);
        links = λ id. elim (Bool-cases (id == dir.node_id)) [
          | inl here ↦ rw (ap fs'.directories (==→≡ id dir.node_id here) ∙ m.linked) (
              AllPresent-append fs' entries _ (AllPresent-Keeps fs fs' k entries entries-AllPresent)
                ((_, m.made), tt))
          | inr away ↦
              rw (m.others id (ground arith)) (LinksPresent-Keeps fs fs' k _ (valid.links id))
        ];
      }
