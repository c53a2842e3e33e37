-- ===== src/Fs/Open/Directories.antt =====
-- Reading an open directory to its end.
use native.Mathlib.Nat.{mod-eq_of_lt}
use pimento.Base.{
  ℕ, zero, suc, ◌+◌, ◌<◌, ◌≡◌, refl, ap, ◌∙◌, arith, Option, none, some, List, [], ◌∷◌, length, ◌∙◌,
  suc, Result, ok, get_elem?, drop, word,
}
use pimento.Fs.Node.{Node, NodeLink}
use pimento.Fs.FileSystem as F
use pimento.Fs.Tmpfs as T
use pimento.Fs.Devfs as D
use pimento.Fs.Open.{FileSystems, Directory, readdir, new_directory}

-- What `n` calls of `readdir` return, one after the other.
abbrev pub read_all : ℕ → Directory → FileSystems → List (Result (Option NodeLink))
read_all zero d live = []
read_all (suc n) d live = (readdir d live).0 ∷ read_all n (readdir d live).1 live

-- The links that a node's file system holds for it.
abbrev pub entries_of : Node → F.FileSystem → Option (List NodeLink)
entries_of node (F.tmpfs fs) = fs.directories node.node_id
entries_of node (F.devfs fs) = fs.directories node.node_id

readdir-entries :
    (node : Node) (position : ℕ) (fs : F.FileSystem) (entries : List NodeLink)
    → entries_of node fs ≡ some entries
    → F.readdir node position fs ≡ ok (get_elem? entries position)
unfolding F.readdir T.readdir D.readdir
readdir-entries node position (F.tmpfs fs) entries e = rw (e, F.readdir, T.readdir)
readdir-entries node position (F.devfs fs) entries e = rw (e, F.readdir, D.readdir)

pub drop-get_elem? :
    (xs : List NodeLink) (i : ℕ) {l : NodeLink}
    → get_elem? xs i ≡ some l
    → drop i xs ≡ l ∷ drop (suc i) xs
drop-get_elem? [] i e = cc
drop-get_elem? (x ∷ xs) zero e = ground arith
drop-get_elem? (x ∷ xs) (suc i) e = drop-get_elem? xs i e

pub drop-past : (xs : List NodeLink) (i : ℕ) → get_elem? xs i ≡ none → drop i xs ≡ []
drop-past [] zero e = refl
drop-past [] (suc i) e = refl
drop-past (x ∷ xs) zero e = cc
drop-past (x ∷ xs) (suc i) e = drop-past xs i e

pub suc_lem : (n : ℕ) → n + 1 ≡ suc n
suc_lem n = omega arith

module _ (node : Node) (live : FileSystems) (fs : F.FileSystem) (entries : List NodeLink)
    (found : live node.file_system ≡ some fs) (holds : entries_of node fs ≡ some entries) where
  abbrev pub at : ℕ → Directory
  at position = record { node = node; position = position }

  pub readdir-at :
      (position : ℕ)
      → position + 1 < word
      → readdir (at position) live ≡ (ok (get_elem? entries position), at (position + 1))
  unfolding readdir
  readdir-at position room =
      rw (found, readdir-entries node position fs entries holds, mod-eq_of_lt room, readdir) refl

  read_all-at :
      (n position i : ℕ)
      → position + n < word
      → i < n
      → get_elem? (read_all n (at position) live) i ≡ some (ok (get_elem? entries (position + i)))
  read_all-at zero position i room below = absurd (omega (arith, below))
  read_all-at (suc n) position zero room below =
      ap (λ step. some (step.0)) (readdir-at position (omega arith))
      ∙ ap (λ (k : ℕ). some (ok (get_elem? entries k))) {x = position} {y = position + 0}
          (omega arith)
  read_all-at (suc n) position (suc i) room below =
      ap (λ step. get_elem? (read_all n (step.1) live) i) (readdir-at position (omega arith))
      ∙ read_all-at n (position + 1) i (omega arith) (omega (arith, below))
      ∙ ap (λ (k : ℕ). some (ok (get_elem? entries k))) {x = position + 1 + i}
          {y = position + suc i} (omega arith)

  length-read_all : (n : ℕ) (d : Directory) → length (read_all n d live) ≡ n
  length-read_all zero d = refl
  length-read_all (suc n) d = ap suc (length-read_all n (readdir d live).1)

  -- The calls of `readdir` on a directory that was just opened, in either file system, all succeed:
  -- call by call they return its links in their order, and nothing from then on.
  pub read_all_lem :
      (n : ℕ)
      → n < word
      → (length (read_all n (new_directory node) live) ≡ n)
        × ((i : ℕ)
            → i < n
            → get_elem? (read_all n (new_directory node) live) i ≡ some (ok (get_elem? entries i)))
  unfolding new_directory
  read_all_lem n room = (
    length-read_all n (at 0),
    λ i below.
        read_all-at n 0 i (omega (arith, room)) below
        ∙ ap (λ (k : ℕ). some (ok (get_elem? entries k))) {x = 0 + i} {y = i} (omega arith),
  )
