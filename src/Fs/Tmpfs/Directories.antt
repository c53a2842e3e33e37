-- ===== src/Fs/Tmpfs/Directories.antt =====
-- What `mkdir` and `mknod` do to the directories, on every branch, and the invariant that they
-- keep.
use pimento.Base.{
  ℕ, ◌+◌, ◌%◌, ◌≡◌, ◌≢◌, refl, ap, ◌∙◌, ◌⊎◌, inl, inr, arith, none, some, List, [], ◌∷◌, ◌++◌, ok,
  err, word, Option-cases,
}
use pimento.Base.Map.{Map, insert, insert_self}
use pimento.Fs.Name.{Name, current, parent}
use pimento.Fs.Node.{Node, NodeLink, NodeType, directory, file}
use pimento.Fs.Tmpfs.{
  Tmpfs, push_link, link, mkdir, mkdir_links, mknod, and_then, after_links, count,
}

abbrev pub child_of : Node → ℕ → NodeType → Node
child_of dir id type = record { file_system = dir.file_system; node_id = id; node_type = type }

module _ (id : ℕ) (l : NodeLink) (m : Map (List NodeLink)) where
  push_link-none : m id ≡ none → push_link id l m ≡ (err, m)
  push_link-none missing = rw (missing, push_link)

  push_link-some :
      {entries : List NodeLink}
      → m id ≡ some entries
      → push_link id l m ≡ (ok tt, insert id (entries ++ (l ∷ [])) m)
  push_link-some found = rw (found, push_link)

-- The directories behind `mkdir`.
abbrev made : Node → Node → Name → List NodeLink → Map (List NodeLink) → Map (List NodeLink)
made dir child name entries m =
    insert dir.node_id ((entries ++ (link name child ∷ [])) ++ (link name child ∷ [])) (
      insert child.node_id (link current child ∷ link parent dir ∷ [])
        (insert dir.node_id (entries ++ (link name child ∷ [])) m))

module _ (dir child : Node) (name : Name) (m : Map (List NodeLink)) where
  mkdir_links-none : m dir.node_id ≡ none → mkdir_links dir child name m ≡ (err, m)
  unfolding mkdir_links
  mkdir_links-none missing =
      rw (push_link-none dir.node_id (link name child) m missing, and_then) refl

  mkdir_links-some :
      {entries : List NodeLink}
      → m dir.node_id ≡ some entries
      → dir.node_id ≢ child.node_id
      → mkdir_links dir child name m ≡ (ok tt, made dir child name entries m)
  unfolding mkdir_links
  mkdir_links-some {entries = entries} found apart =
      let next =
        insert child.node_id (link current child ∷ link parent dir ∷ [])
          (insert dir.node_id (entries ++ (link name child ∷ [])) m) in
      let again : next dir.node_id ≡ some (entries ++ (link name child ∷ [])) = ground arith in
      ap
        (λ r. and_then r λ pushed.
          push_link dir.node_id (link name child)
            (insert child.node_id (link current child ∷ link parent dir ∷ []) pushed))
        (push_link-some dir.node_id (link name child) m found)
      ∙ push_link-some dir.node_id (link name child) next again

-- What a successful `mkdir` leaves: two equal links to the new directory behind the `entries` of
-- its parent, a new directory with the links to itself and to the parent, and all else as it was.
pub record MadeDirectory (dir : Node) (name : Name) (entries : List NodeLink) (fs fs' : Tmpfs)
    : Type 0 where
  pub linked :
      fs'.directories dir.node_id
      ≡ some (
          (entries ++ (link name (child_of dir fs.node_counter directory) ∷ []))
          ++ (link name (child_of dir fs.node_counter directory) ∷ []))
  pub made :
      fs'.directories fs.node_counter
      ≡ some (link current (child_of dir fs.node_counter directory) ∷ link parent dir ∷ [])
  pub others :
      (id : ℕ) → id ≢ dir.node_id → id ≢ fs.node_counter → fs'.directories id ≡ fs.directories id
  pub files : fs'.files ≡ fs.files
  pub counted : fs'.node_counter ≡ (fs.node_counter + 1) % word

-- What a successful `mknod` leaves: one link to an empty new file behind the `entries`.
pub record MadeFile (dir : Node) (name : Name) (entries : List NodeLink) (fs fs' : Tmpfs)
    : Type 0 where
  pub linked :
      fs'.directories dir.node_id
      ≡ some (entries ++ (link name (child_of dir fs.node_counter file) ∷ []))
  pub made : fs'.files fs.node_counter ≡ some []
  pub others : (id : ℕ) → id ≢ dir.node_id → fs'.directories id ≡ fs.directories id
  pub other_files : (id : ℕ) → id ≢ fs.node_counter → fs'.files id ≡ fs.files id
  pub counted : fs'.node_counter ≡ (fs.node_counter + 1) % word

module _ (dir : Node) (name : Name) (fs : Tmpfs) where
  -- `mkdir` with a number that no directory has yet. In a directory it succeeds as `MadeDirectory`
  -- says, with the link to the new directory in the parent twice; in a node that is no directory it
  -- is an error, and all that changes is that the number is used up.
  pub mkdir_lem :
      fs.directories fs.node_counter ≡ none
      → ((entries : List NodeLink) × (fs' : Tmpfs) × (fs.directories dir.node_id ≡ some entries)
          × (mkdir dir name fs ≡ (ok tt, fs'))
          × MadeDirectory dir name entries fs fs')
        ⊎ ((fs.directories dir.node_id ≡ none)
            × (mkdir dir name fs
                ≡ (err, record fs { node_counter = (fs.node_counter + 1) % word })))
  unfolding mkdir
  mkdir_lem unused =
      let child = child_of dir fs.node_counter directory in
      let close = after_links (count fs) in
      elim (Option-cases (fs.directories dir.node_id)) [
        | inl missing ↦
            inr (missing, ap close (mkdir_links-none dir child name fs.directories missing))
        | inr (entries, found) ↦
            let apart : dir.node_id ≢ fs.node_counter = λ e. ground arith in
            inl (
              entries,
              (close (ok tt, made dir child name entries fs.directories)).1,
              found,
              ap close (mkdir_links-some dir child name fs.directories found apart),
              record {
                linked = ground arith;
                made = ground arith;
                others = λ id a b. ground arith;
                files = refl;
                counted = refl;
              },
            )
      ]

  -- `mknod`. In a directory it succeeds as `MadeFile` says; in a node that is no directory it is an
  -- error, which uses the number up and leaves an empty file under it, with all directories as
  -- before.
  pub mknod_lem :
      ((entries : List NodeLink) × (fs' : Tmpfs) × (fs.directories dir.node_id ≡ some entries)
        × (mknod dir name fs ≡ (ok tt, fs'))
        × MadeFile dir name entries fs fs')
      ⊎ ((fs.directories dir.node_id ≡ none)
          × (mknod dir name fs ≡ (
            err,
            record fs {
              node_counter = (fs.node_counter + 1) % word;
              files = insert fs.node_counter [] fs.files;
            },
          )))
  unfolding mknod
  mknod_lem = elim (Option-cases (fs.directories dir.node_id)) [
    | inl missing ↦
        inr (missing, rw (push_link-none dir.node_id (link name child) fs.directories missing))
    | inr (entries, found) ↦ inl (
      entries,
      record fs {
        node_counter = (fs.node_counter + 1) % word;
        directories = insert dir.node_id (entries ++ (link name child ∷ [])) fs.directories;
        files = insert fs.node_counter [] fs.files;
      },
      found,
      rw (push_link-some dir.node_id (link name child) fs.directories found),
      record {
        linked = insert_self dir.node_id _ fs.directories;
        made = insert_self fs.node_counter _ fs.files;
        others = λ id a. ground arith;
        other_files = λ id a. ground arith;
        counted = refl;
      },
    )
  ]
    where
      child : Node
      child = child_of dir fs.node_counter file
