-- ===== src/Fs/Tmpfs/Histories.antt =====
-- Sequences of the operations of kernel/src/fs/tmpfs.rs from a new file system on.
use native.Mathlib.Nat.{mod-eq_of_lt}
use mathlib.Core.Path.{subst}
use pimento.Base.{
  ℕ, ◌+◌, ◌≤◌, ◌<◌, ◌≡◌, refl, sym, ap, ◌∙◌, inl, inr, arith, some, List, [], ◌∷◌, ◌==◌, word,
  Bool-cases, length, ==→≡,
}
use pimento.Base.Map.{insert}
use pimento.Memory.Reserve.{HeapRoom}
use pimento.Fs.Name.{Name}
use pimento.Fs.Node.{FsId, Node, directory}
use pimento.Fs.Tmpfs.{Tmpfs, new, mkdir, mknod, write}
use pimento.Fs.Tmpfs.Directories.{mkdir_lem, mknod_lem}
use pimento.Fs.Tmpfs.Files.{write_lem, Writes}
use pimento.Fs.Tmpfs.Invariant.{
  IsValid, Keeps, LinksPresent-Keeps, Keeps-maps, MadeDirectory-IsValid, MadeFile-IsValid,
}

-- The calls that change a file system; a write finds the heap as it is at that time. The virtual
-- file system makes the first two in directories only.
pub data Call : Type 0 where
  make_directory make_file : Node → Name → Call
  store : HeapRoom → Node → ℕ → List ℕ → Call

abbrev pub after : Call → Tmpfs → Tmpfs
after (make_directory dir name) fs = (mkdir dir name fs).1
after (make_file dir name) fs = (mknod dir name fs).1
after (store heap node position buf) fs = (write heap node position buf fs).1

abbrev pub after_all : List Call → Tmpfs → Tmpfs
after_all [] fs = fs
after_all (c ∷ cs) fs = after_all cs (after c fs)

-- What the callers see to: links are made in directories, and no write ends past the machine word.
abbrev pub Legal : Call → Type 0
Legal (make_directory dir name) = dir.node_type ≡ directory
Legal (make_file dir name) = dir.node_type ≡ directory
Legal (store heap node position buf) = position + length buf < word

abbrev pub AllLegal : List Call → Type 0
AllLegal [] = Unit
AllLegal (c ∷ cs) = Legal c × AllLegal cs

pub new-IsValid : (me : FsId) → IsValid (new me)
unfolding new
new-IsValid me = record {
  directories_below = λ id from. ground arith;
  files_below = λ id from. refl;
  links = λ id. elim (Bool-cases (id == 0)) [
    | inl here ↦ rw here ((_, refl), ((_, refl), tt))
    | inr away ↦ rw away tt
  ];
}

-- Nothing but the files of nodes that have one is different.
Writes-IsValid :
    (node : Node) (position : ℕ) (buf v : List ℕ) (fs fs' : Tmpfs)
    → IsValid fs
    → fs.files node.node_id ≡ some v
    → Writes node position buf v fs fs'
    → IsValid fs'
Writes-IsValid node position buf v fs fs' valid found w =
    let k : Keeps fs fs' =
      Keeps-maps fs fs' (λ id es e. (es, ap (λ f. f id) w.directories ∙ e))
        (λ id bytes e. elim (Bool-cases (id == node.node_id)) [
          | inl here ↦ (_, ap fs'.files (==→≡ id node.node_id here) ∙ w.here)
          | inr away ↦ (bytes, w.other_files id (ground arith) ∙ e)
        ]) in
    record {
      directories_below =
          λ id from. ap (λ f. f id) w.directories ∙ valid.directories_below id (ground arith);
      files_below = λ id from.
          w.other_files id (λ e. ground (arith, valid.files_below id))
          ∙ valid.files_below id (ground arith);
      links =
          λ id. rw (ap (λ f. f id) w.directories) (LinksPresent-Keeps fs fs' k _ (valid.links id));
    }

-- The calls that fail use a number up, and `mknod` leaves an empty file under it.
counted-IsValid :
    (fs : Tmpfs) (n : ℕ)
    → IsValid fs
    → fs.node_counter ≤ n
    → IsValid (record fs { node_counter = n })
counted-IsValid fs n valid from =
    let fs' : Tmpfs = record fs { node_counter = n } in
    record {
      directories_below = λ id low. valid.directories_below id (omega arith);
      files_below = λ id low. valid.files_below id (omega arith);
      links = λ id.
          LinksPresent-Keeps fs fs'
            (Keeps-maps fs fs' (λ id es e. (es, e)) (λ id bytes e. (bytes, e))) (fs.directories id)
            (valid.links id);
    }

orphan-IsValid :
    (fs : Tmpfs) (n : ℕ)
    → IsValid fs
    → fs.node_counter + 1 ≤ n
    → IsValid (record fs { node_counter = n; files = insert fs.node_counter [] fs.files })
orphan-IsValid fs n valid from =
    let fs' : Tmpfs = record fs { node_counter = n; files = insert fs.node_counter [] fs.files } in
    record {
      directories_below = λ id low. valid.directories_below id (omega arith);
      files_below = λ id low. ground (arith, valid.files_below id);
      links = λ id.
          LinksPresent-Keeps fs fs'
            (Keeps-maps fs fs' (λ id es e. (es, e))
              (λ id bytes e. (bytes, ground (arith, valid.files_below id))))
            (fs.directories id) (valid.links id);
    }

abbrev ValidBelow : ℕ → Tmpfs → Type 0
ValidBelow bound fs = IsValid fs × (fs.node_counter ≤ bound)

ValidBelow-of :
    {A : Type 0} {n : ℕ} {r : A × Tmpfs} {a : A} {fs' : Tmpfs}
    → r ≡ (a, fs')
    → IsValid fs'
    → fs'.node_counter ≤ n
    → ValidBelow n (r.1)
ValidBelow-of {n = n} e valid below = subst (λ r. ValidBelow n (r.1)) (sym e) (valid, below)

after-IsValid :
    (c : Call) (fs : Tmpfs)
    → Legal c
    → IsValid fs
    → fs.node_counter + 1 < word
    → ValidBelow (fs.node_counter + 1) (after c fs)
after-IsValid (make_directory dir name) fs legal valid room =
    elim (mkdir_lem dir name fs (valid.directories_below fs.node_counter (omega arith))) [
      | inl (entries, fs', found, e, m) ↦
          ValidBelow-of e (MadeDirectory-IsValid dir name entries fs fs' valid room found legal m)
            (omega (arith, m.counted, mod-eq_of_lt room))
      | inr (missing, e) ↦
          ValidBelow-of e (counted-IsValid fs _ valid (omega (arith, mod-eq_of_lt room)))
            (omega (arith, mod-eq_of_lt room))
    ]
after-IsValid (make_file dir name) fs legal valid room = elim (mknod_lem dir name fs) [
  | inl (entries, fs', found, e, m) ↦
      ValidBelow-of e (MadeFile-IsValid dir name entries fs fs' valid room found m)
        (omega (arith, m.counted, mod-eq_of_lt room))
  | inr (missing, e) ↦
      ValidBelow-of e (orphan-IsValid fs _ valid (omega (arith, mod-eq_of_lt room)))
        (omega (arith, mod-eq_of_lt room))
]
after-IsValid (store heap node position buf) fs legal valid room =
    elim (write_lem heap node position buf fs legal) [
      | inl (v, found, _, (fs', e, w)) ↦
          ValidBelow-of e (Writes-IsValid node position buf v fs fs' valid found w)
            (omega (arith, w.node_counter))
      | inr (inl (_, _, _, _, e)) ↦ ValidBelow-of e valid (omega arith)
      | inr (inr (_, e)) ↦ ValidBelow-of e valid (omega arith)
    ]

after_all-IsValid :
    (cs : List Call) (fs : Tmpfs)
    → AllLegal cs
    → IsValid fs
    → fs.node_counter + length cs < word
    → IsValid (after_all cs fs)
after_all-IsValid [] fs legal valid room = valid
after_all-IsValid (c ∷ cs) fs (l, legal) valid room =
    let (v, n) = after-IsValid c fs l valid (omega arith) in
    after_all-IsValid cs (after c fs) legal v (omega arith)

-- Any sequence of calls of `mkdir`, `mknod` and `write` on a new file system, failing ones
-- included, whose links are made in directories, whose writes end below the machine word and whose
-- number does too, leaves a valid file system: every link of a directory, `.` and `..` among them,
-- leads to a node of its type that is there, and no number from the counter on is in use.
pub history-IsValid :
    (me : FsId) (cs : List Call)
    → AllLegal cs
    → 1 + length cs < word
    → IsValid (after_all cs (new me))
unfolding new
history-IsValid me cs legal room =
    after_all-IsValid cs (new me) legal (new-IsValid me) (omega arith)
