-- ===== src/Fs/FileManager.antt =====
-- kernel/src/fs/file_manager.rs: paths as tokens, and the walk from node to node. A call is `none`
-- where a walk over the mounts is cut off. The calls that open the node at a path are the walk and
-- the call of the virtual file system.
pub mod Paths
pub mod Walks
mod Runs
use pimento.Base.{
  ℕ, zero, suc, Bool, true, false, Option, none, some, List, [], ◌∷◌, ◌++◌, Result, ok, err, panic,
  if◌then◌else◌, ◌==◌, length,
}
use pimento.Base.Outcome.{unwrap}
use pimento.Fs.Name.{Name, name_eq, current, parent}
use pimento.Fs.Node.{Node, NodeLink}
use pimento.Fs.Mounts.{Handle}
use pimento.Fs.Open.{FileSystems, Directory, File, readdir}
use pimento.Fs.VirtualFileSystem.{VirtualFileSystem}
use pimento.Fs.VirtualFileSystem as V

abbrev pub slash : ℕ
slash = b'/'

pub data PathToken : Type 0 where
  current_token parent_token : PathToken
  literal : Name → PathToken

unfoldable pub to_str : PathToken → Name
to_str current_token = current
to_str parent_token = parent
to_str (literal s) = s

unfoldable pub from_str : Name → PathToken
from_str s =
    if name_eq s current
    then current_token
    else if name_eq s parent
    then parent_token
    else literal s

pub data PathStart : Type 0 where
  root_start : PathStart
  node_start : Node → PathStart

pub record PathInfo : Type 0 where
  pub tokens : List PathToken
  pub start : PathStart

abbrev pub on_first : ℕ → List Name → List Name
on_first c [] = (c ∷ []) ∷ []
on_first c (piece ∷ pieces) = (c ∷ piece) ∷ pieces

-- `path.split(SLASH)`: the pieces between the slashes.
unfoldable pub split : Name → List Name
split [] = [] ∷ []
split (c ∷ path) = let pieces = split path in if c == slash then [] ∷ pieces else on_first c pieces

-- `filter_map`, which drops the empty pieces.
unfoldable pub to_tokens : List Name → List PathToken
unfolding from_str
to_tokens [] = []
to_tokens ([] ∷ pieces) = to_tokens pieces
to_tokens ((c ∷ piece) ∷ pieces) = from_str (c ∷ piece) ∷ to_tokens pieces

unfoldable pub path_str_to_tokens : Name → List PathToken
unfolding split to_tokens
path_str_to_tokens path = to_tokens (split path)

abbrev pub starts_with_slash : Name → Bool
starts_with_slash [] = false
starts_with_slash (c ∷ path) = c == slash

unfoldable pub absolute : Name → Option PathInfo
unfolding path_str_to_tokens
absolute path =
    if starts_with_slash path
    then some (record { tokens = path_str_to_tokens path; start = root_start })
    else none

unfoldable pub new : Name → Node → Result PathInfo
unfolding path_str_to_tokens absolute
new path start =
    if starts_with_slash path
    then unwrap (absolute path)
    else ok (record { tokens = path_str_to_tokens path; start = node_start start })

-- `last()` and all but it.
unfoldable pub last_token : List PathToken → Option PathToken
last_token [] = none
last_token (t ∷ []) = some t
last_token (t ∷ u ∷ ts) = last_token (u ∷ ts)

unfoldable pub first_tokens : List PathToken → List PathToken
first_tokens [] = []
first_tokens (t ∷ []) = []
first_tokens (t ∷ u ∷ ts) = t ∷ first_tokens (u ∷ ts)

-- The path of the parent: a literal at the end is taken off, and anything else gets `..` behind it.
unfoldable pub parent_path : PathInfo → PathInfo
unfolding last_token first_tokens
parent_path path = elim (last_token path.tokens) [
  | some (literal _) ↦ record path { tokens = first_tokens path.tokens }
  | _ ↦ record path { tokens = path.tokens ++ (parent_token ∷ []) }
]

-- What the search makes of an entry, with `rest` for the entries behind it.
abbrev pub answer : Name → Result (Option NodeLink) → Option (Result Node) → Option (Result Node)
answer target (ok (some l)) rest = if name_eq l.name target then some (ok l.node) else rest
answer target (ok none) rest = some err
answer target err rest = some err
answer target panic rest = some panic

-- The search for a name in an open directory, cut off by fuel: the first entry that has the name.
unfoldable pub scan : ℕ → Name → Directory → FileSystems → Option (Result Node)
scan zero target d live = none
scan (suc fuel) target d live =
    answer target (readdir d live).0 (scan fuel target (readdir d live).1 live)

-- One token from a node on, with fuel for the entries of a directory of up to `size` links.
unfoldable pub step : ℕ → PathToken → VirtualFileSystem → Node → Option (Result Node)
unfolding to_str scan
step size token v node = elim (V.opendir node v) [
  | none ↦ none
  | some (ok d) ↦ scan (suc size) (to_str token) d v.file_systems
  | some err ↦ some err
  | some panic ↦ some panic
]

unfoldable pub walk_from : ℕ → List PathToken → VirtualFileSystem → Node → Option (Result Node)
unfolding step
walk_from size [] v node = some (ok node)
walk_from size (t ∷ ts) v node = elim (step size t v node) [
  | some (ok next) ↦ walk_from size ts v next
  | none ↦ none
  | some err ↦ some err
  | some panic ↦ some panic
]

-- `root()` is the root node of the root file system.
unfoldable pub walk : ℕ → PathInfo → VirtualFileSystem → Node → Option (Result Node)
unfolding walk_from
walk size path v root =
    walk_from size path.tokens v (elim path.start [ root_start ↦ root | node_start node ↦ node ])

-- A call that changes the directory above the end of a path.
abbrev pub Call : Type 0
Call = Node → Name → VirtualFileSystem → Option (Result (Unit {0}) × VirtualFileSystem)

abbrev pub call_in :
    Call
    → Option PathToken
    → VirtualFileSystem
    → Node
    → Option (Result (Unit {0}) × VirtualFileSystem)
call_in call (some (literal name)) v dir = call dir name v
call_in call _ v dir = some (err, v)

unfoldable pub call_at :
    Call → ℕ → PathInfo → VirtualFileSystem → Node → Option (Result (Unit {0}) × VirtualFileSystem)
unfolding walk parent_path last_token
call_at call size path v root = elim (walk size (parent_path path) v root) [
  | some (ok dir) ↦ call_in call (last_token path.tokens) v dir
  | none ↦ none
  | some err ↦ some (err, v)
  | some panic ↦ some (panic, v)
]

unfoldable pub mkdir :
    ℕ → PathInfo → VirtualFileSystem → Node → Option (Result (Unit {0}) × VirtualFileSystem)
mkdir = call_at V.mkdir

unfoldable pub rmdir :
    ℕ → PathInfo → VirtualFileSystem → Node → Option (Result (Unit {0}) × VirtualFileSystem)
rmdir = call_at V.rmdir

unfoldable pub mknod :
    ℕ → PathInfo → VirtualFileSystem → Node → Option (Result (Unit {0}) × VirtualFileSystem)
mknod = call_at V.mknod

unfoldable pub unlink :
    ℕ → PathInfo → VirtualFileSystem → Node → Option (Result (Unit {0}) × VirtualFileSystem)
unlink = call_at V.unlink

-- The calls of the node at the end of a path.
abbrev pub call_on :
    {A : Type 0} → (Node → Option (Result A)) → Option (Result Node) → Option (Result A)
call_on call none = none
call_on call (some (ok node)) = call node
call_on call (some err) = some err
call_on call (some panic) = some panic

unfoldable pub opendir : ℕ → PathInfo → VirtualFileSystem → Node → Option (Result Directory)
unfolding walk
opendir size path v root = call_on (λ node. V.opendir node v) (walk size path v root)

unfoldable pub open_file : ℕ → PathInfo → VirtualFileSystem → Node → Option (Result File)
unfolding walk
open_file size path v root = call_on (λ node. V.open_file node v) (walk size path v root)

unfoldable pub mount :
    ℕ
    → PathInfo
    → Handle
    → VirtualFileSystem
    → Node
    → Option (Result (Unit {0}) × VirtualFileSystem)
unfolding walk
mount size path subtree v root = elim (walk size path v root) [
  | none ↦ none
  | some (ok node) ↦ V.mount node subtree v
  | some err ↦ some (err, v)
  | some panic ↦ some (panic, v)
]
