-- ===== src/Fs/FileManager/Runs.antt =====
-- The path `/../bin`, printed and read, and one step of a walk.
use pimento.Base.{ℕ, ◌≡◌, refl, sym, ap, ◌∙◌, arith, Bool, some, List, [], ◌∷◌, length}
use pimento.Base.Map.{empty, insert}
use pimento.Fs.Name.{Name, current, parent}
use pimento.Fs.Node.{Node, NodeLink, directory}
use pimento.Fs.Tmpfs.{Tmpfs, link}
use pimento.Fs.FileSystem as F
use pimento.Fs.Open.Directories.{entries_of}
use pimento.Fs.Mounts.Subtree.{Resolves}
use pimento.Fs.VirtualFileSystem.{VirtualFileSystem}
use pimento.Fs.FileManager.{PathToken, parent_token, literal, path_str_to_tokens, step, to_str}
use pimento.Fs.FileManager.Paths.{print, path_str_to_tokens-print}
use pimento.Fs.FileManager.Walks.{AtMost, lookup_at, step_lem}

abbrev bin : Name
bin = b'b' ∷ b'i' ∷ b'n' ∷ []

abbrev tokens : List PathToken
tokens = parent_token ∷ literal bin ∷ []

path_str_to_tokens-print_example : path_str_to_tokens (print tokens) ≡ tokens
path_str_to_tokens-print_example = path_str_to_tokens-print tokens (
  tt,
  (
    (λ e. cc, (λ e. ground arith, (λ e. ground arith, (λ e. ground arith, tt))), λ e. cc, λ e. cc),
    tt,
  ),
)

abbrev top : Node
top = record { file_system = 1; node_id = 0; node_type = directory }

abbrev links : List NodeLink
links = link current top ∷ link parent top ∷ []

abbrev disk : Tmpfs
disk = record {
  me = 1;
  root = top;
  node_counter = 1;
  directories = insert 0 links empty;
  files = empty;
}

abbrev machine : VirtualFileSystem
machine = record { root_file_system = 1; mounts = []; file_systems = insert 1 (F.tmpfs disk) empty }

insert-only : {V : Type 0} (k : ℕ) (v : V) (j : ℕ) {u : V} → insert k v empty j ≡ some u → u ≡ v
insert-only k v j e = ground arith

machine-AtMost : AtMost 2 machine.file_systems
machine-AtMost node fs entries found holds =
    let same : fs ≡ F.tmpfs disk = insert-only 1 (F.tmpfs disk) node.file_system found in
    let all : entries ≡ links =
      insert-only 0 links node.node_id (ap (entries_of node) (sym same) ∙ holds) in
    omega (arith, ap length all)

step_lem_example :
    (resolved : Node) × (moved : Bool) × Resolves 1 [] top resolved moved
    × (step 2 parent_token machine top
        ≡ some
            (lookup_at (machine.file_systems resolved.file_system) resolved (to_str parent_token)))
step_lem_example =
    step_lem machine 1 top parent_token 2 (record { rank = λ id. 0; bottom = refl; climbs = tt })
      machine-AtMost (omega arith)
