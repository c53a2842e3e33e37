-- ===== src/Task/TaskExecution.antt =====
-- kernel/src/task/aarch64/task_execution.rs: a program is loaded into the context of the current
-- task, and the processor enters it. What it then runs is not code of the kernel, so the last step
-- of `execute` is the pair of its registers.
pub mod PageLoading
mod Runs
use pimento.Base.{ℕ, zero, suc, Option, none, some, Result, ok, err, panic}
use pimento.Memory.Address.{UserAddress, sub}
use pimento.Memory.Ram.{page_size}
use pimento.Memory.MemoryContext.{MemoryContext, State, Step, ◌>>=◌, after, lift, alloc_page}
use pimento.Memory.UserMemory.{copy_to_user}
use pimento.Fs.Node.{Node}
use pimento.Fs.Devfs.{CharacterDevices}
use pimento.Fs.Open.{File, FileSystems}
use pimento.Fs.VirtualFileSystem.{VirtualFileSystem}
use pimento.Fs.FileManager.{PathInfo, open_file}
use pimento.Task.Elf.Reader as Elf
use pimento.Task.Elf.Reader.{
  Elf64Reader, LoadablePages, LoadablePage, entry_point, loadable_pages, next,
}

abbrev pub stack_init : UserAddress
stack_init = 0x8000_0000

-- What `enter_el0` starts from: the program counter and the stack pointer.
pub record Entry : Type 0 where
  pub entry_point : ℕ
  pub stack_pointer : UserAddress

-- The body of the loop.
unfoldable pub load_page : MemoryContext → LoadablePage → Step (Unit {0})
load_page context page = do
  _ ← alloc_page context page.address
  copy_to_user context page.bytes page.address

-- The page under `STACK_INIT`, and the jump.
unfoldable pub enter : MemoryContext → ℕ → Step Entry
enter context entry = do
  _ ← alloc_page context (sub page_size stack_init 1)
  lift (ok (record { entry_point = entry; stack_pointer = stack_init }))

module _ {W : Type 0} (devices : CharacterDevices W) (live : FileSystems) where
  -- The loop over the pages, with fuel for them.
  unfoldable pub load_pages :
      ℕ
      → MemoryContext
      → Elf64Reader
      → LoadablePages
      → File
      → W
      → State
      → Option (Result (Unit {0}) × W × State)
  load_pages zero context reader pages f w s = none
  load_pages (suc fuel) context reader pages f w s = elim (next devices live reader pages f w) [
    | none ↦ none
    | some (ok none, pages', f', w') ↦ some (ok tt, w', s)
    | some (ok (some page), pages', f', w') ↦ elim (load_page context page s) [
      | none ↦ none
      | some (ok _, s') ↦ load_pages fuel context reader pages' f' w' s'
      | some (err, s') ↦ some (err, w', s')
      | some (panic, s') ↦ some (panic, w', s')
    ]
    | some (err, pages', f', w') ↦ some (err, w', s)
    | some (panic, pages', f', w') ↦ some (panic, w', s)
  ]

  abbrev with_world : {A : Type 0} → W → Option (Result A × State) → Option (Result A × W × State)
  with_world w none = none
  with_world w (some (r, s)) = some (r, w, s)

  -- The file is open, and its headers are read.
  abbrev start :
      ℕ → MemoryContext → State → Result Elf64Reader × File × W → Option (Result Entry × W × State)
  start fuel context s (ok reader, f, w) =
      elim (load_pages fuel context reader loadable_pages f w s) [
        | none ↦ none
        | some (ok _, w', s') ↦ with_world w' (enter context (entry_point reader) s')
        | some (err, w', s') ↦ some (err, w', s')
        | some (panic, w', s') ↦ some (panic, w', s')
      ]
  start fuel context s (err, f, w) = some (err, w, s)
  start fuel context s (panic, f, w) = some (panic, w, s)

  -- `size` is the fuel of the walk to the file, `fuel` that of the loop.
  unfoldable pub execute :
      (size fuel : ℕ)
      → MemoryContext
      → VirtualFileSystem
      → Node
      → PathInfo
      → W
      → State
      → Option (Result Entry × W × State)
  unfolding load_pages
  execute size fuel context v root path w s = elim (open_file size path v root) [
    | none ↦ none
    | some (ok file) ↦ start fuel context s (Elf.new devices live file w)
    | some err ↦ some (err, w, s)
    | some panic ↦ some (panic, w, s)
  ]
