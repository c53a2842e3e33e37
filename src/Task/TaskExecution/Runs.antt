-- ===== src/Task/TaskExecution/Runs.antt =====
-- Three bytes are loaded into a context that maps nothing, and a program that cannot be opened.
use pimento.Base.{◌^◌, ◌≤◌, ◌<◌, ◌≡◌, ◌⊎◌, arith, some, [], ◌∷◌, ok, err}
use pimento.Memory.MemoryContext.{State}
use pimento.Memory.MemoryContext.Regions.{Owned}
use pimento.Memory.MemoryContext.Levels.{Exhausts}
use pimento.Memory.MemoryContext.Mapping.{root_of, WellFormed}
use pimento.Memory.MemoryContext.Samples.{half_megabyte, shell, empty, owned_at, shell-WellFormed}
use pimento.Task.Elf.Reader.{LoadablePage}
use pimento.Task.TaskExecution.{load_page}
use pimento.Task.TaskExecution.PageLoading.{Filled, load_page_lem}

abbrev page : LoadablePage
page = record { address = 0x1_0010; bytes = 7 ∷ 8 ∷ 9 ∷ [] }

load_page_example :
    ((s' : State) × (owned' : Owned) × (load_page shell page empty ≡ some (ok tt, s'))
      × (0x1_0010 < 2 ^ 48)
      × Filled shell empty s' page
      × WellFormed shell owned' s')
    ⊎ (((s' : State) × (owned' : Owned) × (load_page shell page empty ≡ some (err, s'))
          × (0x1_0010 < 2 ^ 48)
          × Exhausts half_megabyte (root_of shell) (owned_at 0x8_0000) owned' empty s' 0x1_0010)
        ⊎ ((2 ^ 48 ≤ 0x1_0010) × (load_page shell page empty ≡ some (err, empty))))
load_page_example =
    load_page_lem shell (owned_at 0x8_0000) empty page shell-WellFormed (omega arith)
