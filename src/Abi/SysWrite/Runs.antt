-- ===== src/Abi/SysWrite/Runs.antt =====
-- Two letters are loaded, and written from there. The device keeps what it is sent.
use pimento.Base.{
  ℕ, ◌≡◌, ◌≢◌, true, ◌⊎◌, refl, arith, Option, some, none, List, [], ◌∷◌, ◌++◌, length, ok, panic,
}
use pimento.Base.Utf8.{from_utf8_lossy}
use pimento.Memory.Reserve.{reserves, unused}
use pimento.Memory.UserMemory.{KernelBytes}
use pimento.Fs.Name.{name_eq}
use pimento.Base.Utf8.{decode, first_byte}
use pimento.Memory.Mapper.{virtual_address, physical_address}
use pimento.Memory.PageAllocator.{alloc, alloc_loop, intersects_any}
use pimento.Memory.Ram.{zero_page}
use pimento.Memory.PageTable.TableManager.{row_by_address}
use pimento.Memory.PageTable.TableManager
use pimento.Memory.PageTable.RowManager
use pimento.Memory.PageTable.RowManager.{
  descriptor_type, type_of, value, set_value, write_table, write_page, load_table, load_page,
}
use pimento.Memory.PageTable.TableDescriptor
use pimento.Memory.PageTable.PageDescriptor
use pimento.Memory.MemoryContext.{
  State, alloc_page, alloc_page_loop, traverse_table_to_table, traverse_table_to_page,
  alloc_page_raw,
}
use pimento.Memory.MemoryContext.Regions.{walk}
use pimento.Memory.MemoryContext.Samples.{shell, empty, owned_at, shell-WellFormed}
use pimento.Memory.UserMemory.{copy_to_user, copy_from_user}
use pimento.Fs.Devfs.{CharacterDevices}
use pimento.Log.{Log, print, write_str}
use pimento.Task.Elf.Reader.{LoadablePage}
use pimento.Task.TaskExecution as Task
use pimento.Abi.SystemCalls.{val, fail, bad_file_number}
use pimento.Abi.SysWrite.{Heaps, call}
use pimento.Abi.SysWrite.Printing.{Buffer, HasText, Panics, prints, call_lem}
use pimento.Abi.SysWrite.LoadedPage as L
use pimento.Abi.SysWrite.LoadedPage.{Written, write_of, load_page-call}

abbrev recorder : CharacterDevices (List ℕ)
recorder = record {
  read = λ device count w. (ok [], w);
  write = λ device buf w. (ok (length buf), w ++ buf);
}

abbrev console : Log
console = record { device = some 1 }

abbrev hi : LoadablePage
hi = record { address = 0x1_0010; bytes = 72 ∷ 105 ∷ [] }

abbrev state_of : {A : Type 0} → Option (A × State) → State
state_of (some (_, s)) = s
state_of none = empty

abbrev loaded : State
loaded = state_of (Task.load_page shell hi empty)

is_loaded : Task.load_page shell hi empty ≡ some (ok tt, loaded)
unfolding Task.load_page copy_to_user walk alloc_page alloc_page_loop traverse_table_to_table
    traverse_table_to_page alloc_page_raw row_by_address TableManager.len descriptor_type type_of
    value alloc alloc_loop intersects_any TableDescriptor.new TableDescriptor.address
    TableDescriptor.build PageDescriptor.new PageDescriptor.set_attribute
    PageDescriptor.set_unprivileged PageDescriptor.build PageDescriptor.address write_table
    write_page set_value load_table load_page RowManager.start RowManager.len virtual_address
    physical_address zero_page
is_loaded = refl

abbrev fresh_heaps : Heaps
fresh_heaps = record { buffer = unused; text = unused }

-- The kernel's memory, as far as a program sees it, is full of stars.
abbrev stars : KernelBytes
stars ram a = 42

load_page-call_example :
    Written recorder console fresh_heaps stars shell
      (owned_at 0x8_0000)
      empty
      hi
      shell-WellFormed
      (omega arith)
      loaded
      []
load_page-call_example =
    load_page-call recorder console fresh_heaps stars shell (owned_at 0x8_0000) empty hi
      shell-WellFormed (omega arith) loaded [] (omega arith, (omega arith, tt)) is_loaded

said_hi :
    L.prints recorder console fresh_heaps stars shell
      (owned_at 0x8_0000)
      empty
      hi
      shell-WellFormed
      (omega arith)
      loaded
      []
    ≡ some (ok (val 2), loaded, 72 ∷ 105 ∷ [])
unfolding print write_str
said_hi = refl

call_lem_example :
    (((write_of hi).arg0 ≢ 1)
      × (call recorder console fresh_heaps stars shell (write_of hi) loaded []
          ≡ some (ok (fail bad_file_number), loaded, [])))
    ⊎ (((write_of hi).arg0 ≡ 1)
        × (((bytes : List ℕ) × (reserves unused 2 ≡ true)
              × Buffer recorder console fresh_heaps stars shell (write_of hi) loaded [] bytes
              × HasText unused bytes
              × (call recorder console fresh_heaps stars shell (write_of hi) loaded []
                  ≡ prints recorder console fresh_heaps stars shell
                      (write_of hi)
                      loaded
                      []
                      (from_utf8_lossy bytes)))
            ⊎ ((call recorder console fresh_heaps stars shell (write_of hi) loaded []
                  ≡ some (panic, loaded, []))
                × Panics recorder console fresh_heaps stars shell (write_of hi) loaded [])))
call_lem_example = call_lem recorder console fresh_heaps stars shell (write_of hi) loaded []

-- What was never mapped is a fault.
fault :
    call recorder console fresh_heaps stars shell (write_of hi) empty [] ≡ some (panic, empty, [])
unfolding call copy_from_user walk virtual_address reserves
fault = refl

-- A buffer in the window of the kernel is read.
leak :
    call recorder console fresh_heaps stars shell
      (record (write_of hi) { arg1 = 0xFFFF_0000_0008_0000 })
      empty
      []
    ≡ some (ok (val 2), empty, 42 ∷ 42 ∷ [])
unfolding call copy_from_user reserves print write_str decode first_byte name_eq
leak = refl

wrong_file :
    call recorder console fresh_heaps stars shell (record (write_of hi) { arg0 = 2 }) empty []
    ≡ some (ok (fail bad_file_number), empty, [])
unfolding call
wrong_file = refl
