-- ===== src/Memory/MemoryContext.antt =====
-- kernel/src/memory/aarch64/memory_context.rs: the translation tables of a task, and the pages that
-- were allocated for it. Each operation holds the lock of the context, so it is one step of the
-- state.
pub mod Regions
pub mod Growth
pub mod SameRows
pub mod Extent
pub mod Descent
pub mod Traversal
pub mod Levels
pub mod Creation
pub mod Isolation
pub mod Mapping
pub mod Allocation
mod Rows
pub mod Unmapped
pub mod Samples
mod Runs
use pimento.Base.{
  ℕ, zero, suc, leb, ltb, ◌-◌, ◌&&◌, ◌+◌, ◌*◌, ◌%◌, ◌^◌, Option, none, some, List, [], ◌∷◌, ◌++◌,
  Result, err, panic, ok, if◌then◌else◌, word, true,
}
use pimento.Base.Bits.{bit_or}
use pimento.Memory.Address.{PhysicalAddress, UserAddress}
use pimento.Memory.Mapper.{virtual_address, physical_address}
use pimento.Memory.Ram.{Ram}
use pimento.Memory.PageAllocator
use pimento.Memory.PageAllocator.{PageAllocator, PageAllocation, alloc}
use pimento.Memory.PageTable.Constants.{level_root, level_max, DescriptorType, Attribute}
use pimento.Memory.PageTable.TableDescriptor
use pimento.Memory.PageTable.PageDescriptor
use pimento.Memory.PageTable.TableManager.{TableManager, TableRowManager, row_by_address}
use pimento.Memory.PageTable.RowManager
use pimento.Memory.PageTable.RowManager.{
  descriptor_type, load_table, load_page, write_table, write_page,
}

-- `AddressSpaceId::next` hands out the value of a counter of 16 bits, which wraps.
abbrev pub next_asid : ℕ → ℕ × ℕ
next_asid counter = (counter, (counter + 1) % 2 ^ 16)

-- What `new` fixes. The lock is the grain of the steps.
pub record MemoryContext : Type 0 where
  pub page_allocator : PageAllocator
  pub asid : ℕ
  pub table_l0 : ℕ

-- What the operations change: the allocator and the memory, and the pages on record.
pub record State : Type 0 where
  pub pages : PageAllocator.State
  pub page_allocations : List PageAllocation

-- An operation may fail, and has no result at all if a loop runs out of fuel.
abbrev pub Step : Type 0 → Type 0
Step T = State → Option (Result T × State)

abbrev pub after :
    {T U : Type 0} → Option (Result T × State) → (T → Step U) → Option (Result U × State)
after none next = none
after (some (ok t, s)) next = next t s
after (some (err, s)) next = some (err, s)
after (some (panic, s)) next = some (panic, s)

infixl 5 ◌>>=◌
abbrev pub ◌>>=◌ : {T U : Type 0} → Step T → (T → Step U) → Step U
(step >>= next) s = after (step s) next

abbrev pub lift : {T : Type 0} → Result T → Step T
lift r s = some (r, s)

-- A row is read from the memory, or written to it.
abbrev pub look : {T : Type 0} → (Ram → Result T) → Step T
look read s = some (read s.pages.ram, s)

abbrev pub stored : State → Result Ram → Option (Result (Unit {0}) × State)
stored s (ok ram) = some (ok tt, record s { pages = record s.pages { ram = ram } })
stored s err = some (err, s)
stored s panic = some (panic, s)

abbrev pub store : (Ram → Result Ram) → Step (Unit {0})
store change s = stored s (change s.pages.ram)

-- The page that the allocator returns is put on record.
abbrev pub recorded :
    List PageAllocation
    → Result PageAllocation × PageAllocator.State
    → Result PageAllocation × State
recorded kept (ok page, pages) =
    (ok page, record { pages = pages; page_allocations = kept ++ page ∷ [] })
recorded kept (r, pages) = (r, record { pages = pages; page_allocations = kept })

unfoldable pub alloc_page_raw : MemoryContext → Step PageAllocation
alloc_page_raw context s = elim (alloc context.page_allocator s.pages) [
  | none ↦ none
  | some r ↦ some (recorded s.page_allocations r)
]

unfoldable pub alloc_page_unmapped : MemoryContext → Step PageAllocation
unfolding alloc_page_raw
alloc_page_unmapped context = alloc_page_raw context

-- The context with the number `asid`, and the record of its root table.
abbrev rooted :
    PageAllocator → ℕ → Result PageAllocation × PageAllocator.State → Result MemoryContext × State
rooted pa asid (ok page, pages) = (
  ok (record { page_allocator = pa; asid = asid; table_l0 = page.ptr }),
  record { pages = pages; page_allocations = page ∷ [] },
)
rooted pa asid (_, pages) = (err, record { pages = pages; page_allocations = [] })

unfoldable pub new : PageAllocator → ℕ → PageAllocator.State → Option (Result MemoryContext × State)
new pa asid pages = elim (alloc pa pages) [ none ↦ none | some r ↦ some (rooted pa asid r) ]

abbrev pub ttbr_el1_asid_shift : ℕ
ttbr_el1_asid_shift = 48

unfoldable pub ttbr : MemoryContext → ℕ
ttbr context =
    bit_or (context.asid * 2 ^ ttbr_el1_asid_shift % word) (physical_address context.table_l0)

-- The two arms of the `match` in `traverse_table_to_table`.
abbrev pub next_table :
    MemoryContext → TableRowManager → Option DescriptorType → Step PhysicalAddress
next_table context row (some DescriptorType.table) = do
  descriptor ← look (λ ram. load_table ram row)
  lift (ok (TableDescriptor.address descriptor))
next_table context row _ = do
  allocation ← alloc_page_raw context
  descriptor ← lift (TableDescriptor.new allocation.address)
  _ ← store (write_table descriptor row)
  lift (ok allocation.address)

unfoldable pub traverse_table_to_table :
    MemoryContext → TableManager → UserAddress → Step TableManager
traverse_table_to_table context t address = do
  row ← lift (row_by_address t address)
  found ← look (λ ram. descriptor_type ram row)
  next ← next_table context row found
  lift (
      ok (record {
        table = virtual_address next;
        level = t.level + 1;
        input_address_start = RowManager.start row;
      }))

-- The two arms of the `match` in `traverse_table_to_page`.
abbrev pub next_page :
    MemoryContext → TableRowManager → Option DescriptorType → Step PhysicalAddress
next_page context row (some DescriptorType.page) = do
  descriptor ← look (λ ram. load_page ram row)
  lift (ok (PageDescriptor.address descriptor))
next_page context row _ = do
  allocation ← alloc_page_raw context
  descriptor ← lift (PageDescriptor.new allocation.address)
  _ ← store (
      write_page
        (PageDescriptor.set_unprivileged true
          (PageDescriptor.set_attribute Attribute.normal descriptor))
        row)
  lift (ok allocation.address)

unfoldable pub traverse_table_to_page :
    MemoryContext → TableManager → UserAddress → Step PhysicalAddress
traverse_table_to_page context t address = do
  row ← lift (row_by_address t address)
  found ← look (λ ram. descriptor_type ram row)
  next_page context row found

-- The loop goes down a level in each round, on fuel for the levels that are left.
unfoldable pub alloc_page_loop :
    ℕ → MemoryContext → TableManager → UserAddress → Step PhysicalAddress
unfolding traverse_table_to_table traverse_table_to_page
alloc_page_loop zero context t address = λ s. none
alloc_page_loop (suc fuel) context t address =
    if ltb t.level level_max
    then (do
      next ← traverse_table_to_table context t address
      alloc_page_loop fuel context next address)
    else traverse_table_to_page context t address

unfoldable pub alloc_page : MemoryContext → UserAddress → Step PhysicalAddress
unfolding alloc_page_loop
alloc_page context address =
    alloc_page_loop (suc level_max) context
      (record { table = context.table_l0; level = level_root; input_address_start = 0 }) address
