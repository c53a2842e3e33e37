-- ===== src/Memory/MemoryContext/Runs.antt =====
-- Two contexts of an allocator that has half a megabyte above the kernel.
use pimento.Base.{
  ℕ, ◌+◌, ◌*◌, ◌^◌, ◌≤◌, ◌<◌, ◌≡◌, refl, ◌⊎◌, inl, inr, arith, Option, none, some, Result, ok, err,
  ◌==◌, Bool-cases, ==→≡,
}
use pimento.Memory.Mapper.{virtual_address}
use pimento.Memory.PageAllocator.Alloc.{Refuses}
use pimento.Memory.PageAllocator.{alloc, alloc_loop, intersects_any}
use pimento.Memory.Ram.{zero_page}
use pimento.Memory.PageTable.TableDescriptor
use pimento.Memory.PageTable.PageDescriptor
use pimento.Memory.PageTable.TableManager
use pimento.Memory.PageTable.TableManager.{row_by_address}
use pimento.Memory.PageTable.RowManager
use pimento.Memory.PageTable.RowManager.{
  descriptor_type, type_of, value, set_value, write_table, write_page, load_table, load_page,
}
use pimento.Memory.MemoryContext.{
  MemoryContext, State, new, ttbr, alloc_page, alloc_page_loop, traverse_table_to_table,
  traverse_table_to_page, alloc_page_raw,
}
use pimento.Memory.MemoryContext.Regions.{Owned, Tree, translate}
use pimento.Memory.MemoryContext.Creation.{clear-Tree, new-translate}
use pimento.Memory.MemoryContext.Levels.{Maps, Exhausts}
use pimento.Memory.MemoryContext.Mapping.{root_of, WellFormed, Alone, alloc_page-translate}
use pimento.Memory.MemoryContext.Isolation.{Apart, Untouched, alloc_page-Apart}
use pimento.Memory.MemoryContext.Samples.{
  half_megabyte, pages, shell, empty, owned_at, pages-Ready, shell-WellFormed,
}

second-Tree : Tree 0x8_1000 (owned_at 0x8_1000) pages
second-Tree = clear-Tree 0x8_1000 pages (omega arith) refl (λ _ _. refl)

roots-Apart : Apart (owned_at 0x8_0000) (owned_at 0x8_1000)
roots-Apart x real = elim (Bool-cases (x == 0x8_0000)) [
  | inl first ↦ rw (==→≡ x 0x8_0000 first) refl
  | inr other ↦ absurd (real (rw other refl))
]

-- Four pages for one address, in order; the second call has nothing to do.
abbrev mapped : Option (Result ℕ × State) → Option ℕ
mapped (some (ok x, s)) = some x
mapped _ = none

abbrev counter : Option (Result ℕ × State) → ℕ
counter (some (_, s)) = s.pages.allocated
counter none = 0

abbrev again : Option (Result ℕ × State) → Option (Result ℕ × State)
again (some (ok _, s)) = alloc_page shell 0x40_0FFF s
again r = r

abbrev beside : Option (Result ℕ × State) → Option (Result ℕ × State)
beside (some (ok _, s)) = alloc_page shell 0x40_1000 s
beside r = r

first_page : mapped (alloc_page shell 0x40_0000 empty) ≡ some 0x8_5000
unfolding alloc_page alloc_page_loop traverse_table_to_table traverse_table_to_page alloc_page_raw
    row_by_address TableManager.len descriptor_type type_of value alloc alloc_loop intersects_any
    TableDescriptor.new TableDescriptor.address TableDescriptor.build PageDescriptor.new
    PageDescriptor.set_attribute PageDescriptor.set_unprivileged PageDescriptor.build
    PageDescriptor.address write_table write_page set_value load_table load_page RowManager.start
    RowManager.len virtual_address zero_page
first_page = refl

same_page :
    (mapped (again (alloc_page shell 0x40_0000 empty)) ≡ some 0x8_5000)
    × (counter (again (alloc_page shell 0x40_0000 empty)) ≡ 0x8_6000)
unfolding alloc_page alloc_page_loop traverse_table_to_table traverse_table_to_page alloc_page_raw
    row_by_address TableManager.len descriptor_type type_of value alloc alloc_loop intersects_any
    TableDescriptor.new TableDescriptor.address TableDescriptor.build PageDescriptor.new
    PageDescriptor.set_attribute PageDescriptor.set_unprivileged PageDescriptor.build
    PageDescriptor.address write_table write_page set_value load_table load_page RowManager.start
    RowManager.len virtual_address zero_page
same_page = (refl, refl)

next_page : mapped (beside (alloc_page shell 0x40_0000 empty)) ≡ some 0x8_6000
unfolding alloc_page alloc_page_loop traverse_table_to_table traverse_table_to_page alloc_page_raw
    row_by_address TableManager.len descriptor_type type_of value alloc alloc_loop intersects_any
    TableDescriptor.new TableDescriptor.address TableDescriptor.build PageDescriptor.new
    PageDescriptor.set_attribute PageDescriptor.set_unprivileged PageDescriptor.build
    PageDescriptor.address write_table write_page set_value load_table load_page RowManager.start
    RowManager.len virtual_address zero_page
next_page = refl

alloc_page_example :
    ((x : ℕ) × (s' : State) × (owned' : Owned) × (alloc_page shell 0x40_0000 empty
        ≡ some (ok x, s'))
      × (0x40_0000 < 2 ^ 48)
      × Maps half_megabyte (root_of shell) (owned_at 0x8_0000) owned' empty s' 0x40_0000 x
      × Alone s'.pages (root_of shell) 0x40_0000 x
      × WellFormed shell owned' s')
    ⊎ (((s' : State) × (owned' : Owned) × (alloc_page shell 0x40_0000 empty ≡ some (err, s'))
          × (0x40_0000 < 2 ^ 48)
          × Exhausts half_megabyte (root_of shell) (owned_at 0x8_0000) owned' empty s' 0x40_0000)
        ⊎ ((2 ^ 48 ≤ 0x40_0000) × (alloc_page shell 0x40_0000 empty ≡ some (err, empty))))
alloc_page_example = alloc_page-translate shell (owned_at 0x8_0000) empty 0x40_0000 shell-WellFormed

apart_example :
    (r : Result ℕ) × (s' : State) × (owned' : Owned) × (alloc_page shell 0x40_0000 empty
      ≡ some (r, s'))
    × Tree (root_of shell) owned' s'.pages
    × Untouched (root_of shell) 0x8_1000 owned' (owned_at 0x8_1000) pages s'.pages
apart_example =
    alloc_page-Apart shell (owned_at 0x8_0000) empty 0x40_0000 shell-WellFormed 0x8_1000
      (owned_at 0x8_1000) second-Tree roots-Apart

new_example :
    ((context : MemoryContext) × (s : State) × (new half_megabyte 7 pages ≡ some (ok context, s))
      × (context.page_allocator ≡ half_megabyte)
      × (ttbr context ≡ 7 * 2 ^ 48 + root_of context)
      × (0x8_2000 ≤ root_of context)
      × WellFormed context (owned_at (root_of context)) s
      × ((b : ℕ) → translate s.pages.ram (root_of context) b ≡ none))
    ⊎ ((s : State) × (new half_megabyte 7 pages ≡ some (err, s))
        × Refuses half_megabyte pages s.pages)
new_example = new-translate half_megabyte 7 pages pages-Ready (omega arith)
