-- ===== src/Memory/MemoryContext/Samples.antt =====
-- A well-formed context with a clear root table, over an allocator with half a megabyte left, for
-- the runs.
use pimento.Base.{ℕ, refl, arith, none, []}
use pimento.Memory.Mapper.{virtual_address}
use pimento.Memory.PageAllocator
use pimento.Memory.PageAllocator.{PageAllocator}
use pimento.Memory.PageAllocator.{alloc, alloc_loop, intersects_any}
use pimento.Memory.Mapper.{physical_address}
use pimento.Memory.MemoryContext.{MemoryContext, State}
use pimento.Memory.MemoryContext.Regions.{Owned, region, Tree}
use pimento.Memory.MemoryContext.Growth.{gain}
use pimento.Memory.MemoryContext.Allocation.{Ready}
use pimento.Memory.MemoryContext.Creation.{clear-Tree}
use pimento.Memory.MemoryContext.Mapping.{WellFormed}

abbrev pub half_megabyte : PageAllocator
half_megabyte = record { capacity = 0x10_0000; reserved_ranges = [] }

abbrev pub pages : PageAllocator.State
pages = record { allocated = 0x8_2000; ram = λ a. 0 }

abbrev pub shell : MemoryContext
shell = record { page_allocator = half_megabyte; asid = 1; table_l0 = 0xFFFF_0000_0008_0000 }

abbrev pub empty : State
empty = record { pages = pages; page_allocations = [] }

abbrev pub owned_at : ℕ → Owned
owned_at root = gain (λ x. none) root (region 0 0)

pub pages-Ready : Ready half_megabyte pages
pages-Ready = record {
  sized = record { bounded = omega arith; below = omega arith };
  ranges = tt;
  addressable = omega arith;
  aligned = refl;
}

pub first-Tree : Tree 0x8_0000 (owned_at 0x8_0000) pages
first-Tree = clear-Tree 0x8_0000 pages (omega arith) refl (λ _ _. refl)

pub shell-WellFormed : WellFormed shell (owned_at 0x8_0000) empty
unfolding virtual_address physical_address
shell-WellFormed = record { tree = first-Tree; window = refl; ready = pages-Ready }
