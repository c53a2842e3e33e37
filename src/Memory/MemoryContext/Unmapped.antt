-- ===== src/Memory/MemoryContext/Unmapped.antt =====
-- `alloc_page_unmapped` allocates a page that no table of the context leads to.
use pimento.Base.{ℕ, ◌+◌, ◌^◌, ◌<◌, ◌≡◌, arith}
use pimento.Memory.Mapper.{virtual_address-add, va_start}
use pimento.Memory.Ram.{zero_page}
use pimento.Memory.PageAllocator.{PageAllocation}
use pimento.Memory.MemoryContext as M
use pimento.Memory.MemoryContext.{MemoryContext, next_asid, ttbr, alloc_page_unmapped}
use pimento.Memory.MemoryContext.Regions.{Owned, translate}
use pimento.Memory.MemoryContext.SameRows.{SameRows, same-Tree, same-translate}
use pimento.Memory.MemoryContext.Allocation.{Fresh}
use pimento.Memory.MemoryContext.Mapping.{root_of, WellFormed}

-- A page that was not handed out before is none of the tables of a context.
module _ (context : MemoryContext) (owned : Owned) (m m' : M.State) (page : PageAllocation)
    (fine : WellFormed context owned m) (fresh : Fresh context.page_allocator m page m') where
  low : page.address < 2 ^ 48
  low = omega (arith, fresh.fits, fine.ready.addressable)

  fresh-SameRows : SameRows owned m.pages.ram m'.pages.ram
  unfolding zero_page
  fresh-SameRows x level number index own deep small =
      let known = fine.tree.taken x (λ e. cc (e, own)) in
      rw fresh.cleared (
        ground (
          arith,
          virtual_address-add x known.2,
          virtual_address-add page.address low,
          fresh.fresh,
          known,
          small,
        ))

  pub fresh-WellFormed : WellFormed context owned m'
  fresh-WellFormed = record {
    tree =
        same-Tree (root_of context) owned m.pages m'.pages fine.tree fresh-SameRows
          (omega (arith, fresh.advanced, fresh.fresh))
          (omega (arith, fresh.advanced, fresh.aligned));
    window = fine.window;
    ready = record {
      sized = record {
        bounded = fine.ready.sized.bounded;
        below = omega (arith, fresh.advanced, fresh.fits, fine.ready.sized.bounded);
      };
      ranges = fine.ready.ranges;
      addressable = fine.ready.addressable;
      aligned = omega (arith, fresh.advanced, fresh.aligned);
    };
  }

  pub fresh-translate :
      (b : ℕ)
      → b < 2 ^ 48
      → translate m'.pages.ram (root_of context) b ≡ translate m.pages.ram (root_of context) b
  fresh-translate = same-translate (root_of context) owned m.pages m'.pages fine.tree fresh-SameRows

  pub fresh-clear :
      (offset : ℕ) → offset < 4096 → m'.pages.ram (va_start + page.address + offset) ≡ 0
  unfolding zero_page
  fresh-clear offset small =
      rw fresh.cleared (ground (arith, virtual_address-add page.address low, small))
