-- ===== src/Memory/PageAllocator/Runs.antt =====
-- The page allocator of the Raspberry Pi 3 B, run, and the theorems at it.
use pimento.Base.{◌≡◌, refl, ◌⊎◌, arith, some, List, [], ◌∷◌, ok, err}
use pimento.Memory.PageAllocator.{
  PageAllocator, State, PageAllocation, intersects, intersects_any, alloc_loop, alloc,
}
use pimento.Memory.PageAllocator.Alloc.{Allocates, Refuses, alloc_first_fit}
use pimento.Memory.PageAllocator.Series.{alloc_many, Ascending, alloc_many-Ascending}

-- kernel/src/boot/aarch64/raspi3b/init.rs, with `__end` as kernel/src/boot/aarch64/raspi3b/link.ld
-- places it.
abbrev board : PageAllocator
board = record {
  capacity = 0x4000_0000;
  reserved_ranges =
      record { start = 0; end = 0x60_0000 }
      ∷ record { start = 0x3F00_0000; end = 0x4000_0000 }
      ∷ [];
}

abbrev fresh : State
fresh = record { allocated = 0; ram = λ a. 1 }

-- The first page is the one behind the kernel image, after 1536 candidates.
first_page : alloc_loop 1600 board 0 ≡ some (ok 0x60_0000, 0x60_1000)
unfolding alloc_loop intersects_any intersects
first_page = refl

alloc_first_fit_example :
    ((page : PageAllocation) × (s' : State) × (alloc board fresh ≡ some (ok page, s'))
      × Allocates board fresh page s')
    ⊎ ((s' : State) × (alloc board fresh ≡ some (err, s')) × Refuses board fresh s')
alloc_first_fit_example =
    alloc_first_fit board fresh (record { bounded = omega arith; below = omega arith })
      (omega arith)

alloc_many-Ascending_example :
    (pages : List PageAllocation) × (s' : State) × (alloc_many 3 board fresh ≡ some (pages, s'))
    × Ascending board 0 pages
alloc_many-Ascending_example =
    alloc_many-Ascending 3 board fresh (omega arith) (omega arith) (omega arith)
