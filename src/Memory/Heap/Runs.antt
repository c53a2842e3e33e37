-- ===== src/Memory/Heap/Runs.antt =====
-- The kernel heap of 4 MB, run, and the theorems at it.
use pimento.Base.{ℕ, ◌*◌, ◌≡◌, refl, ◌⊎◌, arith, none, some, [], ◌∷◌}
use pimento.Memory.Heap.{Allocator, Layout, alloc}
use pimento.Memory.Heap.Blocks.{Block, Refused, alloc_lem, AllNone, alloc_each, alloc_after_failure}

abbrev fresh : Allocator
fresh = record { start = 0x8_0010; size = 4 * 1024 * 1024; allocated = 3 }

abbrev small : Layout
small = record { size = 24; align = 8 }

abbrev big : Layout
big = record { size = 5 * 1024 * 1024; align = 8 }

small_block : alloc fresh small ≡ (some 0x8_0018, record fresh { allocated = 32 })
unfolding alloc
small_block = refl

alloc_lem_example :
    ((p : ℕ) × (h' : Allocator) × (alloc fresh small ≡ (some p, h')) × Block fresh small p h')
    ⊎ ((h' : Allocator) × (alloc fresh small ≡ (none, h')) × Refused fresh small h')
alloc_lem_example =
    alloc_lem fresh small (record { aligned = omega arith; heap = omega arith; room = omega arith })

big_fails : (alloc fresh big).0 ≡ none
unfolding alloc
big_fails = refl

alloc_after_failure_example : AllNone (alloc_each (alloc fresh big).1 (small ∷ small ∷ []))
alloc_after_failure_example =
    alloc_after_failure fresh big (small ∷ small ∷ []) (omega arith)
      (record { aligned = omega arith; heap = omega arith; room = omega arith }) (omega arith)
      big_fails
