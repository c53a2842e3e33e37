-- ===== src/Memory/PageAllocator.antt =====
-- kernel/src/memory/page.rs: pages are handed out in order of address, and none is taken back. The
-- counter behind the mutex, and the memory that the allocator clears, are the state of an
-- operation.
pub mod Reserved
pub mod Alloc
pub mod Series
mod Runs
use pimento.Base.{
  ℕ, zero, suc, ◌+◌, ◌*◌, ◌/◌, Bool, true, false, ◌||◌, Option, none, some, List, [], ◌∷◌, Result,
  ok, err, ltb, if◌then◌else◌,
}
use pimento.Memory.Address.{PhysicalAddress, wrapping_add, wrapping_sub}
use pimento.Memory.Mapper.{virtual_address}
use pimento.Memory.Ram.{Ram, Range, contains, page_size, zero_page}

-- The fields that `new` fixes.
pub record PageAllocator : Type 0 where
  pub capacity : ℕ
  pub reserved_ranges : List Range

-- What `alloc` changes: `allocated`, and the memory.
pub record State : Type 0 where
  pub allocated : ℕ
  pub ram : Ram

-- `PageAllocation`, without the reference back to the allocator, which only `drop` uses.
pub record PageAllocation : Type 0 where
  pub address : PhysicalAddress
  pub ptr : ℕ

-- The test of the inner loop for one reserved range.
unfoldable pub intersects : ℕ → Range → Bool
intersects alloc_start reserved =
    let alloc_range : Range = record {
      start = alloc_start;
      end = wrapping_add alloc_start page_size;
    } in
    contains alloc_range reserved.start
    || contains alloc_range (wrapping_sub reserved.end 1)
    || contains reserved alloc_range.start
    || contains reserved (wrapping_sub alloc_range.end 1)

-- The inner loop leaves for the next candidate at the first range that the page meets.
unfoldable pub intersects_any : ℕ → List Range → Bool
intersects_any alloc_start [] = false
intersects_any alloc_start (r ∷ rs) = intersects alloc_start r || intersects_any alloc_start rs

-- The outer loop, on fuel (`none` when that runs out): the candidate, and `allocated` at the end.
unfoldable pub alloc_loop : ℕ → PageAllocator → ℕ → Option (Result PhysicalAddress × ℕ)
alloc_loop zero pa allocated = none
alloc_loop (suc fuel) pa allocated =
    let advanced = wrapping_add allocated page_size in
    let retry = alloc_loop fuel pa advanced in
    if ltb pa.capacity advanced
    then some (err, advanced)
    else if intersects_any allocated pa.reserved_ranges
    then retry
    else some (ok allocated, advanced)

-- Each round but the first begins at most at `capacity`, and advances by a page.
abbrev pub rounds : PageAllocator → ℕ
rounds pa = suc (pa.capacity / page_size + 2)

-- A page that is found is cleared through its kernel address.
abbrev finish : State → Result PhysicalAddress × ℕ → Result PageAllocation × State
finish s (ok address, allocated) = (
  ok (record { address = address; ptr = virtual_address address }),
  record { allocated = allocated; ram = zero_page (virtual_address address) s.ram },
)
finish s (_, allocated) = (err, record s { allocated = allocated })

unfoldable pub alloc : PageAllocator → State → Option (Result PageAllocation × State)
alloc pa s = elim (alloc_loop (rounds pa) pa s.allocated) [
  | none ↦ none
  | some r ↦ some (finish s r)
]

-- Dropping an allocation clears the page again; it stays allocated.
unfoldable pub dealloc : PageAllocation → State → State
dealloc page s = record s { ram = zero_page page.ptr s.ram }
