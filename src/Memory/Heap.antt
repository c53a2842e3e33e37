-- ===== src/Memory/Heap.antt =====
-- kernel/src/memory/heap.rs: the global allocator, a counter that only grows over an array of
-- `size` bytes at the address `start`. A null pointer is `none`.
pub mod Blocks
mod Runs
use pimento.Base.{ℕ, ◌+◌, ◌-◌, ◌%◌, Option, none, some, ltb, leb, ◌&&◌, if◌then◌else◌}
use pimento.Memory.Address.{wrapping_add, wrapping_sub}

pub record Allocator : Type 0 where
  pub start : ℕ
  pub size : ℕ
  pub allocated : ℕ

pub record Layout : Type 0 where
  pub size : ℕ
  pub align : ℕ

-- `align_offset` of a pointer to bytes: what takes the address to the next multiple of `align`.
unfoldable pub align_offset : ℕ → ℕ → ℕ
align_offset ptr align = (align - ptr % align) % align

pub alloc : Allocator → Layout → Option ℕ × Allocator
unfolding align_offset
alloc h layout =
    let aligned =
      wrapping_add h.allocated (align_offset (wrapping_add h.start h.allocated) layout.align) in
    let allocated = wrapping_add aligned layout.size in
    if ltb h.size allocated
    then (none, record h { allocated = allocated })
    else (some (wrapping_add h.start aligned), record h { allocated = allocated })

-- The bytes at each address. `dealloc` clears the block and gives nothing back.
abbrev pub Bytes : Type 0
Bytes = ℕ → ℕ

pub dealloc : ℕ → Layout → Allocator × Bytes → Allocator × Bytes
dealloc ptr layout (h, bytes) =
    (h, λ a. if leb ptr a && ltb a (ptr + layout.size) then 0 else bytes a)
