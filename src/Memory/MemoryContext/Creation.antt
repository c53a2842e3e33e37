-- ===== src/Memory/MemoryContext/Creation.antt =====
-- A new memory context.
use native.Mathlib.Nat.{mod-eq_of_lt, div-eq_of_lt}
use pimento.Base.{
  ℕ, ◌+◌, ◌*◌, ◌/◌, ◌%◌, ◌^◌, ◌≤◌, ◌<◌, ◌≡◌, refl, ◌⊎◌, inl, inr, arith, none, some, [], ◌∷◌, ok,
  err, word, sym, ap, ◌∙◌, ◌==◌, Bool-cases, ==→≡,
}
use pimento.Base.Bits.{bit_or, bit_or_split, bit_or-zero, zero-bit_or}
use pimento.Memory.Mapper.{virtual_address, va_start, virtual_address-add, physical_address-mod}
use pimento.Memory.Ram.{zero_page}
use pimento.Memory.PageAllocator
use pimento.Memory.PageAllocator.{PageAllocator, PageAllocation, alloc}
use pimento.Memory.PageAllocator.Alloc.{Refuses, alloc_first_fit}
use pimento.Memory.PageTable.Rows.{span}
use pimento.Memory.MemoryContext.{MemoryContext, State, new, ttbr}
use pimento.Memory.MemoryContext.Regions.{region, Tree, Taken, walk-free, translate}
use pimento.Memory.MemoryContext.Growth.{gain}
use pimento.Memory.MemoryContext.Allocation.{Ready}
use pimento.Memory.MemoryContext.Mapping.{root_of, WellFormed}

-- A page with all bytes clear is a tree of its own.
pub clear-Tree :
    (root : ℕ) (pages : PageAllocator.State)
    → Taken pages root
    → pages.allocated % 4096 ≡ 0
    → ((offset : ℕ) → offset < 4096 → pages.ram (virtual_address root + offset) ≡ 0)
    → Tree root (gain (λ x. none) root (region 0 0)) pages
clear-Tree root pages known aligned clear = record {
  at_root = ground arith;
  rows = λ p level number index own deep small. elim (Bool-cases (p == root)) [
    | inl here ↦ inl (rw (==→≡ p root here) (clear (8 * index) (omega arith)))
    | inr other ↦ absurd (ground (arith, own, other))
  ];
  taken = λ p real. elim (Bool-cases (p == root)) [
    | inl here ↦ rw (==→≡ p root here) known
    | inr other ↦ absurd (real (rw other refl))
  ];
  aligned = aligned;
}

bit_or_high : (h l : ℕ) → l < 2 ^ 48 → bit_or (h * 2 ^ 48) l ≡ h * 2 ^ 48 + l
bit_or_high h l small =
    rw
      (
        bit_or_split 48 (h * 2 ^ 48) l,
        div-eq_of_lt small,
        bit_or-zero,
        low,
        zero-bit_or,
        mod-eq_of_lt small,
      )
      (omega arith)
  where
    low : h * 2 ^ 48 % 2 ^ 48 ≡ 0
    low = omega arith

-- The value for the register: the number of the context from bit 48 on, and the root table.
ttbr_value :
    (context : MemoryContext)
    → context.asid < 2 ^ 16
    → ttbr context ≡ context.asid * 2 ^ 48 + root_of context
unfolding ttbr
ttbr_value context small = rw (
  mod-eq_of_lt below,
  bit_or_high context.asid (root_of context) (omega (arith, physical_address-mod context.table_l0)),
)
  where
    below : context.asid * 2 ^ 48 < word
    below = omega (arith, small)

-- With an allocator that is ready, `new` returns a context of that allocator whose register value
-- is its number from bit 48 on and the address of its root, a page that was not handed out before.
-- The context is well-formed, owns that page alone, and translates no address below 2^48. If the
-- allocator has no page left it is an error, with the memory left alone.
pub new-translate :
    (pa : PageAllocator) (asid : ℕ) (pages : PageAllocator.State)
    → Ready pa pages
    → asid < 2 ^ 16
    → ((context : MemoryContext) × (s : State) × (new pa asid pages ≡ some (ok context, s))
        × (context.page_allocator ≡ pa)
        × (ttbr context ≡ asid * 2 ^ 48 + root_of context)
        × (pages.allocated ≤ root_of context)
        × WellFormed context (gain (λ x. none) (root_of context) (region 0 0)) s
        × ((b : ℕ) → translate s.pages.ram (root_of context) b ≡ none))
      ⊎ ((s : State) × (new pa asid pages ≡ some (err, s)) × Refuses pa pages s.pages)
unfolding new zero_page
new-translate pa asid pages ready small = elim (alloc_first_fit pa pages ready.sized ready.ranges) [
  | inr (pages', e, refused) ↦
      inr (record { pages = pages'; page_allocations = [] }, rw (new, e) refl, refused)
  | inl (page, pages', e, found) ↦
      let context : MemoryContext = record {
        page_allocator = pa;
        asid = asid;
        table_l0 = page.ptr;
      } in
      let aligned : page.address % 4096 ≡ 0 = omega (arith, found.address, ready.aligned) in
      let low : page.address < 2 ^ 48 = omega (arith, found.fits, ready.addressable) in
      let window : page.ptr ≡ va_start + page.address =
        found.ptr ∙ virtual_address-add page.address low in
      let same : root_of context ≡ page.address =
        omega (arith, physical_address-mod page.ptr, window, low) in
      let clear : (offset : ℕ)
          → offset < 4096
          → pages'.ram (virtual_address (root_of context) + offset) ≡ 0 =
        (λ offset below. rw (same, found.cleared) (ground (arith, found.ptr))) in
      inl (
        context,
        record { pages = pages'; page_allocations = page ∷ [] },
        rw (new, e) refl,
        refl,
        ttbr_value context small,
        rw same (omega (arith, found.address)),
        record {
          tree =
              clear-Tree (root_of context) pages'
                (rw same (omega (arith, aligned, found.advanced, low)))
                (omega (arith, found.advanced, aligned)) clear;
          window = found.ptr ∙ sym (ap virtual_address same);
          ready = record {
            sized = record {
              bounded = ready.sized.bounded;
              below = omega (arith, found.advanced, found.fits, ready.sized.bounded);
            };
            ranges = ready.ranges;
            addressable = ready.addressable;
            aligned = omega (arith, found.advanced, aligned);
          };
        },
        λ b.
            walk-free 3 pages'.ram 0 b (root_of context)
              (clear (8 * (b / span 0 % 512)) (omega arith)),
      )
]
