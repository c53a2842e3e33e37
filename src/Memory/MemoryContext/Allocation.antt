-- ===== src/Memory/MemoryContext/Allocation.antt =====
-- A page for a memory context from the allocator, and how it is linked to a row.
use pimento.Base.{
  ℕ, ◌+◌, ◌*◌, ◌%◌, ◌^◌, ◌≤◌, ◌<◌, ◌≡◌, ◌≢◌, refl, ◌⊎◌, inl, inr, arith, some, [], ◌∷◌, ◌++◌, ok,
  err, ap,
}
use pimento.Memory.Mapper.{virtual_address, va_start, virtual_address-add}
use pimento.Memory.Ram.{zero_page, write}
use pimento.Memory.PageAllocator
use pimento.Memory.PageAllocator.{PageAllocator, PageAllocation, alloc}
use pimento.Memory.PageAllocator.Reserved.{Ranges}
use pimento.Memory.PageAllocator.Alloc.{Sized, Refuses, alloc_first_fit}
use pimento.Memory.MemoryContext.{MemoryContext, State, alloc_page_raw}
use pimento.Memory.MemoryContext.Regions.{row_at, target, Taken}
use pimento.Memory.MemoryContext.Growth.{Links}

-- The allocator of a context: its counter has room for one more page, its reserved ranges hold an
-- address, and its memory is below 2^48.
pub record Ready (pa : PageAllocator) (pages : PageAllocator.State) : Type 0 where
  pub sized : Sized pa pages.allocated
  pub ranges : Ranges pa.reserved_ranges
  pub addressable : pa.capacity ≤ 2 ^ 48
  pub aligned : pages.allocated % 4096 ≡ 0

-- A page that was not handed out before, cleared and put on record.
pub record Fresh (pa : PageAllocator) (s : State) (page : PageAllocation) (s' : State)
    : Type 0 where
  pub ptr : page.ptr ≡ virtual_address page.address
  pub aligned : page.address % 4096 ≡ 0
  pub fresh : s.pages.allocated ≤ page.address
  pub advanced : s'.pages.allocated ≡ page.address + 4096
  pub fits : page.address + 4096 ≤ pa.capacity
  pub cleared : s'.pages.ram ≡ zero_page (virtual_address page.address) s.pages.ram
  pub on_record : s'.page_allocations ≡ s.page_allocations ++ page ∷ []

-- No page is left.
pub record Full (pa : PageAllocator) (s s' : State) : Type 0 where
  pub ram : s'.pages.ram ≡ s.pages.ram
  pub on_record : s'.page_allocations ≡ s.page_allocations
  pub advanced : s.pages.allocated ≤ s'.pages.allocated
  pub aligned : s'.pages.allocated % 4096 ≡ 0
  pub refuses : Refuses pa s.pages s'.pages

pub alloc_page_raw-cases :
    (context : MemoryContext) (s : State)
    → Ready context.page_allocator s.pages
    → ((page : PageAllocation) × (s' : State) × (alloc_page_raw context s ≡ some (ok page, s'))
        × Fresh context.page_allocator s page s')
      ⊎ ((s' : State) × (alloc_page_raw context s ≡ some (err, s'))
          × Full context.page_allocator s s')
unfolding alloc_page_raw
alloc_page_raw-cases context s ready =
    elim (alloc_first_fit context.page_allocator s.pages ready.sized ready.ranges) [
      | inl (page, pages, e, found) ↦ inl (
        page,
        record { pages = pages; page_allocations = s.page_allocations ++ page ∷ [] },
        rw (alloc_page_raw, e) refl,
        record {
          ptr = found.ptr;
          aligned = omega (arith, found.address, ready.aligned);
          fresh = omega (arith, found.address);
          advanced = found.advanced;
          fits = found.fits;
          cleared = rw found.cleared (ap (λ ptr. zero_page ptr s.pages.ram) found.ptr);
          on_record = refl;
        },
      )
      | inr (pages, e, refused) ↦ inr (
        record { pages = pages; page_allocations = s.page_allocations },
        rw (alloc_page_raw, e) refl,
        record {
          ram = refused.kept;
          on_record = refl;
          advanced = omega (arith, refused.advanced);
          aligned = omega (arith, refused.advanced, ready.aligned);
          refuses = refused;
        },
      )
    ]

-- Written to a free row, the address of a fresh page links it.
pub fresh-Links :
    (pa : PageAllocator) (s s' : State) (page : PageAllocation) (p index v : ℕ)
    → Fresh pa s page s'
    → pa.capacity ≤ 2 ^ 48
    → Taken s.pages p
    → index < 512
    → row_at s.pages.ram p index ≡ 0
    → v % 4 ≡ 3
    → target v ≡ page.address
    → Links p index page.address s.pages
        (record s'.pages { ram = write (virtual_address p + 8 * index) v s'.pages.ram })
unfolding zero_page
fresh-Links pa s s' page p index v fresh small known in_table free typed leads = record {
  free = free;
  typed = ground (arith, typed);
  leads = ground (arith, leads);
  fresh = fresh.fresh;
  taken = omega (arith, fresh.aligned, fresh.advanced, fresh.fits);
  clear = λ offset below.
      let far : virtual_address p + 8 * index ≢ virtual_address page.address + offset = (λ e.
        omega (
          arith,
          e,
          fresh.fresh,
          known,
          window p known.2,
          window page.address (omega (arith, fresh.fits)),
        )) in
      rw fresh.cleared (ground (arith, far));
  aligned = omega (arith, fresh.aligned, fresh.advanced);
  others = λ p' offset untouched.
      let far : virtual_address p + 8 * index ≢ virtual_address p' + offset =
        (λ e. omega (arith, e, known, untouched, window p known.2, window p' untouched.0.2)) in
      let before : virtual_address p' + offset < virtual_address page.address = omega (
        arith,
        fresh.fresh,
        untouched,
        window p' untouched.0.2,
        window page.address (omega (arith, fresh.fits)),
      ) in
      rw fresh.cleared (ground (arith, far, before));
}
  where
    window : (p : ℕ) → p < 2 ^ 48 → virtual_address p ≡ va_start + p
    window = virtual_address-add
