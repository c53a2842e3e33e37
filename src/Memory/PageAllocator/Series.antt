-- ===== src/Memory/PageAllocator/Series.antt =====
-- Any number of calls of `alloc`: the pages that are handed out never overlap.
use pimento.Base.{
  ℕ, zero, suc, ◌+◌, ◌*◌, ◌≤◌, ◌<◌, ◌≡◌, refl, inl, inr, arith, Option, none, some, List, [], ◌∷◌,
  Result, ok, word,
}
use pimento.Memory.Ram.{page_size}
use pimento.Memory.PageAllocator.{PageAllocator, State, PageAllocation, alloc}
use pimento.Memory.PageAllocator.Reserved.{AllApart, Ranges}
use pimento.Memory.PageAllocator.Alloc.{alloc_first_fit}

-- `n` calls; a caller that meets an error goes on to the next.
collect :
    Result PageAllocation
    → Option (List PageAllocation × State)
    → Option (List PageAllocation × State)
collect r none = none
collect (ok page) (some (pages, s)) = some (page ∷ pages, s)
collect _ (some (pages, s)) = some (pages, s)

pub alloc_many : ℕ → PageAllocator → State → Option (List PageAllocation × State)
unfolding collect
alloc_many zero pa s = some ([], s)
alloc_many (suc n) pa s = elim (alloc pa s) [
  | none ↦ none
  | some (r, s') ↦ collect r (alloc_many n pa s')
]

-- Each page begins behind the one before it, ends at the capacity at most and meets no reserved
-- range.
abbrev pub Ascending : PageAllocator → ℕ → List PageAllocation → Type 0
Ascending pa low [] = Unit
Ascending pa low (page ∷ pages) =
    ((low ≤ page.address)
      × (page.address + page_size ≤ pa.capacity)
      × AllApart page.address pa.reserved_ranges)
    × Ascending pa (page.address + page_size) pages

Ascending-le :
    (pa : PageAllocator) (low high : ℕ) (pages : List PageAllocation)
    → low ≤ high
    → Ascending pa high pages
    → Ascending pa low pages
Ascending-le pa low high [] le h = tt
Ascending-le pa low high (page ∷ pages) le h = ((omega arith, h.0.1, h.0.2), h.1)

-- `n` calls, with room for that many more pages below 2^64, return, and the pages that they hand
-- out lie one behind the other, within the capacity and clear of the reserved ranges.
pub alloc_many-Ascending :
    (n : ℕ) (pa : PageAllocator) (s : State)
    → pa.capacity + (n + 1) * page_size < word
    → s.allocated + (n + 1) * page_size < word
    → Ranges pa.reserved_ranges
    → (pages : List PageAllocation) × (s' : State) × (alloc_many n pa s ≡ some (pages, s'))
      × Ascending pa s.allocated pages
unfolding alloc_many
alloc_many-Ascending zero pa s room above good = ([], s, refl, tt)
alloc_many-Ascending (suc n) pa s room above good =
    elim (alloc_first_fit pa s (record { bounded = omega arith; below = omega arith }) good) [
      | inl (page, s', e, f) ↦
          let (pages, s'', e', up) =
            alloc_many-Ascending n pa s' (omega arith) (omega arith) good in
          (
            page ∷ pages,
            s'',
            rw (e, alloc_many) (rw e'),
            ((omega arith, f.fits, f.apart), Ascending-le pa _ s'.allocated pages (omega arith) up),
          )
      | inr (s', e, f) ↦
          let (pages, s'', e', up) =
            alloc_many-Ascending n pa s' (omega arith) (omega (arith, f.reached)) good in
          (
            pages,
            s'',
            rw (e, alloc_many) (rw e'),
            Ascending-le pa s.allocated s'.allocated pages (omega arith) up,
          )
    ]
