-- ===== src/Memory/PageAllocator/Alloc.antt =====
-- `alloc` returns, and takes the first page that fits.
use pimento.Base.{
  ℕ, zero, suc, ◌+◌, ◌*◌, ◌/◌, ◌≤◌, ◌<◌, ◌≡◌, refl, ◌⊎◌, inl, inr, arith, true, false, Option, some,
  Result, ok, err, ltb, word, Bool-cases, ltb→lt, not_ltb,
}
use native.Mathlib.Nat.{add-zero, mod-eq_of_lt}
use pimento.Memory.Address.{PhysicalAddress}
use pimento.Memory.Mapper.{virtual_address}
use pimento.Memory.Ram.{page_size, zero_page}
use pimento.Memory.PageAllocator.{
  PageAllocator, State, PageAllocation, intersects_any, alloc_loop, alloc,
}
use pimento.Memory.PageAllocator.Reserved.{AllApart, Ranges, intersects_any-AllApart}

-- Addresses and the page behind them fit a machine word.
pub record Sized (pa : PageAllocator) (allocated : ℕ) : Type 0 where
  pub bounded : pa.capacity + page_size < word
  pub below : allocated + page_size < word

-- The candidates of a call, in order.
abbrev pub candidate : ℕ → ℕ → ℕ
candidate allocated i = allocated + i * page_size

-- The first `n` candidates meet a reserved range.
abbrev Skipped : PageAllocator → ℕ → ℕ → Type 0
Skipped pa allocated n =
    (i : ℕ) → i < n → intersects_any (candidate allocated i) pa.reserved_ranges ≡ true

record Found (pa : PageAllocator) (allocated p : ℕ) : Type 0 where
  tried : ℕ
  here : p ≡ candidate allocated tried
  fits : p + page_size ≤ pa.capacity
  free : intersects_any p pa.reserved_ranges ≡ false
  skipped : Skipped pa allocated tried

record Exhausted (pa : PageAllocator) (allocated advanced : ℕ) : Type 0 where
  tried : ℕ
  here : advanced ≡ candidate allocated (tried + 1)
  full : pa.capacity < advanced
  small : advanced < word
  reached : (tried ≡ 0) ⊎ (candidate allocated tried ≤ pa.capacity)
  skipped : Skipped pa allocated tried

abbrev Ends : PageAllocator → ℕ → Option (Result PhysicalAddress × ℕ) → Type 0
Ends pa allocated r =
    ((p : ℕ) × (r ≡ some (ok p, p + page_size)) × Found pa allocated p)
    ⊎ ((a : ℕ) × (r ≡ some (err, a)) × Exhausted pa allocated a)

Skipped-suc :
    (pa : PageAllocator) (allocated n : ℕ)
    → intersects_any allocated pa.reserved_ranges ≡ true
    → Skipped pa (allocated + page_size) n
    → Skipped pa allocated (n + 1)
Skipped-suc pa allocated n first rest zero h = rw add-zero first
Skipped-suc pa allocated n first rest (suc i) h =
    let shifted : allocated + suc i * page_size ≡ candidate (allocated + page_size) i =
      omega arith in
    rw shifted (rest i (omega arith))

-- What a later round finds is found by this one, whose candidate is reserved.
Ends-retry :
    (pa : PageAllocator) (allocated : ℕ) (r : Option (Result PhysicalAddress × ℕ))
    → allocated + page_size ≤ pa.capacity
    → intersects_any allocated pa.reserved_ranges ≡ true
    → Ends pa (allocated + page_size) r
    → Ends pa allocated r
Ends-retry pa allocated r room taken (inl (p, e, f)) = inl (
  p,
  e,
  record {
    tried = f.tried + 1;
    here = omega (arith, f.here);
    fits = f.fits;
    free = f.free;
    skipped = Skipped-suc pa allocated f.tried taken f.skipped;
  },
)
Ends-retry pa allocated r room taken (inr (a, e, x)) = inr (
  a,
  e,
  record {
    tried = x.tried + 1;
    here = omega (arith, x.here);
    full = x.full;
    small = x.small;
    reached = omega (arith, x.reached);
    skipped = Skipped-suc pa allocated x.tried taken x.skipped;
  },
)

alloc_loop_step :
    (fuel : ℕ) (pa : PageAllocator) (allocated : ℕ)
    → Sized pa allocated
    → (allocated + page_size ≤ pa.capacity
        → Ends pa (allocated + page_size) (alloc_loop fuel pa (allocated + page_size)))
    → Ends pa allocated (alloc_loop (suc fuel) pa allocated)
unfolding alloc_loop
alloc_loop_step fuel pa allocated sized again =
    rw (mod-eq_of_lt sized.below) (elim (Bool-cases (ltb pa.capacity (allocated + page_size))) [
      | inl full ↦ rw full (
          inr (
            allocated + page_size,
            refl,
            record {
              tried = 0;
              here = omega arith;
              full = ltb→lt _ _ full;
              small = sized.below;
              reached = inl refl;
              skipped = λ i h. absurd (omega arith);
            },
          ))
      | inr fits ↦ rw fits (elim (Bool-cases (intersects_any allocated pa.reserved_ranges)) [
        | inl taken ↦
            rw taken (Ends-retry pa allocated _ (not_ltb _ _ fits) taken (again (not_ltb _ _ fits)))
        | inr free ↦ rw free (
            inl (
              allocated,
              refl,
              record {
                tried = 0;
                here = omega arith;
                fits = not_ltb _ _ fits;
                free = free;
                skipped = λ i h. absurd (omega arith);
              },
            ))
      ])
    ])

alloc_loop-Ends :
    (fuel : ℕ) (pa : PageAllocator) (allocated : ℕ)
    → Sized pa allocated
    → pa.capacity < allocated + fuel * page_size
    → Ends pa allocated (alloc_loop (suc fuel) pa allocated)
alloc_loop-Ends zero pa allocated sized enough =
    alloc_loop_step zero pa allocated sized (λ room. absurd (omega arith))
alloc_loop-Ends (suc fuel) pa allocated sized enough =
    alloc_loop_step (suc fuel) pa allocated sized (λ room.
      alloc_loop-Ends fuel pa (allocated + page_size)
        (record { bounded = sized.bounded; below = omega arith }) (omega arith))

-- No candidate below `n` rounds is apart from every reserved range.
abbrev pub Blocked : PageAllocator → ℕ → ℕ → Type 0
Blocked pa allocated n = (i : ℕ) → i < n → ¬ (AllApart (candidate allocated i) pa.reserved_ranges)

-- A page `p` after `tried` candidates that were passed over, cleared and counted as allocated.
pub record Allocates (pa : PageAllocator) (s : State) (page : PageAllocation) (s' : State)
    : Type 0 where
  pub tried : ℕ
  pub address : page.address ≡ candidate s.allocated tried
  pub ptr : page.ptr ≡ virtual_address page.address
  pub fits : page.address + page_size ≤ pa.capacity
  pub apart : AllApart page.address pa.reserved_ranges
  pub first : Blocked pa s.allocated tried
  pub advanced : s'.allocated ≡ page.address + page_size
  pub cleared : s'.ram ≡ zero_page page.ptr s.ram

-- No page up to the capacity, and the memory left as it was.
pub record Refuses (pa : PageAllocator) (s s' : State) : Type 0 where
  pub tried : ℕ
  pub advanced : s'.allocated ≡ candidate s.allocated (tried + 1)
  pub full : pa.capacity < s'.allocated
  pub reached : (tried ≡ 0) ⊎ (candidate s.allocated tried ≤ pa.capacity)
  pub none_left : Blocked pa s.allocated tried
  pub kept : s'.ram ≡ s.ram

Skipped-Blocked :
    (pa : PageAllocator) (allocated n : ℕ)
    → Ranges pa.reserved_ranges
    → candidate allocated n < word
    → Skipped pa allocated n
    → Blocked pa allocated n
Skipped-Blocked pa allocated n good small skipped i h apart =
    let clear =
      (intersects_any-AllApart (candidate allocated i) pa.reserved_ranges (omega arith) good).1
        apart in
    cc (skipped i h)

module _ (pa : PageAllocator) (s : State) where
  -- A call of `alloc`, with addresses that fit a machine word and reserved ranges that hold an
  -- address, returns: the first page from `allocated` on, by steps of a page, that meets no
  -- reserved range and ends at the capacity at most, cleared and with nothing else written; or,
  -- when each such page meets a range, an error, with the memory left alone.
  pub alloc_first_fit :
      Sized pa s.allocated
      → Ranges pa.reserved_ranges
      → ((page : PageAllocation) × (s' : State) × (alloc pa s ≡ some (ok page, s'))
          × Allocates pa s page s')
        ⊎ ((s' : State) × (alloc pa s ≡ some (err, s')) × Refuses pa s s')
  unfolding alloc
  alloc_first_fit sized good =
      elim (alloc_loop-Ends (pa.capacity / page_size + 2) pa s.allocated sized (omega arith)) [
        | inl (p, e, f) ↦ inl (
          record { address = p; ptr = virtual_address p },
          record { allocated = p + page_size; ram = zero_page (virtual_address p) s.ram },
          rw (e, alloc),
          record {
            tried = f.tried;
            address = f.here;
            ptr = refl;
            fits = f.fits;
            apart = (intersects_any-AllApart p pa.reserved_ranges (omega arith) good).0 f.free;
            first = Skipped-Blocked pa s.allocated f.tried good (omega (arith, f.here)) f.skipped;
            advanced = refl;
            cleared = refl;
          },
        )
        | inr (a, e, x) ↦ inr (
          record s { allocated = a },
          rw (e, alloc),
          record {
            tried = x.tried;
            advanced = x.here;
            full = x.full;
            reached = x.reached;
            none_left =
                Skipped-Blocked pa s.allocated x.tried good (omega (arith, x.here)) x.skipped;
            kept = refl;
          },
        )
      ]
