-- ===== src/Memory/Heap/Blocks.antt =====
-- The blocks that the heap hands out, and what a request that does not fit leaves behind.
use native.Mathlib.Nat.{
  mod-lt, mod-eq_of_lt, add-mod-mod, mod-add-mod, add-sub_of_le, mod_self, le_of_lt, add_assoc,
}
use pimento.Base.{
  ℕ, ◌+◌, ◌-◌, ◌%◌, ◌≤◌, ◌<◌, ◌≡◌, ◌≢◌, refl, sym, ap, ◌∙◌, ◌⊎◌, inl, inr, arith, Option, none,
  some, List, [], ◌∷◌, word, ltb, if◌then◌else◌, Bool-cases, ltb→lt, not_ltb,
}
use pimento.Memory.Heap.{Allocator, Layout, align_offset, alloc}

align_offset-lt : (ptr align : ℕ) → 0 < align → align_offset ptr align < align
unfolding align_offset
align_offset-lt ptr align h = mod-lt (align - ptr % align) h

-- The address behind the offset is a multiple of `align`.
align_offset_aligned : (ptr align : ℕ) → 0 < align → (ptr + align_offset ptr align) % align ≡ 0
unfolding align_offset
align_offset_aligned ptr align h =
    rw (add-mod-mod, ← mod-add-mod, add-sub_of_le (le_of_lt (mod-lt ptr h)), mod_self)

-- A request: a block of `layout.size` bytes at a power of two, both as a `Layout` holds them. Only
-- `0 < align` is used of the alignment, which may be any number.
pub record Fits (h : Allocator) (layout : Layout) : Type 0 where
  pub aligned : 0 < layout.align
  pub heap : h.start + h.size < word
  pub room : h.start + h.allocated + layout.align + layout.size < word

-- The block that starts at `p` and ends at `stop`, both counted from address 0, lies in the heap.
pub record Block (h : Allocator) (layout : Layout) (p : ℕ) (h' : Allocator) : Type 0 where
  pub low : h.start + h.allocated ≤ p
  pub size : h'.start + h'.allocated ≡ p + layout.size
  pub high : h'.start + h'.allocated ≤ h.start + h.size
  pub aligned : p % layout.align ≡ 0
  pub waste : p < h.start + h.allocated + layout.align
  pub same_start : h'.start ≡ h.start
  pub same_size : h'.size ≡ h.size

-- No block, and the counter past the end of the heap all the same.
pub record Refused (h : Allocator) (layout : Layout) (h' : Allocator) : Type 0 where
  pub full : h.size < h'.allocated
  pub counted :
      h'.allocated ≡ h.allocated + align_offset (h.start + h.allocated) layout.align + layout.size
  pub same_start : h'.start ≡ h.start
  pub same_size : h'.size ≡ h.size

module _ (h : Allocator) (layout : Layout) (fits : Fits h layout) where
  offset : ℕ
  offset = align_offset (h.start + h.allocated) layout.align

  -- The sums of `alloc` do not wrap.
  alloc_exact : alloc h layout ≡ (
      if ltb h.size (h.allocated + offset + layout.size)
      then (none, record h { allocated = h.allocated + offset + layout.size })
      else (
        some (h.start + (h.allocated + offset)),
        record h { allocated = h.allocated + offset + layout.size },
      ))
  unfolding alloc offset
  alloc_exact =
      let small = align_offset-lt (h.start + h.allocated) layout.align fits.aligned in
      let e : (h.start + h.allocated) % word ≡ h.start + h.allocated =
        mod-eq_of_lt (omega (arith, fits.room)) in
      rw (
        e,
        mod-eq_of_lt {n = h.allocated + offset} {m = word} (omega (arith, small, fits.room)),
        mod-eq_of_lt {n = h.allocated + offset + layout.size} {m = word}
            (omega (arith, small, fits.room)),
        mod-eq_of_lt {n = h.start + (h.allocated + offset)} {m = word}
            (omega (arith, small, fits.room)),
      )

  -- A request whose sums fit a machine word gets a block behind everything that is counted as
  -- allocated, aligned as asked and inside the heap, and wastes less than the alignment; or,
  -- exactly when the offset and the size lead past the end of the heap, no block.
  pub alloc_lem :
      ((p : ℕ) × (h' : Allocator) × (alloc h layout ≡ (some p, h')) × Block h layout p h')
      ⊎ ((h' : Allocator) × (alloc h layout ≡ (none, h')) × Refused h layout h')
  unfolding offset
  alloc_lem = elim (Bool-cases (ltb h.size (h.allocated + offset + layout.size))) [
    | inl full ↦ inr (
      record h { allocated = h.allocated + offset + layout.size },
      rw (alloc_exact, full),
      record { full = ltb→lt _ _ full; counted = refl; same_start = refl; same_size = refl },
    )
    | inr room ↦ inl (
      h.start + (h.allocated + offset),
      record h { allocated = h.allocated + offset + layout.size },
      rw (alloc_exact, room),
      record {
        low = omega arith;
        size = omega arith;
        high = omega (arith, not_ltb _ _ room);
        aligned =
            rw (← add_assoc)
              (align_offset_aligned (h.start + h.allocated) layout.align fits.aligned);
        waste = omega (arith, align_offset-lt (h.start + h.allocated) layout.align fits.aligned);
        same_start = refl;
        same_size = refl;
      },
    )
  ]

some≢none : (p : ℕ) → some p ≢ none
some≢none p e = cc

-- From a counter past the end no request gets a block, and the counter stays past the end.
alloc_past_end :
    (h : Allocator) (layout : Layout)
    → Fits h layout
    → h.size < h.allocated
    → (h' : Allocator) × (alloc h layout ≡ (none, h')) × Refused h layout h'
alloc_past_end h layout fits past = elim (alloc_lem h layout fits) [
  | inl (p, h', e, b) ↦ absurd (omega (arith, b.low, b.size, b.high))
  | inr refused ↦ refused
]

abbrev pub alloc_each : Allocator → List Layout → List (Option ℕ)
alloc_each h [] = []
alloc_each h (l ∷ ls) = (alloc h l).0 ∷ alloc_each (alloc h l).1 ls

abbrev pub AllNone : List (Option ℕ) → Type 0
AllNone [] = Unit
AllNone (p ∷ ps) = (p ≡ none) × AllNone ps

-- What the requests ask for together, each with its alignment.
abbrev pub demand : List Layout → ℕ
demand [] = 0
demand (l ∷ ls) = l.align + l.size + demand ls

abbrev pub Aligned : List Layout → Type 0
Aligned [] = Unit
Aligned (l ∷ ls) = (0 < l.align) × Aligned ls

each_past_end :
    (h : Allocator) (ls : List Layout)
    → Aligned ls
    → h.start + h.size < word
    → h.start + h.allocated + demand ls < word
    → h.size < h.allocated
    → AllNone (alloc_each h ls)
each_past_end h [] aligned heap room past = tt
each_past_end h (l ∷ ls) aligned heap room past =
    let fits : Fits h l = record { aligned = aligned.0; heap = heap; room = omega arith } in
    let (h', e, r) = alloc_past_end h l fits past in
    let rest =
      each_past_end h' ls aligned.1 (omega (arith, r.same_start, r.same_size))
        (omega (
          arith,
          r.same_start,
          r.counted,
          align_offset-lt (h.start + h.allocated) l.align aligned.0,
        ))
        (omega (arith, r.full, r.same_size)) in
    rw e (refl, rest)

-- Once a request has failed, each later request fails too, however small and however much of the
-- heap is unused. The alignments are positive, and the sums of all the requests fit a machine word.
pub alloc_after_failure :
    (h : Allocator) (big : Layout) (later : List Layout)
    → Aligned later
    → Fits h big
    → h.start + h.allocated + big.align + big.size + demand later < word
    → (alloc h big).0 ≡ none
    → AllNone (alloc_each (alloc h big).1 later)
alloc_after_failure h big later aligned fits room failed = elim (alloc_lem h big fits) [
  | inl (p, h', e, b) ↦ absurd (some≢none p (sym (ap (λ r. r.0) e) ∙ failed))
  | inr (h', e, r) ↦ rw e (
      each_past_end h' later aligned (omega (arith, fits.heap, r.same_start, r.same_size))
        (omega (
          arith,
          r.same_start,
          r.counted,
          align_offset-lt (h.start + h.allocated) big.align fits.aligned,
        ))
        (omega (arith, r.full, r.same_size)))
]
