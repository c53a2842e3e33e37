-- ===== src/Task/Elf/Pages.antt =====
-- The pages of a segment: where each lies, and that they cover it once.
use pimento.Base.{
  ℕ, ◌+◌, ◌-◌, ◌*◌, ◌/◌, ◌%◌, ◌≤◌, ◌<◌, ◌≡◌, ◌⊎◌, inl, inr, refl, sym, ap, ◌∙◌, arith, min, false,
  Bool-cases, Option, none, some, if◌then◌else◌, not, leb, leb→le, not_leb, ◌==◌, word,
}
use pimento.Memory.Address.{wrapping_add, wrapping_sub}
use pimento.Memory.Ram.{Range, page_size}
use pimento.Task.Elf.{Elf64ProgramHeader, program_header_type_load, range, ranges_at}

-- A loadable segment that ends below the machine word, in memory and in the file.
pub record Loadable (h : Elf64ProgramHeader) : Type 0 where
  pub load : h.segment_type ≡ program_header_type_load
  pub memory : h.virtual_address + h.memory_size < word
  pub file : h.file_offset + h.file_size < word

-- The bounds of page `i`, counted from the segment's address, which lies somewhere in page 0.
abbrev pub from_offset : Elf64ProgramHeader → ℕ → ℕ
from_offset h i = if i == 0 then 0 else i * page_size - h.virtual_address % page_size

abbrev pub to_offset : Elf64ProgramHeader → ℕ → ℕ
to_offset h i = i * page_size + page_size - h.virtual_address % page_size

module _ (h : Elf64ProgramHeader) (loadable : Loadable h) (i : ℕ)
    (small : i * page_size + page_size < word) where
  abbrev slack : ℕ
  slack = h.virtual_address % page_size

  slack_lt : slack < page_size
  slack_lt = omega arith

  end_lem : wrapping_sub (wrapping_add (i * page_size % word) page_size) slack ≡ to_offset h i
  end_lem = omega (arith, slack_lt)

  start_lem :
      (if i == 0 then i * page_size % word else wrapping_sub (i * page_size % word) slack)
      ≡ from_offset h i
  start_lem = ground (arith, slack_lt)

  range-offsets : range h i ≡ ranges_at h (from_offset h i) (to_offset h i)
  unfolding range
  range-offsets =
      rw (ap (λ t. not (t == program_header_type_load)) loadable.load, range)
        (ap
            (λ a.
              ranges_at h a (wrapping_sub (wrapping_add (i * page_size % word) page_size) slack))
            start_lem
          ∙ ap (λ b. ranges_at h (from_offset h i) b) end_lem)

  abbrev pub file_range : Range
  file_range = record {
    start = h.file_offset + min (from_offset h i) h.file_size;
    end = h.file_offset + min (to_offset h i) h.file_size;
  }

  abbrev pub memory_range : Range
  memory_range = record {
    start = h.virtual_address + from_offset h i;
    end = h.virtual_address + min (to_offset h i) h.memory_size;
  }

  pub range-none : h.memory_size ≤ from_offset h i → range h i ≡ none
  range-none past = range-offsets ∙ ground (arith, slack_lt)

  pub range-some : from_offset h i < h.memory_size → range h i ≡ some (file_range, memory_range)
  range-some within = range-offsets ∙ exact
    where
      m_start :
          wrapping_add h.virtual_address (min (from_offset h i) h.memory_size)
          ≡ h.virtual_address + from_offset h i
      m_start = omega (arith, loadable.memory)

      m_end :
          wrapping_add h.virtual_address (min (to_offset h i) h.memory_size)
          ≡ h.virtual_address + min (to_offset h i) h.memory_size
      m_end = omega (arith, loadable.memory)

      f_start : wrapping_add h.file_offset (min (from_offset h i) h.file_size) ≡ file_range.start
      f_start = omega (arith, loadable.file)

      f_end : wrapping_add h.file_offset (min (to_offset h i) h.file_size) ≡ file_range.end
      f_end = omega (arith, loadable.file)

      apart :
          (h.virtual_address + from_offset h i
            == h.virtual_address + min (to_offset h i) h.memory_size)
          ≡ false
      apart = ground (arith, slack_lt)

      exact : ranges_at h (from_offset h i) (to_offset h i) ≡ some (file_range, memory_range)
      exact = rw (ranges_at, m_start, m_end, f_start, f_end, apart) refl

-- The ranges of page `i`: `f` in the file and `m` in memory.
pub record Page (h : Elf64ProgramHeader) (i : ℕ) (f m : Range) : Type 0 where
  pub not_empty : m.start < m.end
  pub in_page :
      (m.start / page_size ≡ h.virtual_address / page_size + i)
      × (m.end ≤ (h.virtual_address / page_size + i + 1) * page_size)
  pub begins :
      ((i ≡ 0) × (m.start ≡ h.virtual_address))
      ⊎ (m.start ≡ (h.virtual_address / page_size + i) * page_size)
  pub ends :
      (m.end ≡ (h.virtual_address / page_size + i + 1) * page_size)
      ⊎ (m.end ≡ h.virtual_address + h.memory_size)
  pub inside : m.end ≤ h.virtual_address + h.memory_size
  pub fits : (h.memory_size < h.file_size) ⊎ (f.end - f.start ≤ m.end - m.start)

module _ (h : Elf64ProgramHeader) (i : ℕ) where
  start-cases :
      ((i ≡ 0) × (from_offset h i ≡ 0))
      ⊎ (h.virtual_address + from_offset h i ≡ (h.virtual_address / page_size + i) * page_size)
  start-cases = elim (Bool-cases (i == 0)) [
    | inl first ↦ inl (ground arith)
    | inr later ↦ inr (rw later (ground arith))
  ]

  end-page : h.virtual_address + to_offset h i ≡ (h.virtual_address / page_size + i + 1) * page_size
  end-page = omega arith

-- `range` for a loadable segment and a page number whose page ends below the machine word. It is
-- nothing exactly from the end of the segment on. Before that, the page is not empty, lies within
-- one page of memory, begins at that page's boundary or, for number 0, at the segment's address,
-- ends at the next boundary or with the segment, never behind it, and takes no more bytes from the
-- file than it has room for, if the whole segment does not.
pub range_lem :
    (h : Elf64ProgramHeader) (i : ℕ)
    → Loadable h
    → i * page_size + page_size < word
    → ((range h i ≡ none)
        × (h.virtual_address + h.memory_size ≤ h.virtual_address + from_offset h i))
      ⊎ ((f : Range) × (m : Range) × (range h i ≡ some (f, m))
          × (from_offset h i < h.memory_size)
          × Page h i f m)
range_lem h i loadable small = elim (Bool-cases (leb h.memory_size (from_offset h i))) [
  | inl past ↦ inl (range-none h loadable i small (leb→le _ _ past), omega (arith, leb→le _ _ past))
  | inr before ↦
      let start_cases = start-cases h i in
      let within = not_leb h.memory_size (from_offset h i) before in
      inr (
        file_range h loadable i small,
        memory_range h loadable i small,
        range-some h loadable i small within,
        within,
        record {
          not_empty = omega (arith, end-page h i, slack_lt h loadable i small, start_cases);
          in_page = (
            elim start_cases [ inl first ↦ ground arith | inr later ↦ omega arith ],
            omega (arith, end-page h i),
          );
          begins = elim start_cases [
            | inl (first, zero_offset) ↦ inl (first, omega arith)
            | inr later ↦ inr later
          ];
          ends = ground (arith, end-page h i);
          inside = omega arith;
          fits = elim (Bool-cases (leb h.file_size h.memory_size)) [
            | inl smaller ↦ inr (omega (arith, leb→le _ _ smaller))
            | inr larger ↦ inl (not_leb _ _ larger)
          ];
        },
      )
]

Page-position :
    (h : Elf64ProgramHeader) (i : ℕ) (f m : Range) (x : ℕ)
    → Page h i f m
    → m.start ≤ x
    → x < m.end
    → i ≡ x / page_size - h.virtual_address / page_size
Page-position h i f m x page from to = omega (arith, page.in_page)

same_memory :
    {o : Option (Range × Range)} {f f' m m' : Range} → o ≡ some (f, m) → o ≡ some (f', m') → m ≡ m'
same_memory e e' =
    ap (λ o. elim o [ none ↦ record { start = 0; end = 0 } | some pair ↦ pair.1 ]) (sym e ∙ e')

-- Every address of a loadable segment that ends a page below the machine word is in one page, and
-- in no other: its number is how many pages the address is behind the segment's first one. If the
-- segment has a byte for it in the file, that byte is in the file range of the page, as far from
-- the start of it as the address is from the start of the memory range.
pub range-covers :
    (h : Elf64ProgramHeader) (x : ℕ)
    → Loadable h
    → h.virtual_address + h.memory_size + page_size < word
    → h.virtual_address ≤ x
    → x < h.virtual_address + h.memory_size
    → (i : ℕ) × (f : Range) × (m : Range) × (i ≡ x / page_size - h.virtual_address / page_size)
      × (range h i ≡ some (f, m))
      × (m.start ≤ x)
      × (x < m.end)
      × ((h.file_size ≤ x - h.virtual_address)
          ⊎ ((f.start + (x - m.start) ≡ h.file_offset + (x - h.virtual_address))
              × (f.start + (x - m.start) < f.end)))
      × ((j : ℕ) (f' m' : Range)
          → j * page_size + page_size < word
          → range h j ≡ some (f', m')
          → m'.start ≤ x
          → x < m'.end
          → j ≡ i)
range-covers h x loadable room from to =
    let i = x / page_size - h.virtual_address / page_size in
    let small : i * page_size + page_size < word = omega arith in
    let start_cases = start-cases h i in
    let low : h.virtual_address + from_offset h i ≤ x = ground arith in
    let high : x < h.virtual_address + to_offset h i = omega (arith, end-page h i) in
    (
      i,
      file_range h loadable i small,
      memory_range h loadable i small,
      refl,
      range-some h loadable i small (omega arith),
      low,
      omega arith,
      elim (Bool-cases (leb h.file_size (x - h.virtual_address))) [
        | inl zeroed ↦ inl (leb→le _ _ zeroed)
        | inr stored ↦
            let inside = not_leb h.file_size (x - h.virtual_address) stored in
            inr (omega arith, omega arith)
      ],
      λ j f' m' small' e s t. elim (range_lem h j loadable small') [
        | inl (nothing, _) ↦ ground arith
        | inr (f'', m'', e'', _, page) ↦
            Page-position h j f'' m'' x page (omega (arith, ap Range.start (same_memory e'' e)))
              (omega (arith, ap Range.end (same_memory e'' e)))
      ],
    )
