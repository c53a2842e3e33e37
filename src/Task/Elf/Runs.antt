-- ===== src/Task/Elf/Runs.antt =====
-- A segment of three pages that begins inside a page, and the theorems at it.
use pimento.Base.{ℕ, ◌+◌, ◌-◌, ◌*◌, ◌/◌, ◌≡◌, ◌≤◌, ◌<◌, ◌⊎◌, refl, arith, none, some, word}
use pimento.Memory.Ram.{Range, page_size}
use pimento.Task.Elf.{Elf64ProgramHeader, range}
use pimento.Task.Elf.Pages.{Loadable, Page, from_offset, range_lem, range-covers}

abbrev segment : Elf64ProgramHeader
segment = record {
  segment_type = 1;
  flags = 5;
  file_offset = 0x800;
  virtual_address = 0x1_0800;
  physical_address = 0x1_0800;
  file_size = 0x1000;
  memory_size = 0x1C00;
  alignment = 0x1000;
}

loadable : Loadable segment
loadable = record { load = refl; memory = omega arith; file = omega arith }

-- The last page has nothing left in the file from 0x1800 on.
cuts :
    (range segment 0
      ≡ some (record { start = 0x800; end = 0x1000 }, record { start = 0x1_0800; end = 0x1_1000 }))
    × (range segment 2
        ≡ some
            (record { start = 0x1800; end = 0x1800 }, record { start = 0x1_2000; end = 0x1_2400 }))
    × (range segment 3 ≡ none)
unfolding range
cuts = (refl, refl, refl)

range_lem_example :
    ((range segment 1 ≡ none) × (0x1_0800 + 0x1C00 ≤ 0x1_0800 + from_offset segment 1))
    ⊎ ((f : Range) × (m : Range) × (range segment 1 ≡ some (f, m))
        × (from_offset segment 1 < 0x1C00)
        × Page segment 1 f m)
range_lem_example = range_lem segment 1 loadable (omega arith)

range-covers_example :
    (i : ℕ) × (f : Range) × (m : Range) × (i ≡ 0x1_1234 / page_size - 0x1_0800 / page_size)
    × (range segment i ≡ some (f, m))
    × (m.start ≤ 0x1_1234)
    × (0x1_1234 < m.end)
    × ((0x1000 ≤ 0x1_1234 - 0x1_0800)
        ⊎ ((f.start + (0x1_1234 - m.start) ≡ 0x800 + (0x1_1234 - 0x1_0800))
            × (f.start + (0x1_1234 - m.start) < f.end)))
    × ((j : ℕ) (f' m' : Range)
        → j * page_size + page_size < word
        → range segment j ≡ some (f', m')
        → m'.start ≤ 0x1_1234
        → 0x1_1234 < m'.end
        → j ≡ i)
range-covers_example =
    range-covers segment 0x1_1234 loadable (omega arith) (omega arith) (omega arith)
