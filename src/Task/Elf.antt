-- ===== src/Task/Elf.antt =====
-- kernel/src/task/elf.rs: the program headers, and how a segment is cut into pages.
pub mod Pages
pub mod PageBytes
pub mod Loading
pub mod Reading
pub mod Encoding
pub mod Header
pub mod Reader
mod Runs
mod ReaderRuns
use pimento.Base.{ℕ, ◌+◌, ◌*◌, ◌%◌, min, Option, none, some, if◌then◌else◌, not, ◌==◌, word}
use pimento.Memory.Address.{wrapping_add, wrapping_sub}
use pimento.Memory.Ram.{Range, page_size}

abbrev pub program_header_type_load : ℕ
program_header_type_load = 1

pub record Elf64ProgramHeader : Type 0 where
  pub segment_type : ℕ
  pub flags : ℕ
  pub file_offset : ℕ
  pub virtual_address : ℕ
  pub physical_address : ℕ
  pub file_size : ℕ
  pub memory_size : ℕ
  pub alignment : ℕ

-- The file offsets and the addresses from the bounds of a page that are counted from the address of
-- the segment.
abbrev pub ranges_at : Elf64ProgramHeader → ℕ → ℕ → Option (Range × Range)
ranges_at h offset_start offset_end =
    let virtual_address_start = wrapping_add h.virtual_address (min offset_start h.memory_size) in
    let virtual_address_end = wrapping_add h.virtual_address (min offset_end h.memory_size) in
    if virtual_address_start == virtual_address_end
    then none
    else some (
      record {
        start = wrapping_add h.file_offset (min offset_start h.file_size);
        end = wrapping_add h.file_offset (min offset_end h.file_size);
      },
      record { start = virtual_address_start; end = virtual_address_end },
    )

unfoldable pub range : Elf64ProgramHeader → ℕ → Option (Range × Range)
range h page_index =
    if not (h.segment_type == program_header_type_load)
    then none
    else let offset_start = (page_index * page_size) % word in
      let offset_end = wrapping_add offset_start page_size in
      let alignment_offset = h.virtual_address % page_size in
      ranges_at h
        (if page_index == 0 then offset_start else wrapping_sub offset_start alignment_offset)
        (wrapping_sub offset_end alignment_offset)
