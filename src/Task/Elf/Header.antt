-- ===== src/Task/Elf/Header.antt =====
-- The headers of kernel/src/task/elf.rs as the bytes of a file. A structure that is `repr(C)` is
-- copied from its bytes: each field lies at its offset, the lowest byte first.
use pimento.Base.{
  ℕ, ◌+◌, ◌*◌, Bool, true, false, ◌&&◌, List, [], ◌∷◌, length, take, drop, Result, ok, err, ltb,
  ◌==◌, if◌then◌else◌,
}
use pimento.Task.Elf.{Elf64ProgramHeader}

pub record Elf64Header : Type 0 where
  pub ident_magic : List ℕ
  pub ident_class : ℕ
  pub ident_data : ℕ
  pub ident_version : ℕ
  pub ident_abi : ℕ
  pub ident_abi_version : ℕ
  pub ident_pad : List ℕ
  pub object_type : ℕ
  pub machine : ℕ
  pub version : ℕ
  pub entry_point : ℕ
  pub program_header_offset : ℕ
  pub section_header_offset : ℕ
  pub flags : ℕ
  pub header_size : ℕ
  pub program_header_entry_size : ℕ
  pub program_header_entry_count : ℕ
  pub section_header_entry_size : ℕ
  pub section_header_entry_count : ℕ
  pub section_header_string_index : ℕ

-- `size_of::<Elf64Header>()` and `size_of::<Elf64ProgramHeader>()`
abbrev pub header_size : ℕ
header_size = 64

abbrev pub program_header_size : ℕ
program_header_size = 56

abbrev pub bytes_eq : List ℕ → List ℕ → Bool
bytes_eq [] [] = true
bytes_eq (x ∷ xs) (y ∷ ys) = (x == y) && bytes_eq xs ys
bytes_eq _ _ = false

abbrev pub magic : List ℕ
magic = 0x7F ∷ 0x45 ∷ 0x4C ∷ 0x46 ∷ []

unfoldable pub is_valid : Elf64Header → Bool
is_valid h =
    bytes_eq h.ident_magic magic
    && (h.ident_class == 2)
    && (h.ident_data == 1)
    && (h.ident_version == 1)
    && (h.ident_abi == 0)
    && (h.object_type == 2)
    && (h.version == 1)
    && (h.program_header_entry_size == program_header_size)

unfoldable pub is_aarch64 : Elf64Header → Bool
is_aarch64 h = h.machine == 0xB7

-- A number of the machine, which is little-endian.
abbrev pub little_endian : List ℕ → ℕ
little_endian [] = 0
little_endian (b ∷ bs) = b + 256 * little_endian bs

abbrev pub field : ℕ → ℕ → List ℕ → ℕ
field offset width bytes = little_endian (take width (drop offset bytes))

abbrev header_of : List ℕ → Elf64Header
header_of value = record {
  ident_magic = take 4 value;
  ident_class = field 4 1 value;
  ident_data = field 5 1 value;
  ident_version = field 6 1 value;
  ident_abi = field 7 1 value;
  ident_abi_version = field 8 1 value;
  ident_pad = take 7 (drop 9 value);
  object_type = field 16 2 value;
  machine = field 18 2 value;
  version = field 20 4 value;
  entry_point = field 24 8 value;
  program_header_offset = field 32 8 value;
  section_header_offset = field 40 8 value;
  flags = field 48 4 value;
  header_size = field 52 2 value;
  program_header_entry_size = field 54 2 value;
  program_header_entry_count = field 56 2 value;
  section_header_entry_size = field 58 2 value;
  section_header_entry_count = field 60 2 value;
  section_header_string_index = field 62 2 value;
}

-- `first_chunk`: a slice that is too short is an error.
unfoldable pub parse_header : List ℕ → Result Elf64Header
parse_header value = if ltb (length value) header_size then err else ok (header_of value)

abbrev program_header_of : List ℕ → Elf64ProgramHeader
program_header_of value = record {
  segment_type = field 0 4 value;
  flags = field 4 4 value;
  file_offset = field 8 8 value;
  virtual_address = field 16 8 value;
  physical_address = field 24 8 value;
  file_size = field 32 8 value;
  memory_size = field 40 8 value;
  alignment = field 48 8 value;
}

unfoldable pub parse_program_header : List ℕ → Result Elf64ProgramHeader
parse_program_header value =
    if ltb (length value) program_header_size then err else ok (program_header_of value)
