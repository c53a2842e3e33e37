-- ===== src/Task/Elf/Encoding.antt =====
-- The headers of an executable, written as bytes: the layout of `repr(C)` from the other side.
use native.Mathlib.Nat.{pow-suc}
use pimento.Base.{
  ℕ, zero, suc, ◌/◌, ◌%◌, ◌^◌, ◌<◌, ◌≡◌, refl, arith, List, [], ◌∷◌, ◌++◌, length, ok, ap,
}
use pimento.Task.Elf.{Elf64ProgramHeader}
use pimento.Task.Elf.Header.{Elf64Header, little_endian, parse_header, parse_program_header}

-- `to_le_bytes`, of `width` bytes.
abbrev pub to_le_bytes : ℕ → ℕ → List ℕ
to_le_bytes zero n = []
to_le_bytes (suc width) n = n % 256 ∷ to_le_bytes width (n / 256)

abbrev pub encode_program_header : Elf64ProgramHeader → List ℕ
encode_program_header h =
    to_le_bytes 4 h.segment_type
    ++ (to_le_bytes 4 h.flags
        ++ (to_le_bytes 8 h.file_offset
            ++ (to_le_bytes 8 h.virtual_address
                ++ (to_le_bytes 8 h.physical_address
                    ++ (to_le_bytes 8 h.file_size
                        ++ (to_le_bytes 8 h.memory_size ++ to_le_bytes 8 h.alignment))))))

-- Each field fits its width.
pub record ProgramHeaderFits (h : Elf64ProgramHeader) : Type 0 where
  pub segment_type : h.segment_type < 2 ^ 32
  pub flags : h.flags < 2 ^ 32
  pub file_offset : h.file_offset < 2 ^ 64
  pub virtual_address : h.virtual_address < 2 ^ 64
  pub physical_address : h.physical_address < 2 ^ 64
  pub file_size : h.file_size < 2 ^ 64
  pub memory_size : h.memory_size < 2 ^ 64
  pub alignment : h.alignment < 2 ^ 64

little_endian-to_le_bytes :
    (width n : ℕ) → n < 256 ^ width → little_endian (to_le_bytes width n) ≡ n
little_endian-to_le_bytes zero n small = omega arith
little_endian-to_le_bytes (suc width) n small = omega (
  arith,
  pow-suc 256 width,
  little_endian-to_le_bytes width (n / 256) (omega (arith, pow-suc 256 width)),
)

pub parse_program_header-encode :
    (h : Elf64ProgramHeader)
    → ProgramHeaderFits h
    → parse_program_header (encode_program_header h) ≡ ok h
unfolding parse_program_header
parse_program_header-encode h fits =
    rw
      (
        little_endian-to_le_bytes 4 h.segment_type fits.segment_type,
        little_endian-to_le_bytes 4 h.flags fits.flags,
        little_endian-to_le_bytes 8 h.file_offset fits.file_offset,
        little_endian-to_le_bytes 8 h.virtual_address fits.virtual_address,
        little_endian-to_le_bytes 8 h.physical_address fits.physical_address,
        little_endian-to_le_bytes 8 h.file_size fits.file_size,
        little_endian-to_le_bytes 8 h.memory_size fits.memory_size,
        little_endian-to_le_bytes 8 h.alignment fits.alignment,
      )
      refl

-- The fields from the type of the object on.
abbrev encode_rest : Elf64Header → List ℕ
encode_rest h =
    to_le_bytes 2 h.object_type
    ++ (to_le_bytes 2 h.machine
        ++ (to_le_bytes 4 h.version
            ++ (to_le_bytes 8 h.entry_point
                ++ (to_le_bytes 8 h.program_header_offset
                    ++ (to_le_bytes 8 h.section_header_offset
                        ++ (to_le_bytes 4 h.flags
                            ++ (to_le_bytes 2 h.header_size
                                ++ (to_le_bytes 2 h.program_header_entry_size
                                    ++ (to_le_bytes 2 h.program_header_entry_count
                                        ++ (to_le_bytes 2 h.section_header_entry_size
                                            ++ (to_le_bytes 2 h.section_header_entry_count
                                                ++ to_le_bytes 2
                                                    h.section_header_string_index)))))))))))

abbrev pub encode_header : Elf64Header → List ℕ
encode_header h =
    h.ident_magic
    ++ (to_le_bytes 1 h.ident_class
        ++ (to_le_bytes 1 h.ident_data
            ++ (to_le_bytes 1 h.ident_version
                ++ (to_le_bytes 1 h.ident_abi
                    ++ (to_le_bytes 1 h.ident_abi_version ++ (h.ident_pad ++ encode_rest h))))))

pub record HeaderFits (h : Elf64Header) : Type 0 where
  pub ident_magic : length h.ident_magic ≡ 4
  pub ident_class : h.ident_class < 2 ^ 8
  pub ident_data : h.ident_data < 2 ^ 8
  pub ident_version : h.ident_version < 2 ^ 8
  pub ident_abi : h.ident_abi < 2 ^ 8
  pub ident_abi_version : h.ident_abi_version < 2 ^ 8
  pub ident_pad : length h.ident_pad ≡ 7
  pub object_type : h.object_type < 2 ^ 16
  pub machine : h.machine < 2 ^ 16
  pub version : h.version < 2 ^ 32
  pub entry_point : h.entry_point < 2 ^ 64
  pub program_header_offset : h.program_header_offset < 2 ^ 64
  pub section_header_offset : h.section_header_offset < 2 ^ 64
  pub flags : h.flags < 2 ^ 32
  pub header_size : h.header_size < 2 ^ 16
  pub program_header_entry_size : h.program_header_entry_size < 2 ^ 16
  pub program_header_entry_count : h.program_header_entry_count < 2 ^ 16
  pub section_header_entry_size : h.section_header_entry_size < 2 ^ 16
  pub section_header_entry_count : h.section_header_entry_count < 2 ^ 16
  pub section_header_string_index : h.section_header_string_index < 2 ^ 16

-- A list of a known length, by its elements, so that what follows it can be counted off.
four : (xs : List ℕ) → length xs ≡ 4 → (a b c d : ℕ) × (xs ≡ a ∷ b ∷ c ∷ d ∷ [])
four (a ∷ b ∷ c ∷ d ∷ []) e = (a, b, c, d, refl)
four [] e = absurd (omega (arith, e))
four (a ∷ []) e = absurd (omega (arith, e))
four (a ∷ b ∷ []) e = absurd (omega (arith, e))
four (a ∷ b ∷ c ∷ []) e = absurd (omega (arith, e))
four (a ∷ b ∷ c ∷ d ∷ x ∷ xs) e = absurd (omega (arith, e))

seven : (xs : List ℕ) → length xs ≡ 7 → (a b c d e f g : ℕ) × (xs ≡ a ∷ b ∷ c ∷ d ∷ e ∷ f ∷ g ∷ [])
seven (a ∷ b ∷ c ∷ xs) e =
    let (d, f, g, h, rest) = four xs (omega (arith, e)) in
    (a, b, c, d, f, g, h, ap (λ t. a ∷ b ∷ c ∷ t) rest)
seven [] e = absurd (omega (arith, e))
seven (a ∷ []) e = absurd (omega (arith, e))
seven (a ∷ b ∷ []) e = absurd (omega (arith, e))

pub parse_header-encode : (h : Elf64Header) → HeaderFits h → parse_header (encode_header h) ≡ ok h
unfolding parse_header
parse_header-encode h fits =
    let (_, _, _, _, magic) = four h.ident_magic fits.ident_magic in
    let (_, _, _, _, _, _, _, pad) = seven h.ident_pad fits.ident_pad in
    rw
      (
        magic,
        pad,
        little_endian-to_le_bytes 1 h.ident_class fits.ident_class,
        little_endian-to_le_bytes 1 h.ident_data fits.ident_data,
        little_endian-to_le_bytes 1 h.ident_version fits.ident_version,
        little_endian-to_le_bytes 1 h.ident_abi fits.ident_abi,
        little_endian-to_le_bytes 1 h.ident_abi_version fits.ident_abi_version,
        little_endian-to_le_bytes 2 h.object_type fits.object_type,
        little_endian-to_le_bytes 2 h.machine fits.machine,
        little_endian-to_le_bytes 4 h.version fits.version,
        little_endian-to_le_bytes 8 h.entry_point fits.entry_point,
        little_endian-to_le_bytes 8 h.program_header_offset fits.program_header_offset,
        little_endian-to_le_bytes 8 h.section_header_offset fits.section_header_offset,
        little_endian-to_le_bytes 4 h.flags fits.flags,
        little_endian-to_le_bytes 2 h.header_size fits.header_size,
        little_endian-to_le_bytes 2 h.program_header_entry_size fits.program_header_entry_size,
        little_endian-to_le_bytes 2 h.program_header_entry_count fits.program_header_entry_count,
        little_endian-to_le_bytes 2 h.section_header_entry_size fits.section_header_entry_size,
        little_endian-to_le_bytes 2 h.section_header_entry_count fits.section_header_entry_count,
        little_endian-to_le_bytes 2 h.section_header_string_index fits.section_header_string_index,
      )
      refl

pub length-encode_header : (h : Elf64Header) → HeaderFits h → length (encode_header h) ≡ 64
length-encode_header h fits =
    let (_, _, _, _, magic) = four h.ident_magic fits.ident_magic in
    let (_, _, _, _, _, _, _, pad) = seven h.ident_pad fits.ident_pad in rw (magic, pad) refl
