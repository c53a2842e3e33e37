-- ===== src/Task/Elf/Reader.antt =====
-- `Elf64Reader` and `LoadablePages` of kernel/src/task/elf.rs, over an open file. The position of
-- the file, which is shared, is part of the state.
use pimento.Base.{
  ℕ, zero, suc, ◌-◌, not, Option, none, some, List, [], ◌∷◌, ◌++◌, length, get_elem?, take,
  replicate, Result, ok, err, panic, if◌then◌else◌,
}
use pimento.Memory.Address.{UserAddress, wrapping_add}
use pimento.Memory.Ram.{Range}
use pimento.Fs.Devfs.{CharacterDevices}
use pimento.Fs.Open as O
use pimento.Fs.Open.{File, FileSystems}
use pimento.Task.Elf.{Elf64ProgramHeader, range}
use pimento.Task.Elf.Header.{
  Elf64Header, is_valid, is_aarch64, parse_header, parse_program_header, header_size,
  program_header_size,
}

pub record Elf64Reader : Type 0 where
  pub header : Elf64Header
  pub program_headers : List Elf64ProgramHeader

pub record LoadablePages : Type 0 where
  pub program_header_index : ℕ
  pub page_index : ℕ

pub record LoadablePage : Type 0 where
  pub address : UserAddress
  pub bytes : List ℕ

-- `range.len()`
abbrev pub range_len : Range → ℕ
range_len r = r.end - r.start

-- `resize_with(len, || 0)`
abbrev pub resize : ℕ → List ℕ → List ℕ
resize len bytes = take len bytes ++ replicate (len - length bytes) 0

abbrev pub entry_point : Elf64Reader → ℕ
entry_point reader = reader.header.entry_point

abbrev pub loadable_pages : LoadablePages
loadable_pages = record { program_header_index = 0; page_index = 0 }

-- The two tests of `new`.
abbrev pub checked : Elf64Header → Result (Unit {0})
checked header =
    if not (is_valid header) then err else if not (is_aarch64 header) then err else ok tt

module _ {W : Type 0} (devices : CharacterDevices W) (live : FileSystems) where
  -- A call on the file: the devices and the position may change.
  abbrev pub Reading : Type 0 → Type 0
  Reading A = File → W → Result A × File × W

  abbrev pub after : {A B : Type 0} → Result A × File × W → (A → Reading B) → Result B × File × W
  after (ok a, f, w) next = next a f w
  after (err, f, w) next = (err, f, w)
  after (panic, f, w) next = (panic, f, w)

  infixl 5 ◌>>=◌
  abbrev pub ◌>>=◌ : {A B : Type 0} → Reading A → (A → Reading B) → Reading B
  (call >>= next) f w = after (call f w) next

  abbrev pub lift : {A : Type 0} → Result A → Reading A
  lift r f w = (r, f, w)

  abbrev pub read : ℕ → Reading (List ℕ)
  read count f w = O.read devices f count live w

  abbrev pub seek : ℕ → Reading (Unit {0})
  seek position f w = ((O.seek f position live).0, (O.seek f position live).1, w)

  -- The loop over the program headers, which lie one behind the other.
  unfoldable pub read_program_headers : ℕ → Reading (List Elf64ProgramHeader)
  read_program_headers zero = lift (ok [])
  read_program_headers (suc count) = do
    bytes ← read program_header_size
    program_header ← lift (parse_program_header bytes)
    rest ← read_program_headers count
    lift (ok (program_header ∷ rest))

  unfoldable pub new : Reading Elf64Reader
  new = do
    bytes ← read header_size
    header ← lift (parse_header bytes)
    _ ← lift (checked header)
    _ ← seek header.program_header_offset
    program_headers ← read_program_headers header.program_header_entry_count
    lift (ok (record { header = header; program_headers = program_headers }))

  -- `ok()?`: an error ends the iteration.
  abbrev pub ended :
      LoadablePages
      → Result (List ℕ) × File × W
      → (List ℕ → LoadablePage × LoadablePages)
      → Result (Option LoadablePage) × LoadablePages × File × W
  ended pages (ok bytes, f, w) next = (ok (some (next bytes).0), (next bytes).1, f, w)
  ended pages (err, f, w) next = (ok none, pages, f, w)
  ended pages (panic, f, w) next = (panic, pages, f, w)

  -- The contents of a page that `range` has found.
  abbrev pub load :
      LoadablePages
      → Range × Range
      → File
      → W
      → Result (Option LoadablePage) × LoadablePages × File × W
  load pages (file_range, memory_range) f w =
      ended pages ((do _ ← seek file_range.start; read (range_len file_range)) f w) (λ bytes. (
        record { address = memory_range.start; bytes = resize (range_len memory_range) bytes },
        record pages { page_index = wrapping_add pages.page_index 1 },
      ))

  -- The loop, on fuel: each round that goes on has one program header less before it.
  unfoldable pub next_loop :
      ℕ
      → List Elf64ProgramHeader
      → LoadablePages
      → File
      → W
      → Option (Result (Option LoadablePage) × LoadablePages × File × W)
  next_loop zero headers pages f w = none
  next_loop (suc fuel) headers pages f w =
      let skipped : LoadablePages = record {
        program_header_index = wrapping_add pages.program_header_index 1;
        page_index = 0;
      } in
      let rest = next_loop fuel headers skipped f w in
      elim (get_elem? headers pages.program_header_index) [
        | none ↦ some (ok none, pages, f, w)
        | some header ↦ elim (range header pages.page_index) [
          | none ↦ rest
          | some found ↦ some (load pages found f w)
        ]
      ]

  unfoldable pub next :
      Elf64Reader
      → LoadablePages
      → File
      → W
      → Option (Result (Option LoadablePage) × LoadablePages × File × W)
  unfolding next_loop
  next reader pages f w =
      next_loop (suc (length reader.program_headers)) reader.program_headers pages f w
