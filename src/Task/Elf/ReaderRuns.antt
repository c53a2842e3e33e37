-- ===== src/Task/Elf/ReaderRuns.antt =====
-- An executable of one segment, three bytes in the file and five in memory, read and loaded.
use pimento.Base.{
  ℕ, zero, suc, ◌≡◌, inr, refl, arith, Option, some, none, List, [], ◌∷◌, ◌++◌, length, get_elem?,
  replicate, Result, ok,
}
use pimento.Base.Map.{empty, insert}
use pimento.Fs.Node.{Node, directory, file}
use pimento.Fs.Tmpfs.{Tmpfs}
use pimento.Fs.Tmpfs as T
use pimento.Fs.Devfs.{CharacterDevices}
use pimento.Fs.FileSystem as F
use pimento.Fs.Open as O
use pimento.Fs.Open.{File, FileSystems}
use pimento.Task.Elf.{Elf64ProgramHeader, range}
use pimento.Task.Elf.Header.{Elf64Header, magic, is_valid, is_aarch64}
use pimento.Task.Elf.Encoding.{encode_header, encode_program_header}
use pimento.Task.Elf.Reading.{new-encode}
use pimento.Task.Elf.Reader.{
  Elf64Reader, LoadablePage, LoadablePages, next_loop, loadable_pages, new, next,
}
use pimento.Task.Elf.Loading.{Outcome, Readable, next_lem}

abbrev silent : CharacterDevices (Unit {0})
silent = record {
  read = λ device count w. (ok [], w);
  write = λ device buf w. (ok (length buf), w);
}

abbrev header : Elf64Header
header = record {
  ident_magic = magic;
  ident_class = 2;
  ident_data = 1;
  ident_version = 1;
  ident_abi = 0;
  ident_abi_version = 0;
  ident_pad = replicate 7 0;
  object_type = 2;
  machine = 0xB7;
  version = 1;
  entry_point = 0x1_0010;
  program_header_offset = 64;
  section_header_offset = 0;
  flags = 0;
  header_size = 64;
  program_header_entry_size = 56;
  program_header_entry_count = 1;
  section_header_entry_size = 0;
  section_header_entry_count = 0;
  section_header_string_index = 0;
}

abbrev segment : Elf64ProgramHeader
segment = record {
  segment_type = 1;
  flags = 5;
  file_offset = 120;
  virtual_address = 0x1_0010;
  physical_address = 0x1_0010;
  file_size = 3;
  memory_size = 5;
  alignment = 0x1000;
}

abbrev code : List ℕ
code = 7 ∷ 8 ∷ 9 ∷ []

abbrev contents : List ℕ
contents = encode_header header ++ (encode_program_header segment ++ code)

abbrev program : Node
program = record { file_system = 1; node_id = 1; node_type = file }

abbrev disk : Tmpfs
disk = record {
  me = 1;
  root = record { file_system = 1; node_id = 0; node_type = directory };
  node_counter = 2;
  directories = empty;
  files = insert 1 contents empty;
}

abbrev live : FileSystems
live = insert 1 (F.tmpfs disk) empty

abbrev reader : Elf64Reader
reader = record { header = header; program_headers = segment ∷ [] }

new-encode_example : (f' : File) × (new silent live (O.new_file program) tt ≡ (ok reader, f', tt))
new-encode_example =
    new-encode silent live disk program header (segment ∷ []) contents
      (encode_program_header segment ++ code) code tt refl refl (omega arith)
      (record {
        ident_magic = refl;
        ident_class = omega arith;
        ident_data = omega arith;
        ident_version = omega arith;
        ident_abi = omega arith;
        ident_abi_version = omega arith;
        ident_pad = refl;
        object_type = omega arith;
        machine = omega arith;
        version = omega arith;
        entry_point = omega arith;
        program_header_offset = omega arith;
        section_header_offset = omega arith;
        flags = omega arith;
        header_size = omega arith;
        program_header_entry_size = omega arith;
        program_header_entry_count = omega arith;
        section_header_entry_size = omega arith;
        section_header_entry_count = omega arith;
        section_header_string_index = omega arith;
      })
      (
        record {
          segment_type = omega arith;
          flags = omega arith;
          file_offset = omega arith;
          virtual_address = omega arith;
          physical_address = omega arith;
          file_size = omega arith;
          memory_size = omega arith;
          alignment = omega arith;
        },
        tt,
      )
      (unfold is_valid in refl) (unfold is_aarch64 in refl) refl (omega arith) refl refl

abbrev opened : File
opened = record { node = program; position = 0 }

-- The page has the three bytes of the file and two zeros, and there is no other.
abbrev page_of :
    Option (Result (Option LoadablePage) × LoadablePages × File × Unit {0}) → Option LoadablePage
page_of (some (ok page, _, _, _)) = page
page_of _ = none

abbrev behind :
    Option (Result (Option LoadablePage) × LoadablePages × File × Unit {0}) → Option LoadablePage
behind (some (ok _, pages, f, w)) = page_of (next silent live reader pages f w)
behind _ = none

pages_loaded :
    (page_of (next silent live reader loadable_pages opened tt)
      ≡ some (record { address = 0x1_0010; bytes = code ++ (0 ∷ 0 ∷ []) }))
    × (behind (next silent live reader loadable_pages opened tt) ≡ none)
unfolding next next_loop range O.read F.read T.read T.slice O.seek
pages_loaded = (refl, refl)

readable :
    (j : ℕ) (h : Elf64ProgramHeader)
    → get_elem? reader.program_headers j ≡ some h
    → Readable silent live disk contents (omega arith) h
readable zero h e =
    let same : h ≡ segment = cc e in
    rw same (inr (record { load = refl; memory = omega arith; file = omega arith }, omega arith))
readable (suc j) h e = absurd (cc e)

next_lem_example :
    Outcome silent live disk contents
      (omega arith)
      reader.program_headers
      loadable_pages
      opened
      tt
      (next silent live reader loadable_pages opened tt)
next_lem_example =
    next_lem silent live disk contents (omega arith) reader loadable_pages opened tt (omega arith)
      (omega arith) readable (refl, refl) (omega arith)
