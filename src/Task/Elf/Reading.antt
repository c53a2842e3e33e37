-- ===== src/Task/Elf/Reading.antt =====
-- `Elf64Reader::new` on a file that is written in the layout of an executable.
use native.Mathlib.Nat.{mod-eq_of_lt}
use pimento.Base.{
  ℕ, zero, suc, ◌+◌, ◌-◌, ◌*◌, ◌≤◌, ◌<◌, ◌≡◌, refl, sym, ap, ◌∙◌, arith, true, min, some, List, [],
  ◌∷◌, ◌++◌, length, take, drop, length-append, length-drop, ok, word,
}
use pimento.Fs.Tmpfs.{Tmpfs}
use pimento.Fs.Tmpfs.Files.{read-take}
use pimento.Fs.Tmpfs.Slices.{take_append_at}
use pimento.Fs.Node.{Node}
use pimento.Fs.Devfs.{CharacterDevices}
use pimento.Fs.FileSystem as F
use pimento.Fs.Open as O
use pimento.Fs.Open.{File, FileSystems}
use pimento.Task.Elf.{Elf64ProgramHeader}
use pimento.Task.Elf.Header.{Elf64Header, is_valid, is_aarch64, header_size, program_header_size}
use pimento.Task.Elf.Encoding.{
  length-encode_header, encode_header, encode_program_header, HeaderFits, ProgramHeaderFits,
  parse_header-encode, parse_program_header-encode,
}
use pimento.Task.Elf.Reader.{checked, read, seek, read_program_headers, new}

-- The program headers one behind the other, each fitting.
abbrev pub encode_all : List Elf64ProgramHeader → List ℕ
encode_all [] = []
encode_all (h ∷ hs) = encode_program_header h ++ encode_all hs

abbrev pub AllFit : List Elf64ProgramHeader → Type 0
AllFit [] = Unit {0}
AllFit (h ∷ hs) = ProgramHeaderFits h × AllFit hs

module _ {ℓ} {A : Type ℓ} where
  pub append_assoc : (xs ys zs : List A) → (xs ++ ys) ++ zs ≡ xs ++ (ys ++ zs)
  append_assoc [] ys zs = refl
  append_assoc (x ∷ xs) ys zs = ap (λ t. x ∷ t) (append_assoc xs ys zs)

  drop-empty : (n : ℕ) → drop {A = A} n [] ≡ []
  drop-empty zero = refl
  drop-empty (suc n) = refl

  pub drop-drop : (m n k : ℕ) (xs : List A) → k ≡ m + n → drop n (drop m xs) ≡ drop k xs
  drop-drop zero n k xs e = ap (λ (i : ℕ). drop i xs) (omega (arith, e))
  drop-drop (suc m) n zero xs e = absurd (omega (arith, e))
  drop-drop (suc m) n (suc k) [] e = drop-empty n
  drop-drop (suc m) n (suc k) (x ∷ xs) e = drop-drop m n k xs (omega (arith, e))

-- The file is open on a temporary file system, and has the contents `v`.
module _ {W : Type 0} (devices : CharacterDevices W) (live : FileSystems) (fs : Tmpfs) (f : File)
    (v : List ℕ) (found : live f.node.file_system ≡ some (F.tmpfs fs))
    (holds : fs.files f.node.node_id ≡ some v) (small : length v < word) where
  abbrev at : ℕ → File
  at position = record f { position = position }

  -- What follows the position is read, if it is there.
  pub read-here :
      (position count : ℕ) (xs more : List ℕ) (w : W)
      → drop position v ≡ xs ++ more
      → length xs ≡ count
      → position ≤ length v
      → read devices live count (at position) w ≡ (ok xs, at (position + count), w)
  unfolding O.read F.read
  read-here position count xs more w here size within =
      rw (found, O.read, F.read)
        (ap (λ r. O.advanced devices (at position) (r, w))
            (read-take f.node position count v fs holds (omega (arith, room, small)) within
              ∙ ap ok (
                  ap (λ (n : ℕ). take n (drop position v)) all
                  ∙ ap (λ t. take count t) here
                  ∙ take_append_at count xs more size))
          ∙ rw size (rw (mod-eq_of_lt below) refl))
    where
      room : position + count ≤ length v
      room =
          omega (arith, length-drop position v, ap length here, length-append xs more, size, within)

      all : min count (length v - position) ≡ count
      all = omega (arith, room)

      below : position + count < word
      below = omega (arith, room, small)

  pub seek-here :
      (position position' : ℕ) (w : W)
      → seek devices live position' (at position) w ≡ (ok tt, at position', w)
  unfolding O.seek
  seek-here position position' w = rw (found, seek, O.seek) refl

  -- The loop over the program headers.
  headers-here :
      (headers : List Elf64ProgramHeader) (position : ℕ) (more : List ℕ) (w : W)
      → AllFit headers
      → drop position v ≡ encode_all headers ++ more
      → position ≤ length v
      → read_program_headers devices live (length headers) (at position) w
        ≡ (ok headers, at (position + length headers * program_header_size), w)
  unfolding read_program_headers
  headers-here [] position more w fits here within = ap (λ (q : ℕ). (ok [], at q, w)) (omega arith)
  headers-here (h ∷ headers) position more w fits here within =
      rw
        (
          read_program_headers,
          read-here position program_header_size (encode_program_header h)
              (encode_all headers ++ more) w
              (here ∙ append_assoc (encode_program_header h) (encode_all headers) more) refl within,
          parse_program_header-encode h fits.0,
          headers-here headers (position + program_header_size) more w fits.1 behind room,
        )
        (ap (λ (q : ℕ). (ok (h ∷ headers), at q, w)) (omega arith))
    where
      behind : drop (position + program_header_size) v ≡ encode_all headers ++ more
      behind =
          sym (drop-drop position program_header_size (position + program_header_size) v refl)
          ∙ ap (λ t. drop program_header_size t) here

      room : position + program_header_size ≤ length v
      room = omega (
        arith,
        within,
        length-drop position v,
        ap length here,
        length-append (encode_program_header h ++ encode_all headers) more,
        length-append (encode_program_header h) (encode_all headers),
      )

-- A file of a temporary file system that is opened anew, and is written in the layout of a valid
-- executable for the machine, with the program headers at the offset and in the number that the
-- header names, is read by `Elf64Reader::new` with the header and the program headers that were
-- written.
pub new-encode :
    {W : Type 0} (devices : CharacterDevices W) (live : FileSystems) (fs : Tmpfs) (node : Node)
    (header : Elf64Header) (program_headers : List Elf64ProgramHeader) (v more rest : List ℕ)
    (w : W)
    → live node.file_system ≡ some (F.tmpfs fs)
    → fs.files node.node_id ≡ some v
    → length v < word
    → HeaderFits header
    → AllFit program_headers
    → is_valid header ≡ true
    → is_aarch64 header ≡ true
    → v ≡ encode_header header ++ more
    → header.program_header_offset ≤ length v
    → header.program_header_entry_count ≡ length program_headers
    → drop header.program_header_offset v ≡ encode_all program_headers ++ rest
    → (f' : File) × (new devices live (O.new_file node) w
        ≡ (ok (record { header = header; program_headers = program_headers }), f', w))
unfolding new O.new_file
new-encode devices live fs node header program_headers v more rest w found holds small fits all_fit
      valid machine layout within count table =
    (
      record {
        node = node;
        position = header.program_header_offset + length program_headers * program_header_size;
      },
      rw
          (
            read-here devices live fs (record { node = node; position = 0 }) v found holds small 0
                header_size (encode_header header) more w layout (length-encode_header header fits)
                (omega arith),
            parse_header-encode header fits,
            checked_lem,
            seek-here devices live fs (record { node = node; position = 0 }) v found holds small
                header_size header.program_header_offset w,
            count,
            headers-here devices live fs (record { node = node; position = 0 }) v found holds small
                program_headers header.program_header_offset rest w all_fit table within,
          )
          refl,
    )
  where
    checked_lem : checked header ≡ ok tt
    checked_lem = rw (valid, machine) refl
