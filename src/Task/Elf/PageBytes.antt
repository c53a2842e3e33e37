-- ===== src/Task/Elf/PageBytes.antt =====
-- What `LoadablePages` loads for one page: the bytes of the segment, and zeros behind those in the
-- file.
use native.Mathlib.Nat.{mod-eq_of_lt}
use pimento.Base.{
  ℕ, zero, suc, ◌+◌, ◌-◌, ◌*◌, ◌≤◌, ◌<◌, ◌≡◌, ◌≢◌, inl, inr, refl, sym, ap, ◌∙◌, arith, false, min,
  Option, none, some, List, [], ◌∷◌, ◌++◌, length, get_elem?, take, drop, replicate, length-append,
  length-drop, length-take, length-replicate, ok, word, ltb, lt→ltb, ◌==◌, if◌then◌else◌,
  Bool-cases,
}
use pimento.Memory.Ram.{Range, page_size}
use pimento.Fs.Tmpfs.{Tmpfs}
use pimento.Fs.Tmpfs.Slices.{
  get_elem?-take, get_elem?-drop, get_elem?-append_if, get_elem?-replicate,
}
use pimento.Fs.Devfs.{CharacterDevices}
use pimento.Fs.FileSystem as F
use pimento.Fs.Open.{File, FileSystems}
use pimento.Task.Elf.{Elf64ProgramHeader, program_header_type_load, range}
use pimento.Task.Elf.Pages.{Loadable, from_offset, to_offset, file_range, memory_range}
use pimento.Task.Elf.Reading.{read-here, seek-here}
use pimento.Task.Elf.Reader.{LoadablePages, LoadablePage, range_len, resize, load}

append-take-drop : (n : ℕ) (xs : List ℕ) → take n xs ++ drop n xs ≡ xs
append-take-drop zero xs = refl
append-take-drop (suc n) [] = refl
append-take-drop (suc n) (x ∷ xs) = ap (λ t. x ∷ t) (append-take-drop n xs)

-- The byte at `k` from the address of the segment: the file's, and zeros behind them.
abbrev pub segment_byte : Elf64ProgramHeader → List ℕ → ℕ → Option ℕ
segment_byte h v k = if ltb k h.file_size then get_elem? v (h.file_offset + k) else some 0

-- Page `i` of a segment, with all of its bytes.
pub record Loaded (h : Elf64ProgramHeader) (v : List ℕ) (i : ℕ) (page : LoadablePage) : Type 0 where
  pub not_empty : from_offset h i < h.memory_size
  pub address : page.address ≡ h.virtual_address + from_offset h i
  pub size : length page.bytes ≡ min (to_offset h i) h.memory_size - from_offset h i
  pub bytes :
      (k : ℕ)
      → k < length page.bytes
      → get_elem? page.bytes k ≡ segment_byte h v (from_offset h i + k)

length-resize : (n : ℕ) (xs : List ℕ) → length (resize n xs) ≡ n
length-resize n xs = omega (
  arith,
  length-append (take n xs) (replicate (n - length xs) 0),
  length-take n xs,
  length-replicate {A = ℕ} (n - length xs) 0,
)

resize-byte :
    (n k : ℕ) (xs : List ℕ)
    → k < n
    → get_elem? (resize n xs) k ≡ (if ltb k (length xs) then get_elem? xs k else some 0)
resize-byte n k xs below =
    rw
      (
        get_elem?-append_if (take n xs) (replicate (n - length xs) 0) k,
        get_elem?-take n xs k,
        get_elem?-replicate {A = ℕ} (n - length xs) 0 (k - length (take n xs)),
        length-take n xs,
      )
      (ground arith)

pub range-other :
    (h : Elf64ProgramHeader) (i : ℕ) → h.segment_type ≢ program_header_type_load → range h i ≡ none
unfolding range
range-other h i other = rw different refl
  where
    different : (h.segment_type == program_header_type_load) ≡ false
    different = ground (arith, other)

module _ {W : Type 0} (devices : CharacterDevices W) (live : FileSystems) (fs : Tmpfs) (v : List ℕ)
    (small : length v < word) where
  -- The file is open on a temporary file system, with the contents `v`.
  abbrev pub Holds : File → Type 0
  Holds f = (live f.node.file_system ≡ some (F.tmpfs fs)) × (fs.files f.node.node_id ≡ some v)

  -- A segment whose bytes are all in the file.
  abbrev pub InFile : Elf64ProgramHeader → Type 0
  InFile h = Loadable h × (h.file_offset + h.file_size ≤ length v)

  module _ (h : Elf64ProgramHeader) (in_file : InFile h) (pages : LoadablePages) (f : File) (w : W)
      (open_file : Holds f) (room : pages.page_index * page_size + page_size < word)
      (some_left : from_offset h pages.page_index < h.memory_size) where
    abbrev i : ℕ
    i = pages.page_index

    abbrev pub fr : Range
    fr = file_range h in_file.0 i room

    abbrev pub mr : Range
    mr = memory_range h in_file.0 i room

    abbrev pub found_bytes : List ℕ
    found_bytes = take (range_len fr) (drop fr.start v)

    abbrev pub found_page : LoadablePage
    found_page = record { address = mr.start; bytes = resize (range_len mr) found_bytes }

    length-found_bytes : length found_bytes ≡ range_len fr
    length-found_bytes =
        omega
          (arith, length-take (range_len fr) (drop fr.start v), length-drop fr.start v, in_file.1)

    pub load-found : load devices live pages (fr, mr) f w ≡ (
      ok (some found_page),
      record pages { page_index = i + 1 },
      record f { position = fr.start + range_len fr },
      w,
    )
    load-found =
        rw
          (
            seek-here devices live fs f v open_file.0 open_file.1 small f.position fr.start w,
            read-here devices live fs f v open_file.0 open_file.1 small fr.start (range_len fr)
                found_bytes (drop (range_len fr) (drop fr.start v)) w
                (sym (append-take-drop (range_len fr) (drop fr.start v))) length-found_bytes
                (omega (arith, in_file.1)),
            mod-eq_of_lt below,
          )
          refl
      where
        below : i + 1 < word
        below = omega (arith, room)

    -- A byte that was read, or padded.
    byte_lem :
        (k : ℕ)
        → k < range_len mr
        → (if ltb k (length found_bytes) then get_elem? found_bytes k else some 0)
          ≡ segment_byte h v (from_offset h i + k)
    byte_lem k below =
        rw
          (
            length-found_bytes,
            get_elem?-take (range_len fr) (drop fr.start v) k,
            get_elem?-drop fr.start v k,
          )
          (elim (Bool-cases (ltb k (range_len fr))) [
            | inl read_byte ↦
                let within : from_offset h i + k < h.file_size = ground (arith, read_byte) in
                let place : fr.start + k ≡ h.file_offset + (from_offset h i + k) =
                  omega (arith, within) in
                rw (read_byte, lt→ltb _ _ within, place) refl
            | inr padded ↦
                let beyond : ltb (from_offset h i + k) h.file_size ≡ false =
                  ground (arith, padded, below) in
                rw (padded, beyond) refl
          ])

    pub found-Loaded : Loaded h v i found_page
    found-Loaded = record {
      not_empty = some_left;
      address = refl;
      size = omega (arith, length-resize (range_len mr) found_bytes);
      bytes = λ k below.
          let small_k : k < range_len mr =
            omega (arith, length-resize (range_len mr) found_bytes) in
          resize-byte (range_len mr) k found_bytes small_k ∙ byte_lem k small_k;
    }
