-- ===== src/Task/Elf/Loading.antt =====
-- The pages that `LoadablePages` returns: the contents of the segments, one page after the other.
use native.Mathlib.Nat.{mod-eq_of_lt}
use pimento.Base.{
  ℕ, zero, suc, ◌+◌, ◌*◌, ◌≤◌, ◌<◌, ◌≡◌, ◌≢◌, ◌⊎◌, inl, inr, refl, sym, ap, ◌∙◌, arith, false,
  Option, none, some, List, length, get_elem?, Result, ok, word, leb, leb→le, not_leb, ◌==◌,
  if◌then◌else◌, Bool-cases, Option-cases, get_elem?-lt, get_elem?-some, ==→≡,
}
use pimento.Memory.Ram.{Range, page_size}
use pimento.Fs.Tmpfs.{Tmpfs}
use pimento.Fs.Devfs.{CharacterDevices}
use pimento.Fs.Open.{File, FileSystems}
use pimento.Task.Elf.{Elf64ProgramHeader, program_header_type_load, range}
use pimento.Task.Elf.Pages.{from_offset, range-none, range-some}
use pimento.Task.Elf.Reader.{
  Elf64Reader, LoadablePages, LoadablePage, range_len, load, next_loop, next,
}
use pimento.Task.Elf.PageBytes.{
  Loaded, Holds, InFile, range-other, fr, mr, found_page, load-found, found-Loaded,
}

module _ {W : Type 0} (devices : CharacterDevices W) (live : FileSystems) (fs : Tmpfs) (v : List ℕ)
    (small : length v < word) where
  -- A header that `next` takes: a segment in the file, or one that is not loaded.
  abbrev pub Readable : Elf64ProgramHeader → Type 0
  Readable h = (h.segment_type ≢ program_header_type_load) ⊎ InFile devices live fs v small h

  -- The page of the header `j` at which an iteration from `pages` arrives.
  abbrev pub first_page : LoadablePages → ℕ → ℕ
  first_page pages j = if j == pages.program_header_index then pages.page_index else 0

  -- The headers from there on, before `j`, have no page left.
  abbrev pub Passed : List Elf64ProgramHeader → LoadablePages → ℕ → Type 0
  Passed headers pages j =
      (k : ℕ) (h : Elf64ProgramHeader)
      → pages.program_header_index ≤ k
      → k < j
      → get_elem? headers k ≡ some h
      → range h (first_page pages k) ≡ none

  page-cases :
      (h : Elf64ProgramHeader) (pages : LoadablePages) (f : File) (w : W)
      → Readable h
      → Holds devices live fs v small f
      → pages.page_index * page_size + page_size < word
      → (range h pages.page_index ≡ none)
        ⊎ ((found : Range × Range) × (page : LoadablePage) × (f' : File) × (range h pages.page_index
              ≡ some found)
            × (load devices live pages found f w
                ≡ (ok (some page), record pages { page_index = pages.page_index + 1 }, f', w))
            × Loaded h v pages.page_index page
            × (f'.node ≡ f.node))
  page-cases h pages f w (inl other) open_file room = inl (range-other h pages.page_index other)
  page-cases h pages f w (inr in_file) open_file room =
      elim (Bool-cases (leb h.memory_size (from_offset h pages.page_index))) [
        | inl past ↦ inl (range-none h in_file.0 pages.page_index room (leb→le _ _ past))
        | inr before ↦
            let left = not_leb h.memory_size (from_offset h pages.page_index) before in
            inr (
              (
                fr devices live fs v small h in_file pages f w open_file room left,
                mr devices live fs v small h in_file pages f w open_file room left,
              ),
              found_page devices live fs v small h in_file pages f w open_file room left,
              record f {
                position =
                    (fr devices live fs v small h in_file pages f w open_file room left).start
                    + range_len
                        (fr devices live fs v small h in_file pages f w open_file room left);
              },
              range-some h in_file.0 pages.page_index room left,
              load-found devices live fs v small h in_file pages f w open_file room left,
              found-Loaded devices live fs v small h in_file pages f w open_file room left,
              refl,
            )
      ]

  -- The page that comes next: of the header `j`, behind headers that have none left.
  pub record Arrives (headers : List Elf64ProgramHeader) (pages : LoadablePages) (f : File) (j : ℕ)
      (h : Elf64ProgramHeader) (page : LoadablePage) (pages' : LoadablePages) (f' : File)
      : Type 0 where
    pub not_before : pages.program_header_index ≤ j
    pub here : get_elem? headers j ≡ some h
    pub loaded : Loaded h v (first_page pages j) page
    pub passed : Passed headers pages j
    pub index : pages'.program_header_index ≡ j
    pub page_index : pages'.page_index ≡ first_page pages j + 1
    pub same_file : f'.node ≡ f.node

  abbrev pub Outcome :
      List Elf64ProgramHeader
      → LoadablePages
      → File
      → W
      → Option (Result (Option LoadablePage) × LoadablePages × File × W)
      → Type 0
  Outcome headers pages f w r =
      ((j : ℕ) × (h : Elf64ProgramHeader) × (page : LoadablePage) × (pages' : LoadablePages)
        × (f' : File) × (r ≡ some (ok (some page), pages', f', w))
        × Arrives headers pages f j h page pages' f')
      ⊎ ((pages' : LoadablePages) × (r ≡ some (ok none, pages', f, w))
          × (length headers ≤ pages'.program_header_index)
          × Passed headers pages (length headers))

  fresh_page : (j k : ℕ) → first_page (record { program_header_index = j; page_index = 0 }) k ≡ 0
  fresh_page j k = elim (Bool-cases (k == j)) [
    | inl here ↦ rw here refl
    | inr other ↦ rw other refl
  ]

  own_page :
      (pages : LoadablePages) → first_page pages pages.program_header_index ≡ pages.page_index
  own_page pages = ground arith

  missing :
      (headers : List Elf64ProgramHeader) (i : ℕ) → get_elem? headers i ≡ none → length headers ≤ i
  missing headers i e = elim (Bool-cases (leb (length headers) i)) [
    | inl past ↦ leb→le _ _ past
    | inr inside ↦
        let (h, here) = get_elem?-some headers i (not_leb _ _ inside) in absurd (cc (here, e))
  ]

  Passed-skip :
      (headers : List Elf64ProgramHeader) (pages : LoadablePages) (j : ℕ) (h : Elf64ProgramHeader)
      → get_elem? headers pages.program_header_index ≡ some h
      → range h pages.page_index ≡ none
      → Passed headers
          (record { program_header_index = pages.program_header_index + 1; page_index = 0 })
          j
      → Passed headers pages j
  Passed-skip headers pages j h here nothing rest k h' from below e =
      elim (Bool-cases (k == pages.program_header_index)) [
        | inl first ↦
            let same : k ≡ pages.program_header_index = ==→≡ k pages.program_header_index first in
            let both : h ≡ h' = cc (here, e, same) in rw (first, ← both) nothing
        | inr later ↦ rw later (
            ap (λ i. range h' i) (sym (fresh_page (pages.program_header_index + 1) k))
            ∙ rest k h' (ground (arith, later, from)) below e)
      ]

  -- What a later header gives is what comes next, when this one has no page left.
  Outcome-skip :
      (headers : List Elf64ProgramHeader) (pages : LoadablePages) (f : File) (w : W)
      (h : Elf64ProgramHeader)
      (r : Option (Result (Option LoadablePage) × LoadablePages × File × W))
      → get_elem? headers pages.program_header_index ≡ some h
      → range h pages.page_index ≡ none
      → Outcome headers
          (record { program_header_index = pages.program_header_index + 1; page_index = 0 })
          f
          w
          r
      → Outcome headers pages f w r
  Outcome-skip headers pages f w h r here nothing (inl (j, h', page, pages', f', e, arrives)) =
      let fresh = fresh_page (pages.program_header_index + 1) j in
      let later : (j == pages.program_header_index) ≡ false = ground (arith, arrives.not_before) in
      let start : first_page pages j ≡ 0 = rw later refl in
      inl (
        j,
        h',
        page,
        pages',
        f',
        e,
        record {
          not_before = omega (arith, arrives.not_before);
          here = arrives.here;
          loaded = rw (start, ← fresh) arrives.loaded;
          passed = Passed-skip headers pages j h here nothing arrives.passed;
          index = arrives.index;
          page_index = omega (arith, arrives.page_index, start, fresh);
          same_file = arrives.same_file;
        },
      )
  Outcome-skip headers pages f w h r here nothing (inr (pages', e, done, passed)) =
      inr (pages', e, done, Passed-skip headers pages (length headers) h here nothing passed)

  next_loop-Outcome :
      (fuel : ℕ) (headers : List Elf64ProgramHeader) (pages : LoadablePages) (f : File) (w : W)
      → length headers < fuel + pages.program_header_index
      → pages.program_header_index ≤ length headers
      → length headers < word
      → ((j : ℕ) (h : Elf64ProgramHeader) → get_elem? headers j ≡ some h → Readable h)
      → Holds devices live fs v small f
      → pages.page_index * page_size + page_size < word
      → Outcome headers pages f w (next_loop devices live fuel headers pages f w)
  unfolding next_loop
  next_loop-Outcome zero headers pages f w enough inside few readable open_file room =
      absurd (omega (arith, enough, inside))
  next_loop-Outcome (suc fuel) headers pages f w enough inside few readable open_file room =
      elim (Option-cases (get_elem? headers pages.program_header_index)) [
        | inl behind ↦ inr (
          pages,
          rw (next_loop, behind) refl,
          missing headers pages.program_header_index behind,
          λ k h from below e.
              absurd
                (omega (arith, from, below, missing headers pages.program_header_index behind)),
        )
        | inr (h, here) ↦
            elim (page-cases h pages f w (readable pages.program_header_index h here) open_file
              room) [
                | inl nothing ↦
                    let next_index : pages.program_header_index + 1 < word =
                      omega (arith, get_elem?-lt headers pages.program_header_index here, few) in
                    rw (next_loop, here, nothing)
                      (Outcome-skip headers pages f w h _ here nothing (
                        rw (mod-eq_of_lt next_index) (
                          next_loop-Outcome fuel headers
                            (record {
                              program_header_index = pages.program_header_index + 1;
                              page_index = 0;
                            })
                            f w (omega (arith, enough))
                            (omega (arith, get_elem?-lt headers pages.program_header_index here))
                            few readable open_file (omega arith))))
                | inr (found, page, f', e, loaded_e, loaded, same) ↦ inl (
                  pages.program_header_index,
                  h,
                  page,
                  record pages { page_index = pages.page_index + 1 },
                  f',
                  rw (next_loop, here, e, loaded_e) refl,
                  record {
                    not_before = omega arith;
                    here = here;
                    loaded = rw (own_page pages) loaded;
                    passed = λ k h' from below _. absurd (omega arith);
                    index = refl;
                    page_index = omega (arith, own_page pages);
                    same_file = same;
                  },
                )
              ]
      ]

  -- `next` returns, for an open file of a temporary file system whose loadable segments are all in
  -- the file. It goes on from its place over the program headers that have no page left to the
  -- first that has one, and returns that page: the address, and every byte from there to the end of
  -- the page or of the segment, out of the file as far as the segment is there and zero behind
  -- that. It is nothing when no header has a page left. The file stays open, and the next call goes
  -- on behind the page.
  pub next_lem :
      (reader : Elf64Reader) (pages : LoadablePages) (f : File) (w : W)
      → pages.program_header_index ≤ length reader.program_headers
      → length reader.program_headers < word
      → ((j : ℕ) (h : Elf64ProgramHeader)
          → get_elem? reader.program_headers j ≡ some h
          → Readable h)
      → Holds devices live fs v small f
      → pages.page_index * page_size + page_size < word
      → Outcome reader.program_headers pages f w (next devices live reader pages f w)
  unfolding next
  next_lem reader pages f w inside few readable open_file room =
      next_loop-Outcome (suc (length reader.program_headers)) reader.program_headers pages f w
        (omega arith) inside few readable open_file room
