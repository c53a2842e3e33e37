-- ===== src/Task/TaskExecution/PageLoading.antt =====
-- The body of the loop in `execute`: a page is allocated and filled.
use pimento.Base.{
  ℕ, ◌+◌, ◌/◌, ◌%◌, ◌^◌, ◌≤◌, ◌<◌, ◌≡◌, ◌≢◌, refl, sym, ap, ◌∙◌, ◌⊎◌, inl, inr, arith, some, none,
  length, get_elem?, ok, err,
}
use mathlib.Core.Path.{subst}
use pimento.Memory.PageAllocator.Alloc.{Sized}
use pimento.Memory.MemoryContext.{MemoryContext, State}
use pimento.Memory.MemoryContext.Regions.{Owned, region-inj, translate, walk-Region}
use pimento.Memory.MemoryContext.Levels.{Maps, Exhausts}
use pimento.Memory.MemoryContext.Mapping.{root_of, WellFormed, alloc_page-translate}
use pimento.Memory.UserMemory.{user_byte, copy_from_user, KernelBytes}
use pimento.Memory.UserMemory.Bytes.{user_ptr-mapped}
use pimento.Memory.UserMemory.Copies.{
  walk-same_page, Mapped, Copied, copy_to_user-Copied, copy_from_user-bytes,
}
use pimento.Task.Elf.Reader.{LoadablePage}
use pimento.Task.TaskExecution.{load_page}

-- The address is outside the bytes of the page.
abbrev pub Outside : LoadablePage → ℕ → Type 0
Outside page b = (b < page.address) ⊎ (page.address + length page.bytes ≤ b)

-- What the task sees of a page that was loaded.
pub record Filled (context : MemoryContext) (s s' : State) (page : LoadablePage) : Type 0 where
  pub bytes :
      (i byte : ℕ)
      → get_elem? page.bytes i ≡ some byte
      → user_byte s'.pages.ram (root_of context) (page.address + i) ≡ some byte
  pub read_back :
      (kernel : KernelBytes)
      → copy_from_user kernel context page.address (length page.bytes) s' ≡ some (ok page.bytes, s')
  pub clear :
      translate s.pages.ram (root_of context) page.address ≡ none
      → (b : ℕ) → b / 4096 ≡ page.address / 4096
      → Outside page b
      → user_byte s'.pages.ram (root_of context) b ≡ some 0
  pub kept :
      (b p : ℕ)
      → b < 2 ^ 48
      → translate s.pages.ram (root_of context) b ≡ some p
      → Outside page b
      → user_byte s'.pages.ram (root_of context) b ≡ user_byte s.pages.ram (root_of context) b

module _ (context : MemoryContext) (owned owned' : Owned) (s s' : State) (a x : ℕ)
    (low : a < 2 ^ 48) (fine : WellFormed context owned s)
    (maps : Maps context.page_allocator (root_of context) owned owned' s s' a x) where
  pub Maps-page :
      (b : ℕ) → b / 4096 ≡ a / 4096 → translate s'.pages.ram (root_of context) b ≡ some x
  Maps-page b same =
      walk-same_page 4 0 b a (root_of context) s'.pages.ram (omega arith) same ∙ maps.mapped

  pub Maps-clear :
      translate s.pages.ram (root_of context) a ≡ none
      → (b : ℕ) → b / 4096 ≡ a / 4096
      → user_byte s'.pages.ram (root_of context) b ≡ some 0
  Maps-clear free b same = elim maps.new [
    | inl stays ↦ absurd (
        cc (free, maps.mapped, ap (λ (t : State). translate t.pages.ram (root_of context) a) stays))
    | inr (_, page) ↦
        rw
          (
            user_byte,
            user_ptr-mapped s'.pages.ram (root_of context) b x (omega (arith, low, same))
                (Maps-page b same),
            page.clear (b % 4096) (omega arith),
          )
          refl
  ]

  pub Maps-kept :
      (b p : ℕ)
      → b < 2 ^ 48
      → translate s.pages.ram (root_of context) b ≡ some p
      → user_byte s'.pages.ram (root_of context) b ≡ user_byte s.pages.ram (root_of context) b
  Maps-kept b p small e = elim maps.new [
    | inl stays ↦ ap (λ (t : State). user_byte t.pages.ram (root_of context) b) stays
    | inr (free, page) ↦
        let other : b / 4096 ≢ a / 4096 = (λ same. absurd (
          cc (e, free, walk-same_page 4 0 b a (root_of context) s.pages.ram (omega arith) same))) in
        let mine =
          walk-Region (root_of context) owned s.pages fine.tree b 4 p (omega arith) small e in
        rw
          (
            user_byte,
            user_ptr-mapped s'.pages.ram (root_of context) b p small
                (maps.others b small other ∙ e),
            user_ptr-mapped s.pages.ram (root_of context) b p small e,
            maps.grown.bytes p (b % 4096) (fine.tree.taken p (λ e'. cc (e', mine))) (omega arith)
                (λ level number e'. (region-inj level number 4 (b / 4096) (sym e' ∙ mine)).0),
          )
          refl
  ]

module _ (context : MemoryContext) (owned : Owned) (s : State) (page : LoadablePage)
    (fine : WellFormed context owned s)
    (inside : page.address % 4096 + length page.bytes ≤ 4096) where
  module _ (owned' : Owned) (s1 : State) (x : ℕ) (low : page.address < 2 ^ 48)
      (maps : Maps context.page_allocator (root_of context) owned owned' s s1 page.address x) where
    page-Mapped : Mapped s1.pages.ram (root_of context) page.address (length page.bytes)
    page-Mapped i below = (
      omega (arith, inside, low),
      (
        x,
        Maps-page context owned owned' s s1 page.address x low fine maps (page.address + i)
            (omega (arith, inside)),
      ),
    )

    Copied-Filled :
        (s2 : State)
        → Copied (root_of context) owned' s1 s2 page.bytes page.address
        → Filled context s s2 page
    Copied-Filled s2 copied = record {
      bytes = copied.copied;
      read_back = λ kernel.
          copy_from_user-bytes kernel context page.bytes page.address s2
            (omega (arith, inside, low)) copied.copied;
      clear = λ free b same outside.
          copied.others b (omega (arith, low, same)) outside
          ∙ Maps-clear context owned owned' s s1 page.address x low fine maps free b same;
      kept = λ b p small e outside.
          copied.others b small outside
          ∙ Maps-kept context owned owned' s s1 page.address x low fine maps b p small e;
    }

    Copied-WellFormed :
        (s2 : State)
        → WellFormed context owned' s1
        → Copied (root_of context) owned' s1 s2 page.bytes page.address
        → WellFormed context owned' s2
    Copied-WellFormed s2 fine1 copied = record {
      tree = copied.tree;
      window = fine1.window;
      ready = record {
        sized = subst (Sized context.page_allocator) (sym copied.allocated) fine1.ready.sized;
        ranges = fine1.ready.ranges;
        addressable = fine1.ready.addressable;
        aligned = copied.tree.aligned;
      };
    }

  -- Loading a page into a well-formed context returns, when its bytes do not go beyond the page of
  -- its address. Below 2^48 it succeeds and the context stays well-formed: the processor finds each
  -- byte at its address, `copy_from_user` returns the bytes again, the rest of the page is zero if
  -- the page was not mapped before, and every other byte that was mapped is as before. Or the
  -- allocator has no page left and it is an error, with every address translated as before. From
  -- 2^48 on it is an error at once.
  pub load_page_lem :
      ((s' : State) × (owned' : Owned) × (load_page context page s ≡ some (ok tt, s'))
        × (page.address < 2 ^ 48)
        × Filled context s s' page
        × WellFormed context owned' s')
      ⊎ (((s' : State) × (owned' : Owned) × (load_page context page s ≡ some (err, s'))
            × (page.address < 2 ^ 48)
            × Exhausts context.page_allocator (root_of context) owned owned' s s' page.address)
          ⊎ ((2 ^ 48 ≤ page.address) × (load_page context page s ≡ some (err, s))))
  unfolding load_page
  load_page_lem = elim (alloc_page-translate context owned s page.address fine) [
    | inl (x, s1, owned', e, low, maps, _, fine1) ↦
        let (s2, e2, copied) =
          copy_to_user-Copied context owned' page.bytes page.address s1 fine1.tree
            (page-Mapped owned' s1 x low maps) in
        inl (
          s2,
          owned',
          rw (load_page, e) e2,
          low,
          Copied-Filled owned' s1 x low maps s2 copied,
          Copied-WellFormed owned' s1 x low maps s2 fine1 copied,
        )
    | inr (inl (s', owned', e, low, exhausts)) ↦
        inr (inl (s', owned', rw (load_page, e) refl, low, exhausts))
    | inr (inr (high, e)) ↦ inr (inr (high, rw (load_page, e) refl))
  ]
