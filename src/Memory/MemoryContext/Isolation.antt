-- ===== src/Memory/MemoryContext/Isolation.antt =====
-- The pages of a memory context are its own.
use pimento.Base.{
  ℕ, ◌+◌, ◌*◌, ◌^◌, ◌<◌, ◌≡◌, ◌≢◌, inl, inr, arith, Option-cases, none, some, Result, ok, err,
}
use pimento.Memory.Mapper.{virtual_address}
use pimento.Memory.PageAllocator
use pimento.Memory.MemoryContext.{MemoryContext, State, alloc_page}
use pimento.Memory.MemoryContext.Regions.{Owned, Tree, walk-Region, translate}
use pimento.Memory.MemoryContext.SameRows.{SameRows, same-Tree, same-translate}
use pimento.Memory.MemoryContext.Extent.{Grown, Grown-refl}
use pimento.Memory.MemoryContext.Mapping.{root_of, WellFormed, alloc_page-translate}

-- No page belongs to both.
abbrev pub Apart : Owned → Owned → Type 0
Apart owned other = (x : ℕ) → owned x ≢ none → other x ≡ none

module _ (root root' : ℕ) (owned owned' other : Owned) (pages pages' : PageAllocator.State)
    (grown : Grown root owned owned' pages pages') (tree : Tree root' other pages)
    (apart : Apart owned other) where
  other-SameRows : SameRows other pages.ram pages'.ram
  other-SameRows x level number index own deep small =
      grown.bytes x (8 * index) (tree.taken x (λ e. cc (e, own))) (omega arith)
        (λ l n e. absurd (cc (apart x (λ e'. cc (e, e')), own)))

  other-Apart : Apart owned' other
  other-Apart x real = elim (Option-cases (other x)) [
    | inl free ↦ free
    | inr (r, took) ↦ elim (Option-cases (owned x)) [
      | inl unowned ↦
          absurd (omega (arith, grown.news x unowned real, tree.taken x (λ e. cc (e, took))))
      | inr (r', mine) ↦ apart x (λ e. cc (e, mine))
    ]
  ]

-- What is left of another context, with the root table `root'`, when pages are mapped in this one:
-- its tree, apart from this one, its translations, and the bytes of its pages. No address of the
-- one is translated to a page that an address of the other is translated to.
pub record Untouched (root root' : ℕ) (owned' other : Owned) (pages pages' : PageAllocator.State)
    : Type 0 where
  pub tree : Tree root' other pages'
  pub apart : Apart owned' other
  pub translated : (b : ℕ) → b < 2 ^ 48 → translate pages'.ram root' b ≡ translate pages.ram root' b
  pub strangers :
      (b c x : ℕ)
      → b < 2 ^ 48
      → c < 2 ^ 48
      → translate pages'.ram root b ≡ some x
      → translate pages'.ram root' c ≢ some x
  pub contents :
      (x offset : ℕ)
      → other x ≢ none
      → offset < 4096
      → pages'.ram (virtual_address x + offset) ≡ pages.ram (virtual_address x + offset)

Grown-Untouched :
    (root root' : ℕ) (owned owned' other : Owned) (pages pages' : PageAllocator.State)
    → Grown root owned owned' pages pages'
    → Tree root' other pages
    → Apart owned other
    → Untouched root root' owned' other pages pages'
Grown-Untouched root root' owned owned' other pages pages' grown tree apart = record {
  tree = kept_tree;
  apart = kept_apart;
  strangers = λ b c x low low' e f. cc (
    kept_apart x
        (λ e'. cc (e', walk-Region root owned' pages' grown.tree b 4 x (omega arith) low e)),
    walk-Region root' other pages' kept_tree c 4 x (omega arith) low' f,
  );
  translated = same-translate root' other pages pages' tree same;
  contents = λ x offset real below.
      grown.bytes x offset (tree.taken x real) below
        (λ l n e. absurd (real (apart x (λ e'. cc (e, e')))));
}
  where
    same : SameRows other pages.ram pages'.ram
    same = other-SameRows root root' owned owned' other pages pages' grown tree apart

    kept_tree : Tree root' other pages'
    kept_tree = same-Tree root' other pages pages' tree same grown.advanced grown.tree.aligned

    kept_apart : Apart owned' other
    kept_apart = other-Apart root root' owned owned' other pages pages' grown tree apart

-- While two contexts share the allocator and no page, `alloc_page` in one of them, whatever address
-- it is called for and whatever it returns, leaves the other with its tree and its translations,
-- does not write to a page or a table of the other, and the two still share no page, so that no
-- address of the one is translated to a page of the other.
pub alloc_page-Apart :
    (context : MemoryContext) (owned : Owned) (s : State) (a : ℕ)
    → WellFormed context owned s
    → (root' : ℕ) (other : Owned) → Tree root' other s.pages
    → Apart owned other
    → (r : Result ℕ) × (s' : State) × (owned' : Owned) × (alloc_page context a s ≡ some (r, s'))
      × Tree (root_of context) owned' s'.pages
      × Untouched (root_of context) root' owned' other s.pages s'.pages
alloc_page-Apart context owned s a fine root' other tree apart =
    elim (alloc_page-translate context owned s a fine) [
      | inl (x, s', owned', e, _, maps, _, _) ↦ (
        ok x,
        s',
        owned',
        e,
        maps.grown.tree,
        Grown-Untouched (root_of context) root' owned owned' other s.pages s'.pages maps.grown tree
            apart,
      )
      | inr (inl (s', owned', e, _, exhausts)) ↦ (
        err,
        s',
        owned',
        e,
        exhausts.grown.tree,
        Grown-Untouched (root_of context) root' owned owned' other s.pages s'.pages exhausts.grown
            tree apart,
      )
      | inr (inr (_, e)) ↦ (
        err,
        s,
        owned,
        e,
        fine.tree,
        Grown-Untouched (root_of context) root' owned owned other s.pages s.pages
            (Grown-refl (root_of context) owned s.pages fine.tree) tree apart,
      )
    ]
