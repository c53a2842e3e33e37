-- ===== src/Memory/MemoryContext/Extent.antt =====
-- What a memory context keeps while pages are linked to its tree.
use pimento.Base.{
  ℕ, suc, ◌+◌, ◌*◌, ◌%◌, ◌≤◌, ◌<◌, ◌≡◌, ◌≢◌, refl, inl, inr, arith, none, sym, ◌∙◌, Option-cases,
  Bool-cases, ◌==◌,
}
use pimento.Memory.Mapper.{virtual_address}
use pimento.Memory.PageAllocator
use pimento.Memory.PageAllocator.{PageAllocator, PageAllocation}
use pimento.Memory.MemoryContext.Regions.{Owned, region, Taken, Tree}
use pimento.Memory.MemoryContext.Growth.{Links, gain, gain-Tree}

-- What belongs to the context only grows, and by pages that were not handed out before. No byte of
-- a page that was, its tables apart, is changed.
pub record Grown (root : ℕ) (owned owned' : Owned) (pages pages' : PageAllocator.State)
    : Type 0 where
  pub tree : Tree root owned' pages'
  pub extends : (x : ℕ) → owned x ≢ none → owned' x ≡ owned x
  pub news : (x : ℕ) → owned x ≡ none → owned' x ≢ none → pages.allocated ≤ x
  pub bytes :
      (x offset : ℕ)
      → Taken pages x
      → offset < 4096
      → ((level number : ℕ) → owned x ≡ region level number → level ≡ 4)
      → pages'.ram (virtual_address x + offset) ≡ pages.ram (virtual_address x + offset)
  pub advanced : pages.allocated ≤ pages'.allocated

pub Grown-refl :
    (root : ℕ) (owned : Owned) (pages : PageAllocator.State)
    → Tree root owned pages
    → Grown root owned owned pages pages
Grown-refl root owned pages tree = record {
  tree = tree;
  extends = λ x _. refl;
  news = λ x no yes. absurd (yes no);
  bytes = λ x offset _ _ _. refl;
  advanced = omega arith;
}

pub Grown-trans :
    (root : ℕ) (owned owned' owned'' : Owned) (pages pages' pages'' : PageAllocator.State)
    → Grown root owned owned' pages pages'
    → Grown root owned' owned'' pages' pages''
    → Grown root owned owned'' pages pages''
Grown-trans root owned owned' owned'' pages pages' pages'' g h = record {
  tree = h.tree;
  extends = λ x real. h.extends x (rw (g.extends x real) real) ∙ g.extends x real;
  news = λ x no yes. elim (Option-cases (owned' x)) [
    | inl free ↦ omega (arith, h.news x free yes, g.advanced)
    | inr (r, took) ↦ g.news x no (λ e. cc (took, e))
  ];
  bytes = λ x offset known below data_page.
      h.bytes x offset (omega (arith, known, g.advanced)) below (λ l n e.
        elim (Option-cases (owned x)) [
          | inl free ↦ absurd (omega (arith, known, g.news x free (λ e'. cc (e, e'))))
          | inr (r, took) ↦ data_page l n (sym (g.extends x (λ e'. cc (took, e'))) ∙ e)
        ])
      ∙ g.bytes x offset known below data_page;
  advanced = omega (arith, g.advanced, h.advanced);
}

-- A change of the allocator alone.
pub allocated-Grown :
    (root : ℕ) (owned : Owned) (pages pages' : PageAllocator.State)
    → Tree root owned pages
    → pages'.ram ≡ pages.ram
    → pages.allocated ≤ pages'.allocated
    → pages'.allocated % 4096 ≡ 0
    → Grown root owned owned pages pages'
allocated-Grown root owned pages pages' tree ram advanced aligned = record {
  tree = record {
    at_root = tree.at_root;
    rows = rw ram tree.rows;
    taken = λ x real. omega (arith, tree.taken x real, advanced);
    aligned = aligned;
  };
  extends = λ x _. refl;
  news = λ x no yes. absurd (yes no);
  bytes = λ x offset _ _ _. rw ram refl;
  advanced = advanced;
}

-- A page that is linked.
pub Links-Grown :
    (root : ℕ) (owned : Owned) (pages pages' : PageAllocator.State)
    → Tree root owned pages
    → (p level number index q : ℕ) → owned p ≡ region level number
    → level < 4
    → index < 512
    → Links p index q pages pages'
    → Grown root owned (gain owned q (region (suc level) (number * 512 + index))) pages pages'
Links-Grown root owned pages pages' tree p level number index q mine deep in_table links = record {
  tree = gain-Tree root owned pages pages' tree p level number index q mine deep in_table links;
  extends = λ x real.
      let known : Taken pages x = tree.taken x real in
      let other : x ≢ q = (λ e. omega (arith, e, known, links.fresh)) in ground (arith, other);
  news = λ x no yes. elim (Bool-cases (x == q)) [
    | inl new ↦ ground (arith, new, links.fresh)
    | inr other ↦ absurd (yes (rw other no))
  ];
  bytes = λ x offset known below data_page.
      links.others x offset
        (known, below, inl (λ e. omega (arith, data_page level number (rw e mine), deep)));
  advanced = omega (arith, links.fresh, links.taken);
}
