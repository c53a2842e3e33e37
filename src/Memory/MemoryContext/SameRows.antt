-- ===== src/Memory/MemoryContext/SameRows.antt =====
-- A change of the memory that leaves the rows of a context's tables.
use pimento.Base.{
  ℕ, zero, suc, ◌+◌, ◌/◌, ◌%◌, ◌^◌, ◌≤◌, ◌<◌, ◌≡◌, refl, sym, ap, ◌∙◌, inl, inr, arith,
}
use pimento.Memory.Ram.{Ram}
use pimento.Memory.PageAllocator
use pimento.Memory.PageTable.Rows.{span}
use pimento.Memory.MemoryContext.Regions.{
  size, row_at, Owned, region, Tree, part, walk, walk-free, walk-typed, root-owned, translate,
}

abbrev pub SameRows : Owned → Ram → Ram → Type 0
SameRows owned ram ram' =
    (x level number index : ℕ)
    → owned x ≡ region level number
    → level < 4
    → index < 512
    → row_at ram' x index ≡ row_at ram x index

module _ (root : ℕ) (owned : Owned) (pages pages' : PageAllocator.State)
    (tree : Tree root owned pages) (same : SameRows owned pages.ram pages'.ram) where
  pub same-Tree :
      pages.allocated ≤ pages'.allocated → pages'.allocated % 4096 ≡ 0 → Tree root owned pages'
  same-Tree advanced aligned = record {
    at_root = tree.at_root;
    rows = λ p level number index own deep small.
        rw (same p level number index own deep small)
          (tree.rows p level number index own deep small);
    taken = λ x real. omega (arith, tree.taken x real, advanced);
    aligned = aligned;
  }

  same-walk :
      (a n level p : ℕ)
      → owned p ≡ region level (a / size level)
      → n + level ≤ 4
      → walk n pages'.ram level a p ≡ walk n pages.ram level a p
  unfolding walk
  same-walk a zero level p own room = refl
  same-walk a (suc n) level p own room =
      elim (tree.rows p level _ (a / span level % 512) own (omega arith) (omega arith)) [
        | inl nothing ↦
            walk-free n pages'.ram level a p (kept ∙ nothing)
            ∙ sym (walk-free n pages.ram level a p nothing)
        | inr (typed, next) ↦
            walk-typed n pages'.ram level a p _ kept typed
            ∙ same-walk a n (suc level) _
                (next ∙ ap (λ i. region (suc level) i) (part level a (omega arith))) (omega arith)
            ∙ sym (walk-typed n pages.ram level a p _ refl typed)
      ]
    where
      kept : row_at pages'.ram p (a / span level % 512) ≡ row_at pages.ram p (a / span level % 512)
      kept = same p level _ (a / span level % 512) own (omega arith) (omega arith)

  pub same-translate :
      (b : ℕ) → b < 2 ^ 48 → translate pages'.ram root b ≡ translate pages.ram root b
  same-translate b low = same-walk b 4 0 root (root-owned root owned pages tree b low) (omega arith)
