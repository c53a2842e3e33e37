-- ===== src/Memory/PageAllocator/Reserved.antt =====
-- The four tests of `alloc` find every overlap of a page with a reserved range.
use pimento.Base.{ℕ, ◌+◌, ◌≤◌, ◌<◌, ◌≡◌, ◌↔◌, ◌⊎◌, arith, false, List, [], ◌∷◌, word, refl}
use pimento.Memory.Ram.{Range, page_size}
use pimento.Memory.PageAllocator.{intersects, intersects_any}

-- The page at `p` and the range have no address in common.
abbrev pub Apart : ℕ → Range → Type 0
Apart p r = (p + page_size ≤ r.start) ⊎ (r.end ≤ p)

abbrev pub AllApart : ℕ → List Range → Type 0
AllApart p [] = Unit
AllApart p (r ∷ rs) = Apart p r × AllApart p rs

-- Every range holds an address, and fits a machine word.
abbrev pub Ranges : List Range → Type 0
Ranges [] = Unit
Ranges (r ∷ rs) = ((r.start < r.end) × (r.end < word)) × Ranges rs

pub intersects-Apart :
    (p : ℕ) (r : Range)
    → p + page_size < word
    → r.start < r.end
    → r.end < word
    → (intersects p r ≡ false) ↔ Apart p r
unfolding intersects
intersects-Apart p r room full fits = (λ h. ground arith, λ h. ground arith)

-- The tests over all reserved ranges, for a page that ends below 2^64 and ranges that hold an
-- address and end below 2^64: they find nothing exactly when the page has no address in common with
-- any.
pub intersects_any-AllApart :
    (p : ℕ) (rs : List Range)
    → p + page_size < word
    → Ranges rs
    → (intersects_any p rs ≡ false) ↔ AllApart p rs
unfolding intersects_any
intersects_any-AllApart p [] room good = (λ _. tt, λ _. refl)
intersects_any-AllApart p (r ∷ rs) room good =
    let head = intersects-Apart p r room good.0.0 good.0.1 in
    let tail = intersects_any-AllApart p rs room good.1 in
    (
      λ h. (head.0 (ground arith), tail.0 (ground arith)),
      λ h. ground (arith, head.1 h.0, tail.1 h.1),
    )
