-- ===== src/Memory/MemoryContext/Regions.antt =====
-- The tree of tables of a memory context: which region of the addresses each table translates.
use pimento.Base.{
  ℕ, zero, suc, ◌+◌, ◌*◌, ◌/◌, ◌%◌, ◌^◌, ◌≤◌, ◌<◌, ◌≡◌, ◌≢◌, refl, ◌⊎◌, inl, inr, arith, Option,
  none, some, ◌==◌, if◌then◌else◌, Option-cases, sym, ap, ◌∙◌,
}
use pimento.Memory.Address.{PhysicalAddress, UserAddress}
use pimento.Memory.Mapper.{virtual_address}
use pimento.Memory.Ram.{Ram}
use pimento.Memory.PageAllocator
use pimento.Memory.PageTable.Constants.{row_size}
use pimento.Memory.PageTable.Rows.{span}

-- The bytes of a region: all that a table of the level translates, and a page at level 4.
abbrev pub size : ℕ → ℕ
size zero = 2 ^ 48
size (suc level) = span level

-- The row for `a` in the table at `p`, found by the nine bits of the address for the level.
abbrev pub row_at : Ram → PhysicalAddress → ℕ → ℕ
row_at ram p index = ram (virtual_address p + row_size * index)

-- What the architecture reads in a row with both type bits: bits 12 to 47.
abbrev pub target : ℕ → PhysicalAddress
target row = row % 2 ^ 48 / 2 ^ 12 * 2 ^ 12

abbrev pub descend : Ram → ℕ → UserAddress → PhysicalAddress → Option PhysicalAddress
descend ram level a p =
    let row = row_at ram p (a / span level % 512) in
    if row % 4 == 3 then some (target row) else none

-- The walk over tables, `n` levels down from the table at `p`, as the architecture does it. Blocks,
-- which no context has, end it.
unfoldable pub walk : ℕ → Ram → ℕ → UserAddress → PhysicalAddress → Option PhysicalAddress
walk zero ram level a p = some p
walk (suc n) ram level a p = elim (descend ram level a p) [
  | none ↦ none
  | some q ↦ walk n ram (suc level) a q
]

-- The page that an address below 2^48 is translated to, from the root table at `root`.
abbrev pub translate : Ram → PhysicalAddress → UserAddress → Option PhysicalAddress
translate ram root a = walk 4 ram 0 a root

-- A page of memory is the table, or at level 4 the page, for a region of the addresses.
pub record Region : Type 0 where
  pub level : ℕ
  pub number : ℕ

-- The pages that belong to a context.
abbrev pub Owned : Type 0
Owned = PhysicalAddress → Option Region

abbrev pub region : ℕ → ℕ → Option Region
region level number = some (record { level = level; number = number })

pub region-inj : (l n l' n' : ℕ) → region l n ≡ region l' n' → (l ≡ l') × (n ≡ n')
region-inj l n l' n' e = (cc e, cc e)

-- The row leads to what belongs to the region, or is free.
abbrev pub LeadsTo : Owned → Option Region → ℕ → Type 0
LeadsTo owned r row = (row ≡ 0) ⊎ ((row % 4 ≡ 3) × (owned (target row) ≡ r))

-- A page that the allocator has handed out.
abbrev pub Taken : PageAllocator.State → PhysicalAddress → Type 0
Taken pages p = (p % 4096 ≡ 0) × (p + 4096 ≤ pages.allocated) × (p < 2 ^ 48)

-- The tables of a context make a tree, in which each row leads to its own part of the region.
pub record Tree (root : PhysicalAddress) (owned : Owned) (pages : PageAllocator.State)
    : Type 0 where
  pub at_root : owned root ≡ region 0 0
  pub rows :
      (p level number index : ℕ)
      → owned p ≡ region level number
      → level < 4
      → index < 512
      → LeadsTo owned (region (suc level) (number * 512 + index)) (row_at pages.ram p index)
  pub taken : (p : ℕ) → owned p ≢ none → Taken pages p
  pub aligned : pages.allocated % 4096 ≡ 0

pub level-cases : (l : ℕ) → l < 4 → (l ≡ 0) ⊎ ((l ≡ 1) ⊎ ((l ≡ 2) ⊎ (l ≡ 3)))
level-cases l h = omega arith

-- The part of a region that an address lies in.
pub part : (level a : ℕ) → level < 4 → a / size level * 512 + a / span level % 512 ≡ a / span level
part level a h = ground (arith, level-cases level h)

-- One step of a walk ends it at a free row, and goes on where a row leads.
pub walk-free :
    (n : ℕ) (ram : Ram) (level a p : ℕ)
    → row_at ram p (a / span level % 512) ≡ 0
    → walk (suc n) ram level a p ≡ none
unfolding walk
walk-free n ram level a p e = rw (walk, e)

pub walk-typed :
    (n : ℕ) (ram : Ram) (level a p row : ℕ)
    → row_at ram p (a / span level % 512) ≡ row
    → row % 4 ≡ 3
    → walk (suc n) ram level a p ≡ walk n ram (suc level) a (target row)
unfolding walk
walk-typed n ram level a p row e typed = rw (walk, e, typed)

module _ (ram : Ram) (a : UserAddress) where
  walk-suc :
      (n level p : ℕ) (o : Option PhysicalAddress)
      → descend ram level a p ≡ o
      → walk (suc n) ram level a p ≡ elim o [ none ↦ none | some q ↦ walk n ram (suc level) a q ]
  unfolding walk
  walk-suc n level p o e =
      ap
        (λ (o : Option PhysicalAddress). elim o [
          | none ↦ none
          | some q ↦ walk n ram (suc level) a q
        ])
        e

  walk-first :
      (n level p : ℕ) (x : PhysicalAddress)
      → walk (suc n) ram level a p ≡ some x
      → (q : ℕ) × (descend ram level a p ≡ some q) × (walk n ram (suc level) a q ≡ some x)
  walk-first n level p x e = elim (Option-cases (descend ram level a p)) [
    | inl nothing ↦ absurd (cc (walk-suc n level p none nothing, e))
    | inr (q, found) ↦ (q, found, sym (walk-suc n level p (some q) found) ∙ e)
  ]

  -- A walk goes on from where its first steps lead.
  pub walk-add :
      (n m k level level' p x : ℕ)
      → k ≡ n + m
      → level' ≡ n + level
      → walk n ram level a p ≡ some x
      → walk k ram level a p ≡ walk m ram level' a x
  unfolding walk
  walk-add zero m k level level' p x total deep e =
      let same : k ≡ m = omega (arith, total) in
      let flat : level' ≡ level = omega (arith, deep) in
      rw (same, flat)
        (ap (λ (o : Option PhysicalAddress). elim o [ none ↦ none | some y ↦ walk m ram level a y ])
          e)
  walk-add (suc n) m zero level level' p x total deep e = absurd (omega (arith, total))
  walk-add (suc n) m (suc k) level level' p x total deep e =
      let (q, found, rest) = walk-first n level p x e in
      walk-suc k level p (some q) found
      ∙ walk-add n m k (suc level) level' q x (omega (arith, total)) (omega (arith, deep)) rest

module _ (root : PhysicalAddress) (owned : Owned) (pages : PageAllocator.State)
    (tree : Tree root owned pages) (a : UserAddress) where
  -- A walk over the tree passes the parts of the regions that the address lies in.
  walk-owned :
      (n level k p x : ℕ)
      → k ≡ n + level
      → k ≤ 4
      → owned p ≡ region level (a / size level)
      → walk n pages.ram level a p ≡ some x
      → owned x ≡ region k (a / size k)
  unfolding walk
  walk-owned zero level k p x total small own e =
      let same : k ≡ level = omega (arith, total) in
      let here : p ≡ x = cc e in rw (same, sym here) own
  walk-owned (suc n) level k p x total small own e =
      elim (tree.rows p level _ (a / span level % 512) own (omega (arith, total)) (omega arith)) [
        | inl nothing ↦ absurd (cc (walk-free n pages.ram level a p nothing, e))
        | inr (typed, next) ↦
            walk-owned n (suc level) k _ x (omega (arith, total)) small
              (next ∙ ap (λ i. region (suc level) i) (part level a (omega (arith, total))))
              (sym (walk-typed n pages.ram level a p _ refl typed) ∙ e)
      ]

  pub root-owned : a < 2 ^ 48 → owned root ≡ region 0 (a / size 0)
  root-owned small = tree.at_root ∙ ap (λ i. region 0 i) (omega arith)

  pub walk-Region :
      (n x : ℕ)
      → n ≤ 4
      → a < 2 ^ 48
      → walk n pages.ram 0 a root ≡ some x
      → owned x ≡ region n (a / size n)
  walk-Region n x few small e = walk-owned n 0 n root x (omega arith) few (root-owned small) e
