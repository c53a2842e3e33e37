-- ===== src/Memory/MemoryContext/Growth.antt =====
-- A fresh page is linked into the tree of a memory context, by a row that was free.
use pimento.Base.{
  ℕ, zero, suc, ◌+◌, ◌*◌, ◌/◌, ◌%◌, ◌^◌, ◌≤◌, ◌<◌, ◌≡◌, ◌≢◌, refl, ◌⊎◌, inl, inr, arith, Option,
  none, some, ◌==◌, if◌then◌else◌, Bool-cases, false, sym, ap, ◌∙◌,
}
use pimento.Memory.Mapper.{virtual_address}
use pimento.Memory.PageAllocator
use pimento.Memory.PageTable.Rows.{span}
use pimento.Memory.MemoryContext.Regions.{
  size, row_at, target, region-inj, walk, walk-free, walk-typed, walk-add, root-owned, Region,
  Owned, region, LeadsTo, Taken, Tree, part,
}

-- A byte of a page, apart from the row that is written.
abbrev pub Untouched : PageAllocator.State → ℕ → ℕ → ℕ → ℕ → Type 0
Untouched pages p index p' offset =
    Taken pages p' × (offset < 4096) × ((p' ≢ p) ⊎ (offset ≢ 8 * index))

-- The row `index` of the table at `p`, free before, leads to the page `q`, new and clear.
pub record Links (p index q : ℕ) (pages pages' : PageAllocator.State) : Type 0 where
  pub free : row_at pages.ram p index ≡ 0
  pub typed : row_at pages'.ram p index % 4 ≡ 3
  pub leads : target (row_at pages'.ram p index) ≡ q
  pub fresh : pages.allocated ≤ q
  pub taken : Taken pages' q
  pub clear : (offset : ℕ) → offset < 4096 → pages'.ram (virtual_address q + offset) ≡ 0
  pub aligned : pages'.allocated % 4096 ≡ 0
  pub others :
      (p' offset : ℕ)
      → Untouched pages p index p' offset
      → pages'.ram (virtual_address p' + offset) ≡ pages.ram (virtual_address p' + offset)

abbrev pub gain : Owned → ℕ → Option Region → Owned
gain owned q r x = if x == q then r else owned x

module _ (root : ℕ) (owned : Owned) (pages pages' : PageAllocator.State)
    (tree : Tree root owned pages) (p level number index q : ℕ)
    (mine : owned p ≡ region level number) (deep : level < 4) (in_table : index < 512)
    (links : Links p index q pages pages') where
  abbrev child : Option Region
  child = region (suc level) (number * 512 + index)

  -- What belonged to the context is not the new page.
  old : (x level' number' : ℕ) → owned x ≡ region level' number' → Taken pages x × (x == q ≡ false)
  old x level' number' own = (known, ground (arith, links.fresh, known))
    where
      known : Taken pages x
      known = tree.taken x (λ e. cc (e, own))

  kept :
      (x level' number' : ℕ)
      → owned x ≡ region level' number'
      → gain owned q child x ≡ region level' number'
  kept x level' number' own = rw (old x level' number' own).1 own

  gained :
      (x : ℕ) (r : Option Region)
      → gain owned q child x ≡ r
      → ((x ≡ q) × (r ≡ child)) ⊎ (owned x ≡ r)
  gained x r e = elim (Bool-cases (x == q)) [
    | inl same ↦ inl (ground arith, ground arith)
    | inr other ↦ inr (ground arith)
  ]

  -- A row of an old table is the one that is written, or as it was.
  row_split :
      (x level' number' j : ℕ)
      → owned x ≡ region level' number'
      → j < 512
      → ((x ≡ p) × (j ≡ index)) ⊎ (row_at pages'.ram x j ≡ row_at pages.ram x j)
  row_split x level' number' j own small = elim (Bool-cases (x == p)) [
    | inl same ↦ elim (Bool-cases (j == index)) [
      | inl spot ↦ inl (ground arith, ground arith)
      | inr apart ↦
          inr (links.others x (8 * j) ((old x _ _ own).0, omega arith, inr (ground arith)))
    ]
    | inr other ↦ inr (links.others x (8 * j) ((old x _ _ own).0, omega arith, inl (ground arith)))
  ]

  leads-kept :
      (l n row : ℕ) → LeadsTo owned (region l n) row → LeadsTo (gain owned q child) (region l n) row
  leads-kept l n row (inl e) = inl e
  leads-kept l n row (inr (typed, own)) = inr (typed, kept (target row) l n own)

  child_gained : gain owned q child q ≡ child
  child_gained = ground arith

  -- The new row leads to the new page.
  leads-new : LeadsTo (gain owned q child) child (row_at pages'.ram p index)
  leads-new = inr (links.typed, rw (links.leads, child_gained))

  leads-old :
      (x l n j : ℕ)
      → owned x ≡ region l n
      → l < 4
      → j < 512
      → LeadsTo (gain owned q child) (region (suc l) (n * 512 + j)) (row_at pages'.ram x j)
  leads-old x l n j own below small = elim (row_split x l n j own small) [
    | inl (here, spot) ↦
        let same : (l ≡ level) × (n ≡ number) =
          region-inj l n level number (cc (own, mine, here)) in
        rw (here, spot, same.0, same.1) leads-new
    | inr e ↦ rw e (leads-kept (suc l) (n * 512 + j) _ (tree.rows x l n j own below small))
  ]

  -- The tree has grown by the new page.
  pub gain-Tree : Tree root (gain owned q child) pages'
  gain-Tree = record {
    at_root = kept root 0 0 tree.at_root;
    rows = λ x l n j own below small. elim (gained x (region l n) own) [
      | inl (here, _) ↦ inl (rw here (links.clear (8 * j) (omega arith)))
      | inr known ↦ leads-old x l n j known below small
    ];
    taken = λ x real. elim (gained x (gain owned q child x) refl) [
      | inl (new, _) ↦ rw new links.taken
      | inr known ↦
          omega (arith, tree.taken x (λ e. real (cc (known, e))), links.fresh, links.taken)
    ];
    aligned = links.aligned;
  }

  -- A walk that starts where it may is as before, or it ended at the free row before, and goes on
  -- to the new page now.
  Goes : ℕ → ℕ → ℕ → ℕ → Type 0
  Goes n x l a =
      (walk n pages'.ram l a x ≡ walk n pages.ram l a x)
      ⊎ ((walk n pages.ram l a x ≡ none)
          × (a / span level ≡ number * 512 + index)
          × ((m : ℕ) × (n + l ≡ suc m + level)
              × (walk n pages'.ram l a x ≡ walk m pages'.ram (suc level) a q)))

  walk-Goes : (n x l a : ℕ) → owned x ≡ region l (a / size l) → n + l ≤ 4 → Goes n x l a
  unfolding walk Goes
  walk-Goes zero x l a own room = inl refl
  walk-Goes (suc n) x l a own room =
      elim (row_split x l (a / size l) (a / span l % 512) own (omega arith)) [
        | inl (here, spot) ↦
            let same : (l ≡ level) × (a / size l ≡ number) =
              region-inj l _ level number (cc (own, mine, here)) in
            inr (
              walk-free n pages.ram l a x (rw (here, spot) links.free),
              rw (sym same.0) (omega (arith, part l a (omega arith), same.1, spot)),
              (
                n,
                omega (arith, same.0),
                (walk-typed n pages'.ram l a x (row_at pages'.ram p index) (rw (here, spot))
                      links.typed
                    ∙ rw (same.0, links.leads)),
              ),
            )
        | inr e ↦ elim (tree.rows x l _ (a / span l % 512) own (omega arith) (omega arith)) [
          | inl nothing ↦ inl (
              walk-free n pages'.ram l a x (e ∙ nothing)
              ∙ sym (walk-free n pages.ram l a x nothing))
          | inr (typed, next) ↦
              rw
                (walk-typed n pages'.ram l a x _ e typed, walk-typed n pages.ram l a x _ refl typed)
                (elim (walk-Goes n (target (row_at pages.ram x (a / span l % 512))) (suc l) a
                  (next ∙ ap (λ k. region (suc l) k) (part l a (omega arith))) (omega arith)) [
                    | inl same ↦ inl same
                    | inr (before, inside, (m, steps, after)) ↦
                        inr (before, inside, (m, omega (arith, steps), after))
                  ])
        ]
      ]

  ends : (m a : ℕ) → walk (suc m) pages'.ram (suc level) a q ≡ none
  ends m a =
      walk-free m pages'.ram (suc level) a q
        (links.clear (8 * (a / span (suc level) % 512)) (omega arith))

  -- Other walks are as before; so are all when the new page is a table.
  pub translate-kept :
      (a : ℕ)
      → a < 2 ^ 48
      → (level < 3) ⊎ (a / span level ≢ number * 512 + index)
      → walk 4 pages'.ram 0 a root ≡ walk 4 pages.ram 0 a root
  unfolding Goes
  translate-kept a small apart =
      elim (walk-Goes 4 root 0 a (root-owned root owned pages tree a small) (omega arith)) [
        | inl same ↦ same
        | inr (before, inside, (zero, steps, after)) ↦ elim apart [
          | inl above ↦ absurd (omega (arith, steps))
          | inr other ↦ absurd (other inside)
        ]
        | inr (before, inside, (suc m, steps, after)) ↦ after ∙ ends m a ∙ sym before
      ]

  -- What was reached is reached, and now the new page is, a level below.
  pub walk-kept :
      (n a x : ℕ)
      → n ≤ 4
      → a < 2 ^ 48
      → walk n pages.ram 0 a root ≡ some x
      → walk n pages'.ram 0 a root ≡ some x
  unfolding Goes
  walk-kept n a x few small e =
      elim (walk-Goes n root 0 a (root-owned root owned pages tree a small) (omega arith)) [
        | inl same ↦ same ∙ e
        | inr (before, _, _) ↦ absurd (cc (before, e))
      ]

  pub walk-gained :
      (a : ℕ)
      → a < 2 ^ 48
      → walk level pages.ram 0 a root ≡ some p
      → a / span level % 512 ≡ index
      → walk (suc level) pages'.ram 0 a root ≡ some q
  unfolding walk
  walk-gained a small e here =
      walk-add pages'.ram a level 1 (suc level) 0 level root p (omega arith) (omega arith)
        (walk-kept level a p (omega arith) small e)
      ∙ walk-typed 0 pages'.ram level a p _ (rw here) links.typed
      ∙ ap some links.leads
