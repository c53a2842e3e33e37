-- ===== src/Memory/MemoryContext/Traversal.antt =====
-- One level of `alloc_page`: the row of the address leads on, or a fresh page is linked to it.
use pimento.Base.{
  ℕ, suc, ◌+◌, ◌/◌, ◌%◌, ◌^◌, ◌<◌, ◌≡◌, refl, ◌⊎◌, inl, inr, arith, true, some, ok, err,
}
use pimento.Memory.Mapper.{virtual_address}
use pimento.Memory.PageTable.Constants.{Attribute}
use pimento.Memory.PageTable.TableDescriptor
use pimento.Memory.PageTable.Masks.{and-table}
use pimento.Memory.PageTable.PageDescriptor
use pimento.Memory.PageTable.PageDescriptor.{page_row}
use pimento.Memory.PageTable.TableManager.{TableManager}
use pimento.Memory.PageTable.RowManager
use pimento.Memory.PageTable.Rows.{span}
use pimento.Memory.MemoryContext.{
  MemoryContext, State, traverse_table_to_table, traverse_table_to_page,
}
use pimento.Memory.MemoryContext.Regions.{size, row_at, target, Owned, Tree, walk}
use pimento.Memory.MemoryContext.Allocation.{Ready, alloc_page_raw-cases}
use pimento.Memory.MemoryContext.Descent.{
  Down, Lost, mine, missed, found-Down, linked-Down, owned_with,
}
use pimento.Memory.MemoryContext.Rows.{
  Manages, the_row, row_found, row_starts, free_type, table_type, page_type, written, table_written,
  page_written,
}

module _ (context : MemoryContext) (root : ℕ) (owned : Owned) (s : State)
    (tree : Tree root owned s.pages) (ready : Ready context.page_allocator s.pages)
    (t : TableManager) (level a p : ℕ) (manages : Manages t level a p) (deep : level < 4)
    (small : a < 2 ^ 48) (path : walk level s.pages.ram 0 a root ≡ some p) where
  -- What one level makes of the state: further down, or out of pages.
  module _ (below : level < 3) where
    abbrev TableStep : Type 0
    TableStep =
        ((t' : TableManager) × (x : ℕ) × (s' : State) × (owned' : Owned) × (traverse_table_to_table
              context t a s
            ≡ some (ok t', s'))
          × Manages t' (suc level) a x
          × Down context.page_allocator root owned owned' s s' a level x)
        ⊎ ((s' : State) × (traverse_table_to_table context t a s ≡ some (err, s'))
            × Lost context.page_allocator root s s' a)

    abbrev next : ℕ → TableManager
    next x = record {
      table = virtual_address x;
      level = t.level + 1;
      input_address_start = RowManager.start (the_row t level a);
    }

    next-Manages : (x : ℕ) → Manages (next x) (suc level) a x
    next-Manages x = record {
      level_of = omega (arith, manages.level_of);
      table_of = refl;
      start_of = row_starts t level a p manages deep small;
    }

    -- The row holds a table already.
    table_found : row_at s.pages.ram p (a / span level % 512) % 4 ≡ 3 → TableStep
    unfolding traverse_table_to_table TableDescriptor.address
    table_found typed = inl (
      next (target (row_at s.pages.ram p (a / span level % 512))),
      target (row_at s.pages.ram p (a / span level % 512)),
      s,
      owned,
      rw
          (
            row_found t level a p manages deep small,
            (table_type t level a p manages deep small s.pages.ram below typed).0,
            (table_type t level a p manages deep small s.pages.ram below typed).1,
            and-table,
          )
          refl,
      next-Manages (target (row_at s.pages.ram p (a / span level % 512))),
      found-Down context root owned s tree ready t level a p manages deep small path typed,
    )

    table_linked : row_at s.pages.ram p (a / span level % 512) ≡ 0 → TableStep
    unfolding traverse_table_to_table TableDescriptor.build
    table_linked free = elim (alloc_page_raw-cases context s ready) [
      | inr (s', e, full) ↦ inr (
        s',
        rw
            (
              row_found t level a p manages deep small,
              free_type t level a p manages deep small s.pages.ram free,
              e,
            )
            refl,
        (missed context root owned s tree ready t level a p manages deep small path free, full),
      )
      | inl (page, s1, e, fresh) ↦
          elim (TableDescriptor.new-address page.address
            (omega (arith, fresh.fits, ready.addressable))) [
              | inr (bad, _) ↦
                  absurd (omega (arith, bad, fresh.fits, fresh.aligned, ready.addressable))
              | inl (_, (b, made, _, built)) ↦ inl (
                next page.address,
                page.address,
                record s1 {
                  pages = record s1.pages {
                    ram = written t level a p manages deep small b.pending_value s1.pages.ram;
                  };
                },
                owned_with context root owned s tree ready t level a p manages deep small path
                    page.address,
                rw
                    (
                      row_found t level a p manages deep small,
                      free_type t level a p manages deep small s.pages.ram free,
                      e,
                      made,
                      table_written t level a p manages deep small b s1.pages.ram below,
                    )
                    refl,
                next-Manages page.address,
                linked-Down context root owned s tree ready t level a p manages deep small path page
                    s1 b.pending_value fresh free (omega (arith, built, fresh.aligned))
                    (omega (arith, built, fresh.aligned, fresh.fits, ready.addressable)),
              )
            ]
    ]

    pub traverse_table_to_table-Down : TableStep
    traverse_table_to_table-Down =
        elim (tree.rows p level (a / size level) (a / span level % 512)
          (mine context root owned s tree ready t level a p manages deep small path) deep
          (omega arith)) [ inl free ↦ table_linked free | inr (typed, _) ↦ table_found typed ]

  -- The same for the last level, with a page.
  module _ (last : level ≡ 3) where
    abbrev PageStep : Type 0
    PageStep =
        ((x : ℕ) × (s' : State) × (owned' : Owned) × (traverse_table_to_page context t a s
            ≡ some (ok x, s'))
          × Down context.page_allocator root owned owned' s s' a level x)
        ⊎ ((s' : State) × (traverse_table_to_page context t a s ≡ some (err, s'))
            × Lost context.page_allocator root s s' a)

    page_found : row_at s.pages.ram p (a / span level % 512) % 4 ≡ 3 → PageStep
    unfolding traverse_table_to_page PageDescriptor.address
    page_found typed = inl (
      target (row_at s.pages.ram p (a / span level % 512)),
      s,
      owned,
      rw
          (
            row_found t level a p manages deep small,
            (page_type t level a p manages deep small s.pages.ram last typed).0,
            (page_type t level a p manages deep small s.pages.ram last typed).1,
            and-table,
          )
          refl,
      found-Down context root owned s tree ready t level a p manages deep small path typed,
    )

    page_linked : row_at s.pages.ram p (a / span level % 512) ≡ 0 → PageStep
    unfolding traverse_table_to_page PageDescriptor.build
    page_linked free = elim (alloc_page_raw-cases context s ready) [
      | inr (s', e, full) ↦ inr (
        s',
        rw
            (
              row_found t level a p manages deep small,
              free_type t level a p manages deep small s.pages.ram free,
              e,
            )
            refl,
        (missed context root owned s tree ready t level a p manages deep small path free, full),
      )
      | inl (page, s1, e, fresh) ↦
          elim (PageDescriptor.new-setters page.address Attribute.normal true
            (omega (arith, fresh.fits, ready.addressable))) [
              | inr (bad, _) ↦
                  absurd (omega (arith, bad, fresh.fits, fresh.aligned, ready.addressable))
              | inl (_, (b, made, _, built)) ↦ inl (
                page.address,
                record s1 {
                  pages = record s1.pages {
                    ram =
                        written t level a p manages deep small
                          (page_row page.address Attribute.normal true) s1.pages.ram;
                  };
                },
                owned_with context root owned s tree ready t level a p manages deep small path
                    page.address,
                rw
                    (
                      row_found t level a p manages deep small,
                      free_type t level a p manages deep small s.pages.ram free,
                      e,
                      made,
                      page_written t level a p manages deep small
                          (PageDescriptor.set_unprivileged true
                            (PageDescriptor.set_attribute Attribute.normal b))
                          s1.pages.ram last,
                      built,
                    )
                    refl,
                linked-Down context root owned s tree ready t level a p manages deep small path page
                    s1 (page_row page.address Attribute.normal true) fresh free
                    (omega (arith, fresh.aligned))
                    (omega (arith, fresh.aligned, fresh.fits, ready.addressable)),
              )
            ]
    ]

    pub traverse_table_to_page-Down : PageStep
    traverse_table_to_page-Down =
        elim (tree.rows p level (a / size level) (a / span level % 512)
          (mine context root owned s tree ready t level a p manages deep small path) deep
          (omega arith)) [ inl free ↦ page_linked free | inr (typed, _) ↦ page_found typed ]
