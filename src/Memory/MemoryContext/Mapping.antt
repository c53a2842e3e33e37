-- ===== src/Memory/MemoryContext/Mapping.antt =====
-- `alloc_page` maps a page at an address: all levels of the tree together.
use pimento.Base.{
  ℕ, ◌/◌, ◌^◌, ◌≤◌, ◌<◌, ◌≡◌, ◌≢◌, refl, ◌⊎◌, inl, inr, arith, ltb, ltb→lt, not_ltb, Bool-cases,
  some, ok, err, sym, ◌∙◌,
}
use mathlib.Core.Path.{subst}
use pimento.Memory.Mapper.{virtual_address, physical_address}
use pimento.Memory.PageAllocator
use pimento.Memory.PageAllocator.{PageAllocator}
use pimento.Memory.PageAllocator.Alloc.{Sized}
use pimento.Memory.PageTable.TableManager
use pimento.Memory.PageTable.TableManager.{TableManager, row_by_address}
use pimento.Memory.MemoryContext.{
  MemoryContext, State, alloc_page_loop, alloc_page, traverse_table_to_table,
}
use pimento.Memory.MemoryContext.Regions.{region-inj, walk-Region, Owned, Tree, walk, translate}
use pimento.Memory.MemoryContext.Allocation.{Ready}
use pimento.Memory.MemoryContext.Levels.{Maps, Exhausts, alloc_page_loop-Outcome}

-- The root translates 48 bits.
outside :
    (table a : ℕ)
    → 2 ^ 48 ≤ a
    → row_by_address (record { table = table; level = 0; input_address_start = 0 }) a ≡ err
unfolding row_by_address TableManager.len
outside table a beyond = ground (arith, beyond)

-- No address outside the page of `a` is translated to `x`.
abbrev pub Alone : PageAllocator.State → ℕ → ℕ → ℕ → Type 0
Alone pages root a x =
    (b : ℕ) → b < 2 ^ 48 → b / 4096 ≢ a / 4096 → translate pages.ram root b ≢ some x

Tree-Alone :
    (root : ℕ) (owned : Owned) (pages : PageAllocator.State) (a x : ℕ)
    → Tree root owned pages
    → a < 2 ^ 48
    → translate pages.ram root a ≡ some x
    → Alone pages root a x
Tree-Alone root owned pages a x tree small e b low other f =
    other
      (region-inj 4 (b / 4096) 4 (a / 4096) (
        sym (walk-Region root owned pages tree b 4 x (omega arith) low f)
        ∙ walk-Region root owned pages tree a 4 x (omega arith) small e)).1

-- The physical address of the root table.
abbrev pub root_of : MemoryContext → ℕ
root_of context = physical_address context.table_l0

-- The state of a context between two operations, with an allocator that can be asked for a page.
pub record WellFormed (context : MemoryContext) (owned : Owned) (s : State) : Type 0 where
  pub tree : Tree (root_of context) owned s.pages
  pub window : context.table_l0 ≡ virtual_address (root_of context)
  pub ready : Ready context.page_allocator s.pages

module _ (context : MemoryContext) (owned : Owned) (s : State) (a : ℕ)
    (fine : WellFormed context owned s) where
  -- A well-formed context stays well-formed when a page is mapped.
  Maps-WellFormed :
      (owned' : Owned) (s' : State) (x : ℕ)
      → Maps context.page_allocator (root_of context) owned owned' s s' a x
      → WellFormed context owned' s'
  Maps-WellFormed owned' s' x maps = record {
    tree = maps.grown.tree;
    window = fine.window;
    ready = record {
      sized = elim maps.new [
        | inl same ↦
            subst (λ (s : State). Sized context.page_allocator s.pages.allocated) (sym same)
              fine.ready.sized
        | inr (_, found) ↦ record {
          bounded = fine.ready.sized.bounded;
          below = omega (arith, found.room, fine.ready.sized.bounded);
        }
      ];
      ranges = fine.ready.ranges;
      addressable = fine.ready.addressable;
      aligned = maps.grown.tree.aligned;
    };
  }

  -- `alloc_page` returns, in a well-formed context, with one of three results. Below 2^48 it is a
  -- page to which the address is translated from then on, by the walk that the architecture does:
  -- the page of before, with nothing changed, if there was one, and otherwise a new one with all
  -- bytes clear; no address outside the page is translated to it, or otherwise than before, no page
  -- that was handed out before is written to, tables of the context apart, and the context is
  -- well-formed. Or it is an error, when the address had no page and the allocator has none left:
  -- then every address is translated as before. From 2^48 on it is an error at once.
  pub alloc_page-translate :
      ((x : ℕ) × (s' : State) × (owned' : Owned) × (alloc_page context a s ≡ some (ok x, s'))
        × (a < 2 ^ 48)
        × Maps context.page_allocator (root_of context) owned owned' s s' a x
        × Alone s'.pages (root_of context) a x
        × WellFormed context owned' s')
      ⊎ (((s' : State) × (owned' : Owned) × (alloc_page context a s ≡ some (err, s'))
            × (a < 2 ^ 48)
            × Exhausts context.page_allocator (root_of context) owned owned' s s' a)
          ⊎ ((2 ^ 48 ≤ a) × (alloc_page context a s ≡ some (err, s))))
  unfolding alloc_page alloc_page_loop traverse_table_to_table walk
  alloc_page-translate = elim (Bool-cases (ltb a (2 ^ 48))) [
    | inr beyond ↦
        inr (inr (not_ltb _ _ beyond, rw (outside context.table_l0 a (not_ltb _ _ beyond)) refl))
    | inl below ↦
        elim (alloc_page_loop-Outcome context (root_of context) a (ltb→lt _ _ below) 3 0
          (root_of context) owned s
          (record { table = context.table_l0; level = 0; input_address_start = 0 }) refl fine.tree
          fine.ready
          (record {
            level_of = refl;
            table_of = fine.window;
            start_of = omega (arith, ltb→lt _ _ below);
          })
          refl) [
            | inl (x, s', owned', e, maps) ↦ inl (
              x,
              s',
              owned',
              e,
              ltb→lt _ _ below,
              maps,
              Tree-Alone (root_of context) owned' s'.pages a x maps.grown.tree (ltb→lt _ _ below)
                  maps.mapped,
              Maps-WellFormed owned' s' x maps,
            )
            | inr (s', owned', e, exhausts) ↦ inr (inl (s', owned', e, ltb→lt _ _ below, exhausts))
          ]
  ]
