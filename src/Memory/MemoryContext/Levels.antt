-- ===== src/Memory/MemoryContext/Levels.antt =====
-- The loop of `alloc_page`, over the levels that are left.
use pimento.Base.{
  ℕ, zero, suc, ◌+◌, ◌/◌, ◌^◌, ◌<◌, ◌≡◌, ◌≢◌, refl, ◌⊎◌, inl, inr, arith, true, false, ltb, Option,
  none, some, Result, ok, err, sym, ap, ◌∙◌,
}
use mathlib.Core.Path.{subst}
use pimento.Memory.PageAllocator.{PageAllocator}
use pimento.Memory.PageAllocator.Alloc.{Sized}
use pimento.Memory.PageTable.TableManager.{TableManager}
use pimento.Memory.MemoryContext.{MemoryContext, State, alloc_page_loop}
use pimento.Memory.MemoryContext.Regions.{Owned, Tree, walk, translate}
use pimento.Memory.MemoryContext.Allocation.{Ready}
use pimento.Memory.MemoryContext.Extent.{Grown, Grown-trans, allocated-Grown}
use pimento.Memory.MemoryContext.Rows.{Manages}
use pimento.Memory.MemoryContext.Descent.{New, Down, Lost}
use pimento.Memory.MemoryContext.Traversal.{
  traverse_table_to_table-Down, traverse_table_to_page-Down,
}

-- The address is translated to the page `x`, and the addresses outside that page as before. Nothing
-- was done if the address was translated already; otherwise the page is new.
pub record Maps (pa : PageAllocator) (root : ℕ) (owned owned' : Owned) (s s' : State) (a x : ℕ)
    : Type 0 where
  pub grown : Grown root owned owned' s.pages s'.pages
  pub mapped : translate s'.pages.ram root a ≡ some x
  pub others :
      (b : ℕ)
      → b < 2 ^ 48
      → b / 4096 ≢ a / 4096
      → translate s'.pages.ram root b ≡ translate s.pages.ram root b
  pub new : (s' ≡ s) ⊎ ((translate s.pages.ram root a ≡ none) × New pa s s' x)

-- The address is not translated, all addresses are translated as before, and no page is left.
pub record Exhausts (pa : PageAllocator) (root : ℕ) (owned owned' : Owned) (s s' : State) (a : ℕ)
    : Type 0 where
  pub grown : Grown root owned owned' s.pages s'.pages
  pub unmapped : translate s.pages.ram root a ≡ none
  pub all : (b : ℕ) → b < 2 ^ 48 → translate s'.pages.ram root b ≡ translate s.pages.ram root b
  pub full : pa.capacity < s'.pages.allocated

module _ (pa : PageAllocator) (root a : ℕ) (small : a < 2 ^ 48) where
  Lost-Exhausts :
      (owned : Owned) (s s' : State)
      → Tree root owned s.pages
      → Lost pa root s s' a
      → Exhausts pa root owned owned s s' a
  Lost-Exhausts owned s s' tree (unmapped, full) = record {
    grown = allocated-Grown root owned s.pages s'.pages tree full.ram full.advanced full.aligned;
    unmapped = unmapped;
    all = λ b _. rw full.ram refl;
    full = full.refuses.full;
  }

  Down-Maps :
      (owned owned' : Owned) (s s' : State) (level x : ℕ)
      → level ≡ 3
      → Down pa root owned owned' s s' a level x
      → Maps pa root owned owned' s s' a x
  Down-Maps owned owned' s s' level x last down = record {
    grown = down.grown;
    mapped = subst (λ (l : ℕ). walk (suc l) s'.pages.ram 0 a root ≡ some x) last down.path;
    others = λ b low other. down.kept b low (inr other);
    new = down.new;
  }

  module _ (owned owned' owned'' : Owned) (s s' s'' : State) (level p : ℕ) (above : level < 3)
      (down : Down pa root owned owned' s s' a level p) where
    Maps-after :
        (x : ℕ) → Maps pa root owned' owned'' s' s'' a x → Maps pa root owned owned'' s s'' a x
    Maps-after x maps = record {
      grown =
          Grown-trans root owned owned' owned'' s.pages s'.pages s''.pages down.grown maps.grown;
      mapped = maps.mapped;
      others = λ b low other. maps.others b low other ∙ down.kept b low (inl above);
      new = elim maps.new [
        | inl same ↦ elim down.new [
          | inl unchanged ↦ inl (same ∙ unchanged)
          | inr (unmapped, _) ↦
              let still : translate s''.pages.ram root a ≡ none =
                ap (λ (s : State). translate s.pages.ram root a) same
                ∙ down.kept a small (inl above)
                ∙ unmapped in
              absurd (cc (still, maps.mapped))
        ]
        | inr (unmapped, found) ↦ inr (
          sym (down.kept a small (inl above)) ∙ unmapped,
          record {
            fresh = omega (arith, found.fresh, down.grown.advanced);
            room = found.room;
            clear = found.clear;
          },
        )
      ];
    }

    Exhausts-after :
        Exhausts pa root owned' owned'' s' s'' a → Exhausts pa root owned owned'' s s'' a
    Exhausts-after exhausts = record {
      grown =
          Grown-trans root owned owned' owned'' s.pages s'.pages s''.pages down.grown
            exhausts.grown;
      unmapped = sym (down.kept a small (inl above)) ∙ exhausts.unmapped;
      all = λ b low. exhausts.all b low ∙ down.kept b low (inl above);
      full = exhausts.full;
    }

-- The allocator after a level is ready for the next.
Down-Ready :
    (pa : PageAllocator) (root a : ℕ) (owned owned' : Owned) (s s' : State) (level p : ℕ)
    → Ready pa s.pages
    → Down pa root owned owned' s s' a level p
    → Ready pa s'.pages
Down-Ready pa root a owned owned' s s' level p ready down = record {
  sized = elim down.new [
    | inl same ↦ subst (λ (s : State). Sized pa s.pages.allocated) (sym same) ready.sized
    | inr (_, found) ↦ record {
      bounded = ready.sized.bounded;
      below = omega (arith, found.room, ready.sized.bounded);
    }
  ];
  ranges = ready.ranges;
  addressable = ready.addressable;
  aligned = down.grown.tree.aligned;
}

module _ (context : MemoryContext) (root a : ℕ) (small : a < 2 ^ 48) where
  abbrev pub Outcome : Owned → State → Option (Result ℕ × State) → Type 0
  Outcome owned s r =
      ((x : ℕ) × (s' : State) × (owned' : Owned) × (r ≡ some (ok x, s'))
        × Maps context.page_allocator root owned owned' s s' a x)
      ⊎ ((s' : State) × (owned' : Owned) × (r ≡ some (err, s'))
          × Exhausts context.page_allocator root owned owned' s s' a)

  -- The levels that are left, and the page.
  pub alloc_page_loop-Outcome :
      (fuel level p : ℕ) (owned : Owned) (s : State) (t : TableManager)
      → fuel + level ≡ 3
      → Tree root owned s.pages
      → Ready context.page_allocator s.pages
      → Manages t level a p
      → walk level s.pages.ram 0 a root ≡ some p
      → Outcome owned s (alloc_page_loop (suc fuel) context t a s)
  unfolding alloc_page_loop
  alloc_page_loop-Outcome zero level p owned s t left tree ready manages path =
      elim (traverse_table_to_page-Down context root owned s tree ready t level a p manages
        (omega (arith, left)) small path (omega (arith, left))) [
          | inl (x, s', owned', e, down) ↦ inl (
            x,
            s',
            owned',
            rw (last, e) refl,
            Down-Maps context.page_allocator root a small owned owned' s s' level x
                (omega (arith, left)) down,
          )
          | inr (s', e, lost) ↦ inr (
            s',
            owned,
            rw (last, e) refl,
            Lost-Exhausts context.page_allocator root a small owned s s' tree lost,
          )
        ]
    where
      last : ltb t.level 3 ≡ false
      last = ground (arith, manages.level_of, left)
  alloc_page_loop-Outcome (suc fuel) level p owned s t left tree ready manages path =
      elim (traverse_table_to_table-Down context root owned s tree ready t level a p manages
        (omega (arith, left)) small path (omega (arith, left))) [
          | inr (s', e, lost) ↦ inr (
            s',
            owned,
            rw (above, e) refl,
            Lost-Exhausts context.page_allocator root a small owned s s' tree lost,
          )
          | inl (t', x, s', owned', e, manages', down) ↦
              elim (alloc_page_loop-Outcome fuel (suc level) x owned' s' t' (omega (arith, left))
                down.grown.tree
                (Down-Ready context.page_allocator root a owned owned' s s' level x ready down)
                manages' down.path) [
                  | inl (y, s'', owned'', e', maps) ↦ inl (
                    y,
                    s'',
                    owned'',
                    rw (above, e, e') refl,
                    Maps-after context.page_allocator root a small owned owned' owned'' s s' s''
                        level x (omega (arith, left)) down y maps,
                  )
                  | inr (s'', owned'', e', exhausts) ↦ inr (
                    s'',
                    owned'',
                    rw (above, e, e') refl,
                    Exhausts-after context.page_allocator root a small owned owned' owned'' s s' s''
                        level x (omega (arith, left)) down exhausts,
                  )
                ]
        ]
    where
      above : ltb t.level 3 ≡ true
      above = ground (arith, manages.level_of, left)
