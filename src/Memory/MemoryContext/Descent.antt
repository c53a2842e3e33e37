-- ===== src/Memory/MemoryContext/Descent.antt =====
-- A step of the walk down the tree of a memory context.
use pimento.Base.{
  ℕ, suc, ◌+◌, ◌-◌, ◌*◌, ◌/◌, ◌%◌, ◌^◌, ◌≤◌, ◌<◌, ◌≡◌, ◌≢◌, refl, ◌⊎◌, inl, inr, arith, none, some,
  ◌∙◌,
}
use pimento.Memory.Mapper.{virtual_address}
use pimento.Memory.Ram.{write}
use pimento.Memory.PageAllocator.{PageAllocator, PageAllocation}
use pimento.Memory.PageTable.TableManager.{TableManager}
use pimento.Memory.PageTable.Rows.{span}
use pimento.Memory.MemoryContext.{MemoryContext, State}
use pimento.Memory.MemoryContext.Regions.{
  size, row_at, target, Owned, region, Tree, walk, walk-Region, walk-add, walk-typed, walk-free,
  translate, level-cases,
}
use pimento.Memory.MemoryContext.Growth.{Links, gain, translate-kept, walk-gained}
use pimento.Memory.MemoryContext.Allocation.{Ready, Fresh, Full, fresh-Links}
use pimento.Memory.MemoryContext.Extent.{Grown, Grown-refl, Links-Grown}
use pimento.Memory.MemoryContext.Rows.{Manages}

-- A page that the allocator had not handed out, clear.
pub record New (pa : PageAllocator) (s s' : State) (x : ℕ) : Type 0 where
  pub fresh : s.pages.allocated ≤ x
  pub room : s'.pages.allocated ≤ pa.capacity
  pub clear : (offset : ℕ) → offset < 4096 → s'.pages.ram (virtual_address x + offset) ≡ 0

-- The walk goes on to `x`; nothing was done for that, or `x` is new. Walks from other addresses are
-- as before, and all of them above the last level.
pub record Down (pa : PageAllocator) (root : ℕ) (owned owned' : Owned) (s s' : State)
    (a level x : ℕ) : Type 0 where
  pub grown : Grown root owned owned' s.pages s'.pages
  pub path : walk (suc level) s'.pages.ram 0 a root ≡ some x
  pub kept :
      (b : ℕ)
      → b < 2 ^ 48
      → (level < 3) ⊎ (b / 4096 ≢ a / 4096)
      → translate s'.pages.ram root b ≡ translate s.pages.ram root b
  pub new : (s' ≡ s) ⊎ ((translate s.pages.ram root a ≡ none) × New pa s s' x)

-- No page is left for the walk to go on to.
abbrev pub Lost : PageAllocator → ℕ → State → State → ℕ → Type 0
Lost pa root s s' a = (translate s.pages.ram root a ≡ none) × Full pa s s'

module _ (context : MemoryContext) (root : ℕ) (owned : Owned) (s : State)
    (tree : Tree root owned s.pages) (ready : Ready context.page_allocator s.pages)
    (t : TableManager) (level a p : ℕ) (manages : Manages t level a p) (deep : level < 4)
    (small : a < 2 ^ 48) (path : walk level s.pages.ram 0 a root ≡ some p) where
  abbrev pub index : ℕ
  index = a / span level % 512

  pub mine : owned p ≡ region level (a / size level)
  mine = walk-Region root owned s.pages tree a level p (omega arith) small path

  pub missed : row_at s.pages.ram p index ≡ 0 → translate s.pages.ram root a ≡ none
  missed free =
      walk-add s.pages.ram a level (suc (3 - level)) 4 0 level root p (omega arith) (omega arith)
        path
      ∙ walk-free (3 - level) s.pages.ram level a p free

  pub found-Down :
      row_at s.pages.ram p index % 4 ≡ 3
      → Down context.page_allocator root owned owned s s a level
          (target (row_at s.pages.ram p index))
  unfolding walk
  found-Down typed = record {
    grown = Grown-refl root owned s.pages tree;
    path =
        walk-add s.pages.ram a level 1 (suc level) 0 level root p (omega arith) (omega arith) path
        ∙ walk-typed 0 s.pages.ram level a p _ refl typed;
    kept = λ b _ _. refl;
    new = inl refl;
  }

  elsewhere :
      (b : ℕ)
      → (level < 3) ⊎ (b / 4096 ≢ a / 4096)
      → (level < 3) ⊎ (b / span level ≢ a / size level * 512 + index)
  elsewhere b apart = ground (arith, level-cases level deep)

  abbrev pub owned_with : ℕ → Owned
  owned_with x = gain owned x (region (suc level) (a / size level * 512 + index))

  -- A row with the address of a fresh page is written to the free row.
  pub linked-Down :
      (page : PageAllocation) (s' : State) (v : ℕ)
      → Fresh context.page_allocator s page s'
      → row_at s.pages.ram p index ≡ 0
      → v % 4 ≡ 3
      → target v ≡ page.address
      → Down context.page_allocator root owned
          (owned_with page.address)
          s
          (record s' {
            pages = record s'.pages { ram = write (virtual_address p + 8 * index) v s'.pages.ram };
          })
          a
          level
          page.address
  linked-Down page s' v fresh free typed leads = record {
    grown =
        Links-Grown root owned s.pages _ tree p level (a / size level) index page.address mine deep
          (omega arith) links;
    path =
        walk-gained root owned s.pages _ tree p level (a / size level) index page.address mine deep
          (omega arith) links a small path refl;
    kept = λ b low apart.
        translate-kept root owned s.pages _ tree p level (a / size level) index page.address mine
          deep (omega arith) links b low (elsewhere b apart);
    new = inr (
      missed free,
      record {
        fresh = fresh.fresh;
        room = omega (arith, fresh.advanced, fresh.fits);
        clear = links.clear;
      },
    );
  }
    where
      links :
          Links p index page.address s.pages
            (record s'.pages { ram = write (virtual_address p + 8 * index) v s'.pages.ram })
      links =
          fresh-Links context.page_allocator s s' page p index v fresh ready.addressable
            (tree.taken p (λ e. cc (e, mine))) (omega arith) free typed leads
