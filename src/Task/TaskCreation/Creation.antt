-- ===== src/Task/TaskCreation/Creation.antt =====
-- What a new thread has.
use pimento.Base.{
  ℕ, ◌+◌, ◌%◌, ◌^◌, ◌≤◌, ◌<◌, ◌≡◌, refl, ◌∙◌, ◌⊎◌, inl, inr, arith, none, some, List, [], ◌∷◌, ◌++◌,
  ok, err, word,
}
use pimento.Memory.Mapper.{virtual_address-add, va_start}
use pimento.Memory.PageAllocator
use pimento.Memory.PageAllocator.{PageAllocator, PageAllocation, dealloc}
use pimento.Memory.MemoryContext as M
use pimento.Memory.MemoryContext.{MemoryContext, next_asid, ttbr, alloc_page_unmapped}
use pimento.Memory.MemoryContext.Regions.{Owned, region, translate}
use pimento.Memory.MemoryContext.Growth.{gain}
use pimento.Memory.MemoryContext.Allocation.{Ready, alloc_page_raw-cases}
use pimento.Memory.MemoryContext.Mapping.{root_of, WellFormed}
use pimento.Memory.MemoryContext.Creation.{new-translate}
use pimento.Memory.MemoryContext.Unmapped.{fresh-WellFormed, fresh-translate, fresh-clear}
use pimento.Task.Scheduler.{TaskId, add_task}
use pimento.Task.CpuContext.{set_stack_pointer, set_link_register}
use pimento.Task.TaskCreation.{
  State, Task, create_kthread, ParentTaskId, drop_all, new_task, thread_registers, kthread,
  next_task_id,
}

-- The pages of a context that has its root table only.
abbrev pub root_alone : ℕ → Owned
root_alone p = gain (λ x. none) p (region 0 0)

-- A new thread: its number is the next one, its context translates nothing, and its stack is a page
-- of zeroes of its own.
pub record Created (entry wrapper func_box : ℕ) (s s' : State) (t : Task) : Type 0 where
  pub id : t.id ≡ s.task_id_counter
  pub next_id : s'.task_id_counter ≡ (s.task_id_counter + 1) % word
  pub queued : s'.scheduler.queue ≡ s.scheduler.queue ++ (t.id ∷ [])
  pub tasks : s'.tasks ≡ t ∷ s.tasks
  pub running : s'.scheduler.current_tasks ≡ s.scheduler.current_tasks
  pub context :
      (m : M.State) × (m.pages ≡ s'.pages)
      × WellFormed t.memory_context (root_alone (root_of t.memory_context)) m
  pub unmapped : (b : ℕ) → b < 2 ^ 48 → translate s'.pages.ram (root_of t.memory_context) b ≡ none
  pub stack :
      (p : ℕ) × (t.cpu_context.sp ≡ (va_start + p + 4096) % word)
      × (p % 4096 ≡ 0)
      × (s.pages.allocated ≤ root_of t.memory_context)
      × (root_of t.memory_context + 4096 ≤ p)
      × (p + 4096 ≤ s'.pages.allocated)
      × ((offset : ℕ) → offset < 4096 → s'.pages.ram (va_start + p + offset) ≡ 0)
  pub link :
      (t.cpu_context.lr ≡ entry) × (t.cpu_context.x19 ≡ wrapper) × (t.cpu_context.x20 ≡ func_box)
  pub func : t.func ≡ some func_box

-- Nothing but the allocator, and the counter of address spaces, has changed.
pub record Failed (pa : PageAllocator) (s s' : State) : Type 0 where
  pub full : pa.capacity < s'.pages.allocated
  pub same_id : s'.task_id_counter ≡ s.task_id_counter
  pub same_scheduler : s'.scheduler ≡ s.scheduler
  pub same_tasks : s'.tasks ≡ s.tasks

drop_all-allocated :
    (held : List PageAllocation) (pages : PageAllocator.State)
    → (drop_all held pages).allocated ≡ pages.allocated
unfolding drop_all dealloc
drop_all-allocated [] pages = refl
drop_all-allocated (page ∷ rest) pages = drop_all-allocated rest (dealloc page pages)

module _ (pa : PageAllocator) (entry wrapper func_box : ℕ) (s : State) where
  -- The task that is made, and the state with it.
  abbrev thread : MemoryContext → M.State → PageAllocation → Task
  thread context m page = record {
    id = s.task_id_counter;
    parent_id = ParentTaskId.root;
    name = kthread;
    func = some func_box;
    cpu_context = thread_registers pa entry wrapper func_box page;
    memory_context = context;
    page_allocations = m.page_allocations;
  }

  abbrev after : MemoryContext → M.State → PageAllocation → State
  after context m page = record {
    pages = m.pages;
    asid_counter = (next_asid s.asid_counter).1;
    task_id_counter = (next_task_id s.task_id_counter).1;
    scheduler = (add_task (record { id = s.task_id_counter }) s.scheduler).1;
    tasks = thread context m page ∷ s.tasks;
  }

  abbrev pub Outcome : Type 0
  Outcome =
      ((id : TaskId) × (t : Task) × (s' : State) × (create_kthread pa entry wrapper func_box s
          ≡ some (ok id, s'))
        × (id ≡ t.id)
        × Created entry wrapper func_box s s' t)
      ⊎ ((s' : State) × (create_kthread pa entry wrapper func_box s ≡ some (err, s'))
          × Failed pa s s')

  -- The creation of a thread returns, for an allocator that can be asked for pages. Either it is
  -- the number of the counter for a new task at the end of the queue. Its memory context is
  -- well-formed and translates no address, its stack pointer is the end of a page of zeroes that
  -- was not handed out before and is not its root table, and its other registers lead by
  -- `cpu_context_entry` to the function. Or no page is left and it is an error, with the scheduler
  -- and the counter of tasks as before.
  pub create_kthread_lem : Ready pa s.pages → s.asid_counter < 2 ^ 16 → Outcome
  unfolding create_kthread alloc_page_unmapped add_task new_task set_stack_pointer set_link_register
  create_kthread_lem ready small =
      elim (new-translate pa (next_asid s.asid_counter).0 s.pages ready small) [
        | inr (m, e, refused) ↦ inr (
          record s { pages = m.pages },
          rw (create_kthread, e) refl,
          record { full = refused.full; same_id = refl; same_scheduler = refl; same_tasks = refl },
        )
        | inl (context, m, e, same, _, above, fine, unmapped) ↦
            elim (alloc_page_raw-cases context m fine.ready) [
              | inr (m', e', full) ↦ inr (
                record s {
                  pages = drop_all m'.page_allocations m'.pages;
                  asid_counter = (next_asid s.asid_counter).1;
                },
                rw (create_kthread, e, e') refl,
                record {
                  full = ground (
                    arith,
                    full.refuses.full,
                    same,
                    drop_all-allocated m'.page_allocations m'.pages,
                  );
                  same_id = refl;
                  same_scheduler = refl;
                  same_tasks = refl;
                },
              )
              | inl (page, m', e', fresh) ↦ inl (
                s.task_id_counter,
                thread context m' page,
                after context m' page,
                rw (create_kthread, e, e') refl,
                refl,
                record {
                  id = refl;
                  next_id = refl;
                  queued = refl;
                  tasks = refl;
                  running = refl;
                  context = (m', refl, fresh-WellFormed context _ m m' page fine fresh);
                  unmapped =
                      λ b low. fresh-translate context _ m m' page fine fresh b low ∙ unmapped b;
                  stack = (
                    page.address,
                    omega (
                      arith,
                      fresh.ptr,
                      virtual_address-add page.address
                          (omega (arith, fresh.fits, fine.ready.addressable)),
                    ),
                    fresh.aligned,
                    above,
                    omega (
                      arith,
                      fresh.fresh,
                      fine.tree.taken (root_of context) (λ e. cc (e, fine.tree.at_root)),
                    ),
                    omega (arith, fresh.advanced),
                    fresh-clear context _ m m' page fine fresh,
                  );
                  link = (refl, refl, refl);
                  func = refl;
                },
              )
            ]
      ]
