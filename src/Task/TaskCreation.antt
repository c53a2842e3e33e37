-- ===== src/Task/TaskCreation.antt =====
-- kernel/src/task/aarch64/task_creation.rs, with the tasks of kernel/src/task/task.rs. The
-- addresses of code and of the boxed function are arguments, and that the kernel's heap may be full
-- is left out.
pub mod Creation
mod Runs
use pimento.Base.{ℕ, ◌+◌, ◌%◌, Option, none, some, List, [], ◌∷◌, Result, ok, err, panic, word}
use pimento.Memory.Address.{wrapping_add}
use pimento.Memory.Ram.{page_size}
use pimento.Memory.PageAllocator
use pimento.Memory.PageAllocator.{PageAllocator, PageAllocation, dealloc}
use pimento.Memory.MemoryContext as M
use pimento.Memory.MemoryContext.{MemoryContext, next_asid, alloc_page_unmapped}
use pimento.Task.Scheduler as S
use pimento.Task.Scheduler.{Scheduler, TaskId, add_task, become_kinit}
use pimento.Task.CpuContext as C
use pimento.Task.CpuContext.{Registers, set_stack_pointer, set_link_register}

-- `TaskId::next` hands out the value of a counter of 64 bits.
abbrev pub next_task_id : ℕ → TaskId × ℕ
next_task_id counter = (counter, (counter + 1) % word)

pub data ParentTaskId : Type 0 where
  root : ParentTaskId
  task_id : TaskId → ParentTaskId

-- The context of the file system has no fields. The pages that the memory context holds are with
-- it.
pub record Task : Type 0 where
  pub id : TaskId
  pub parent_id : ParentTaskId
  pub name : List ℕ
  pub func : Option ℕ
  pub cpu_context : Registers
  pub memory_context : MemoryContext
  pub page_allocations : List PageAllocation

-- The scheduler's table holds the tasks themselves, the last first.
pub record State : Type 0 where
  pub pages : PageAllocator.State
  pub asid_counter : ℕ
  pub task_id_counter : ℕ
  pub scheduler : Scheduler
  pub tasks : List Task

abbrev pub kinit : List ℕ
kinit = b'k' ∷ b'i' ∷ b'n' ∷ b'i' ∷ b't' ∷ []

abbrev pub kthread : List ℕ
kthread = b'k' ∷ b't' ∷ b'h' ∷ b'r' ∷ b'e' ∷ b'a' ∷ b'd' ∷ []

-- `Task::new`
unfoldable pub new_task :
    ParentTaskId
    → List ℕ
    → Option ℕ
    → Registers
    → MemoryContext
    → List PageAllocation
    → State
    → Task × State
new_task parent_id name func cpu_context memory_context page_allocations s = (
  record {
    id = (next_task_id s.task_id_counter).0;
    parent_id = parent_id;
    name = name;
    func = func;
    cpu_context = cpu_context;
    memory_context = memory_context;
    page_allocations = page_allocations;
  },
  record s { task_id_counter = (next_task_id s.task_id_counter).1 },
)

abbrev pub scheduled : Task → State → Result TaskId × Scheduler → Result TaskId × State
scheduled t s (r, scheduler) = (r, record s { scheduler = scheduler; tasks = t ∷ s.tasks })

-- The result of `become_kinit` is the number of the task, after the scheduler's first switch.
abbrev pub number_of : {A : Type 0} → TaskId → Result A → Result TaskId
number_of id (ok _) = ok id
number_of id err = err
number_of id panic = panic

abbrev pub entered : ℕ → Task × State → Result TaskId × State
entered core (t, s) =
    let r = become_kinit core (record { id = t.id }) s.scheduler in
    scheduled t s (number_of t.id r.0, r.1)

-- The pages of a context that is dropped.
unfoldable pub drop_all : List PageAllocation → PageAllocator.State → PageAllocator.State
drop_all [] pages = pages
drop_all (page ∷ rest) pages = drop_all rest (dealloc page pages)

-- A new context takes the number of its address space when it has its root table.
abbrev pub with_context :
    {A : Type 0}
    → State
    → Option (Result MemoryContext × M.State)
    → (MemoryContext → M.State → State → Option (Result A × State))
    → Option (Result A × State)
with_context s none next = none
with_context s (some (ok context, m)) next =
    next context m (record s { pages = m.pages; asid_counter = (next_asid s.asid_counter).1 })
with_context s (some (err, m)) next = some (err, record s { pages = m.pages })
with_context s (some (panic, m)) next = some (panic, record s { pages = m.pages })

module _ (pa : PageAllocator) where
  unfoldable pub create_and_become_kinit : ℕ → State → Option (Result TaskId × State)
  unfolding new_task
  create_and_become_kinit core s =
      with_context s (M.new pa (next_asid s.asid_counter).0 s.pages) (λ context m s'.
        some (entered core (new_task root kinit none C.new context m.page_allocations s')))

  -- The registers of a thread: the end of its stack, and by proxy of `cpu_context_entry` the
  -- wrapper with the function that it calls.
  abbrev pub thread_registers : (entry wrapper func_box : ℕ) → PageAllocation → Registers
  thread_registers entry wrapper func_box kernel_stack =
      set_link_register entry wrapper func_box
        (set_stack_pointer (wrapping_add kernel_stack.ptr page_size) C.new)

  abbrev pub added : Task × State → Result TaskId × State
  added (t, s) = scheduled t s (add_task (record { id = t.id }) s.scheduler)

  abbrev pub with_stack :
      (entry wrapper func_box : ℕ)
      → MemoryContext
      → State
      → Option (Result PageAllocation × M.State)
      → Option (Result TaskId × State)
  with_stack entry wrapper func_box context s none = none
  with_stack entry wrapper func_box context s (some (ok kernel_stack, m)) = some (
      added (
        new_task root kthread (some func_box) (thread_registers entry wrapper func_box kernel_stack)
          context m.page_allocations (record s { pages = m.pages })))
  with_stack entry wrapper func_box context s (some (err, m)) =
      some (err, record s { pages = drop_all m.page_allocations m.pages })
  with_stack entry wrapper func_box context s (some (panic, m)) =
      some (panic, record s { pages = m.pages })

  unfoldable pub create_kthread :
      (entry wrapper func_box : ℕ) → State → Option (Result TaskId × State)
  unfolding new_task drop_all
  create_kthread entry wrapper func_box s =
      with_context s (M.new pa (next_asid s.asid_counter).0 s.pages) (λ context m s'.
        with_stack entry wrapper func_box context s' (alloc_page_unmapped context m))
