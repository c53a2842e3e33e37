-- ===== src/Task/TaskCreation/Runs.antt =====
-- A thread is created next to one that runs, and the task of the initialization.
use pimento.Base.{◌≡◌, ◌⊎◌, refl, arith, Option, some, none, [], ◌∷◌, Result, ok, err}
use pimento.Memory.PageAllocator.{alloc, alloc_loop, intersects_any}
use pimento.Memory.MemoryContext as M
use pimento.Memory.MemoryContext.{alloc_page_raw, alloc_page_unmapped}
use pimento.Memory.MemoryContext.Samples.{half_megabyte, pages, pages-Ready}
use pimento.Task.Scheduler.{Scheduler, TaskId, become_kinit, schedule}
use pimento.Task.TaskCreation.{State, Task, new_task, create_kthread, create_and_become_kinit}
use pimento.Task.TaskCreation.Creation.{Created, Failed, create_kthread_lem}

abbrev booted : State
booted = record {
  pages = pages;
  asid_counter = 0;
  task_id_counter = 1;
  scheduler = record { tasks = []; queue = []; current_tasks = none ∷ none ∷ [] };
  tasks = [];
}

abbrev threaded : State
threaded = record booted {
  task_id_counter = 2;
  scheduler = record {
    tasks = record { id = 1 } ∷ [];
    queue = [];
    current_tasks = some 1 ∷ none ∷ [];
  };
}

create_kthread_example :
    ((id : TaskId) × (t : Task) × (s' : State) × (create_kthread half_megabyte 0x1000 0x2000 0x3000
          threaded
        ≡ some (ok id, s'))
      × (id ≡ t.id)
      × Created 0x1000 0x2000 0x3000 threaded s' t)
    ⊎ ((s' : State) × (create_kthread half_megabyte 0x1000 0x2000 0x3000 threaded ≡ some (err, s'))
        × Failed half_megabyte threaded s')
create_kthread_example =
    create_kthread_lem half_megabyte 0x1000 0x2000 0x3000 threaded pages-Ready (omega arith)

abbrev ended : Option (Result TaskId × State) → Option (Result TaskId × Scheduler)
ended (some (r, s)) = some (r, s.scheduler)
ended none = none

kinit_runs :
    ended (create_and_become_kinit half_megabyte 0 booted) ≡ some (ok 1, threaded.scheduler)
unfolding create_and_become_kinit new_task M.new alloc alloc_loop intersects_any become_kinit
    schedule
kinit_runs = refl
