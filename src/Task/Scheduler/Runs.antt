-- ===== src/Task/Scheduler/Runs.antt =====
-- Two tasks on one core, and the theorems at them.
use pimento.Base.{◌≡◌, refl, some, [], ◌∷◌, ok}
use pimento.Task.Scheduler.{
  Task, TaskId, Scheduler, new, task, running, schedule, adopt, become_kinit, add_task,
}
use pimento.Task.Scheduler.Step.{IsValid, Switches, schedule_lem}
use pimento.Task.Scheduler.Reachable.{
  Reachable, Accounted, Reachable-Accounted, begin, adopted, add, switch,
}
use pimento.Task.Scheduler.RoundRobin.{after_all, round_robin}

abbrev idle : Task
idle = record { id = 1 }

abbrev shell : Task
shell = record { id = 2 }

-- After `become_kinit(idle)`, and after `add_task(shell)` behind that.
abbrev alone : Scheduler
alone = record { tasks = idle ∷ []; queue = []; current_tasks = some 1 ∷ [] }

abbrev two : Scheduler
two = record { tasks = shell ∷ idle ∷ []; queue = 2 ∷ []; current_tasks = some 1 ∷ [] }

abbrev switched : Scheduler
switched = record { tasks = shell ∷ idle ∷ []; queue = 1 ∷ []; current_tasks = some 2 ∷ [] }

start : become_kinit 0 idle (new 1) ≡ (ok (idle, idle), alone)
unfolding become_kinit adopt new schedule
start = refl

adopts : adopt 0 idle (new 1) ≡ (ok 1, alone)
unfolding adopt new
adopts = refl

switches : schedule 0 (add_task shell alone).1 ≡ (ok (idle, shell), switched)
unfolding add_task schedule
switches = refl

joined : add_task shell alone ≡ (ok 2, two)
unfolding add_task
joined = refl

valid : IsValid two
valid = record { queued = ((shell, refl), tt); current = ((idle, refl), tt) }

-- The task `shell` comes before `become_kinit` has called `schedule`.
reached : Reachable 1 (2 ∷ 1 ∷ []) switched
reached = switch 0 (idle, shell) (add shell (adopted 0 idle 1 begin adopts)) switches

schedule_lem_example :
    (next : TaskId) × (prev_task : Task) × (next_task : Task) × (s' : Scheduler) × (schedule 0 two
      ≡ (ok (prev_task, next_task), s'))
    × (task 1 two ≡ some prev_task)
    × (task next two ≡ some next_task)
    × Switches 0 1 next two s'
    × IsValid s'
schedule_lem_example = schedule_lem 0 two 1 refl valid

Reachable-Accounted_example : Accounted (2 ∷ 1 ∷ []) switched
Reachable-Accounted_example = Reachable-Accounted 1 (2 ∷ 1 ∷ []) switched reached

round_robin_example :
    (prev_task : Task) × (next_task : Task) × (s' : Scheduler) × (schedule 0 (after_all [] two)
      ≡ (ok (prev_task, next_task), s'))
    × (task 2 two ≡ some next_task)
    × (running 0 s' ≡ some 2)
round_robin_example = round_robin [] 0 two 2 valid tt (1, refl) refl
