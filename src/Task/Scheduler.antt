-- ===== src/Task/Scheduler.antt =====
-- kernel/src/task/scheduler.rs. An operation is one step, since it holds the scheduler's lock from
-- its first access of the state to its last, except for `become_kinit`, which is two: `adopt` and
-- `schedule`. The core that calls it is an argument. Of a task only its number is kept.
pub mod Step
pub mod Occurrences
pub mod Reachable
pub mod RoundRobin
mod Runs
use pimento.Base.{
  ℕ, Bool, true, false, Option, none, some, List, [], ◌∷◌, ◌++◌, Result, ok, err, panic, ◌>>=◌,
  if◌then◌else◌, ◌==◌, ltb, not, ◌&&◌, length, get_elem?, set, replicate, find,
}
use pimento.Base.Outcome.{unwrap}

abbrev pub TaskId : Type 0
TaskId = ℕ

pub record Task : Type 0 where
  pub id : TaskId

-- `tasks` holds what was inserted, the last first: a number stands for the first task that has it.
pub record Scheduler : Type 0 where
  pub tasks : List Task
  pub queue : List TaskId
  pub current_tasks : List (Option TaskId)

unfoldable pub new : ℕ → Scheduler
new num_cores = record { tasks = []; queue = []; current_tasks = replicate num_cores none }

abbrev pub task : TaskId → Scheduler → Option Task
task id s = find (λ (t : Task). t.id == id) s.tasks

unfoldable pub add_task : Task → Scheduler → Result TaskId × Scheduler
add_task t s = (ok t.id, record s { tasks = t ∷ s.tasks; queue = s.queue ++ (t.id ∷ []) })

-- `current_tasks[core].unwrap()`, a panic for a core that is not there too.
abbrev pub running : ℕ → Scheduler → Option TaskId
running core s = elim (get_elem? s.current_tasks core) [ none ↦ none | some current ↦ current ]

unfoldable pub current_task_id : ℕ → Scheduler → Result TaskId
current_task_id core s = unwrap (running core s)

unfoldable pub current_task : ℕ → Scheduler → Result Task
unfolding current_task_id
current_task core s = do id ← current_task_id core s; unwrap (task id s)

-- Both tasks are looked up when the queue has changed already.
abbrev pub pair_of : TaskId → TaskId → Scheduler → Result (Task × Task)
pair_of prev next s = do
  prev_task ← unwrap (task prev s)
  next_task ← unwrap (task next s)
  ok (prev_task, next_task)

-- The pop of the front, behind the push of the current task. The result is the two tasks that
-- `context_switch` saves and loads.
abbrev pub take_front : ℕ → TaskId → List TaskId → Scheduler → Result (Task × Task) × Scheduler
take_front core prev [] s = (panic, record s { queue = [] })
take_front core prev (next ∷ rest) s =
    let s' = record s { queue = rest; current_tasks = set s.current_tasks core (some next) } in
    (pair_of prev next s', s')

unfoldable pub schedule : ℕ → Scheduler → Result (Task × Task) × Scheduler
schedule core s = elim (running core s) [
  | none ↦ (panic, s)
  | some prev ↦ take_front core prev (s.queue ++ (prev ∷ [])) s
]

-- What `become_kinit` does behind the lock: `assert!` of no tasks, of core 0, and of a core with
-- none.
unfoldable pub adopt : ℕ → Task → Scheduler → Result TaskId × Scheduler
adopt core t s = elim s.tasks [
  | _ ∷ _ ↦ (panic, s)
  | [] ↦
      let s' = record s { tasks = t ∷ [] } in
      elim (core == 0) [
        | false ↦ (panic, s')
        | true ↦ elim (get_elem? s.current_tasks core) [
          | none ↦ (panic, s')
          | some (some _) ↦ (panic, s')
          | some none ↦
              (ok t.id, record s' { current_tasks = set s.current_tasks core (some t.id) })
        ]
      ]
]

abbrev pub and_schedule : ℕ → Result TaskId × Scheduler → Result (Task × Task) × Scheduler
and_schedule core (ok _, s) = schedule core s
and_schedule core (err, s) = (err, s)
and_schedule core (panic, s) = (panic, s)

-- The lock is free between the two: these are two steps, when no other call comes between them.
unfoldable pub become_kinit : ℕ → Task → Scheduler → Result (Task × Task) × Scheduler
unfolding adopt schedule
become_kinit core t s = and_schedule core (adopt core t s)
