-- ===== src/Task/Scheduler/Step.antt =====
-- `schedule` on a core that runs a task: it never panics.
use mathlib.Core.Path.{subst}
use pimento.Base.{
  ℕ, ◌≡◌, ◌≢◌, refl, ap, ◌∙◌, inl, inr, arith, Option, none, some, List, [], ◌∷◌, ◌++◌, ok,
  get_elem?, set, Option-cases, All, All-push, push-cons, All-get, All-set, get_elem?-set-some,
  get_elem?-set_ne,
}
use pimento.Task.Scheduler.{Task, TaskId, Scheduler, task, running, schedule, take_front, pair_of}

abbrev pub Known : Scheduler → TaskId → Type 0
Known s id = (t : Task) × (task id s ≡ some t)

abbrev pub CurrentKnown : Scheduler → Option TaskId → Type 0
CurrentKnown s none = Unit
CurrentKnown s (some id) = Known s id

-- Every number in the queue or on a core is a task's.
pub record IsValid (s : Scheduler) : Type 0 where
  pub queued : All (Known s) s.queue
  pub current : All (CurrentKnown s) s.current_tasks

-- `next` runs in place of `prev`, which is behind all others in the queue.
pub record Switches (core : ℕ) (prev next : TaskId) (s s' : Scheduler) : Type 0 where
  pub rotated : s.queue ++ (prev ∷ []) ≡ next ∷ s'.queue
  pub on_core : running core s' ≡ some next
  pub placed : s'.current_tasks ≡ set s.current_tasks core (some next)
  pub elsewhere :
      (other : ℕ)
      → core ≢ other
      → get_elem? s'.current_tasks other ≡ get_elem? s.current_tasks other
  pub same_tasks : s'.tasks ≡ s.tasks

module _ (core : ℕ) (s : Scheduler) (prev : TaskId) (runs : running core s ≡ some prev) where
  schedule-take_front : schedule core s ≡ take_front core prev (s.queue ++ (prev ∷ [])) s
  unfolding schedule
  schedule-take_front = rw (runs, schedule)

  pub on_core : get_elem? s.current_tasks core ≡ some (some prev)
  on_core = elim (Option-cases (get_elem? s.current_tasks core)) [
    | inl nothing ↦ ground arith
    | inr (current, found) ↦ ground arith
  ]

  after_switch : TaskId → List TaskId → Scheduler
  after_switch next rest = record s {
    queue = rest;
    current_tasks = set s.current_tasks core (some next);
  }

  Switches-after :
      (next : TaskId) (rest : List TaskId)
      → s.queue ++ (prev ∷ []) ≡ next ∷ rest
      → Switches core prev next s (after_switch next rest)
  unfolding after_switch
  Switches-after next rest e = record {
    rotated = e;
    on_core = rw (get_elem?-set-some s.current_tasks core (some next) on_core, running) refl;
    placed = refl;
    elsewhere = λ other apart. get_elem?-set_ne s.current_tasks (some next) apart;
    same_tasks = refl;
  }

  schedule-after :
      (next : TaskId) (rest : List TaskId) (prev_task next_task : Task)
      → s.queue ++ (prev ∷ []) ≡ next ∷ rest
      → task prev s ≡ some prev_task
      → task next s ≡ some next_task
      → schedule core s ≡ (ok (prev_task, next_task), after_switch next rest)
  unfolding after_switch
  schedule-after next rest prev_task next_task e p n =
      schedule-take_front
      ∙ ap (λ q. take_front core prev q s) e
      ∙ rw (p, n, take_front, pair_of) refl

  -- A core that runs a task, in a valid state: the task goes to the back of the queue, the one in
  -- front runs, both are known, nothing else is different, and the state is valid again.
  pub schedule_lem :
      IsValid s
      → (next : TaskId) × (prev_task : Task) × (next_task : Task) × (s' : Scheduler) × (schedule
            core s
          ≡ (ok (prev_task, next_task), s'))
        × (task prev s ≡ some prev_task)
        × (task next s ≡ some next_task)
        × Switches core prev next s s'
        × IsValid s'
  unfolding after_switch
  schedule_lem valid =
      let (next, rest, e) = push-cons s.queue prev in
      let (prev_task, p) : Known s prev =
        All-get (CurrentKnown s) s.current_tasks core (some prev) valid.current on_core in
      let all : All (Known s) (next ∷ rest) =
        subst (All (Known s)) e (All-push (Known s) s.queue prev valid.queued (prev_task, p)) in
      let (next_task, n) = all.0 in
      (
        next,
        prev_task,
        next_task,
        after_switch next rest,
        schedule-after next rest prev_task next_task e p n,
        p,
        n,
        Switches-after next rest e,
        record {
          queued = all.1;
          current = All-set (CurrentKnown s) s.current_tasks core (some next) valid.current (all.0);
        },
      )
