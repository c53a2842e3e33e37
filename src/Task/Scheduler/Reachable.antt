-- ===== src/Task/Scheduler/Reachable.antt =====
-- The states that the scheduler reaches by calls that return.
use mathlib.Core.Path.{subst}
use pimento.Base.{
  ℕ, zero, suc, ◌≡◌, refl, sym, ap, ◌∙◌, ◌⊎◌, inl, inr, arith, Option, none, some, List, [], ◌∷◌,
  ◌++◌, Result, ok, panic, ◌==◌, get_elem?, set, Bool-cases, Option-cases, All-push, All-map,
  All-set, replicate, find, All-replicate,
}
use pimento.Task.Scheduler.{Task, TaskId, Scheduler, task, running, schedule, add_task, new, adopt}
use pimento.Task.Scheduler.Step.{Known, CurrentKnown, IsValid, schedule_lem}
use pimento.Task.Scheduler.Occurrences.{
  count, count_current, occurrences, Switches-occurrences, count-push, count_current-fill,
}

-- From a new scheduler, by steps of calls that do not panic, in any order, with the numbers of the
-- tasks that they brought. `become_kinit` is `adopt`, and `schedule` some time after it.
pub data Reachable (num_cores : ℕ) : List TaskId → Scheduler → Type 0 where
  begin : Reachable num_cores [] (new num_cores)
  adopted :
      {added : List TaskId} {s s' : Scheduler} (core : ℕ) (t : Task) (id : TaskId)
      → Reachable num_cores added s
      → adopt core t s ≡ (ok id, s')
      → Reachable num_cores (t.id ∷ added) s'
  add :
      {added : List TaskId} {s : Scheduler} (t : Task)
      → Reachable num_cores added s
      → Reachable num_cores (t.id ∷ added) (add_task t s).1
  switch :
      {added : List TaskId} {s s' : Scheduler} (core : ℕ) (pair : Task × Task)
      → Reachable num_cores added s
      → schedule core s ≡ (ok pair, s')
      → Reachable num_cores added s'

abbrev pub Accounted : List TaskId → Scheduler → Type 0
Accounted added s = IsValid s × ((x : TaskId) → occurrences x s ≡ count x added)

schedule-runs :
    (core : ℕ) (s s' : Scheduler) (pair : Task × Task)
    → schedule core s ≡ (ok pair, s')
    → (prev : TaskId) × (running core s ≡ some prev)
unfolding schedule
schedule-runs core s s' pair e = elim (Option-cases (running core s)) [
  | inl nothing ↦ ground arith
  | inr found ↦ found
]

schedule-Accounted :
    (core : ℕ) (added : List TaskId) (s s' : Scheduler) (pair : Task × Task)
    → schedule core s ≡ (ok pair, s')
    → Accounted added s
    → Accounted added s'
schedule-Accounted core added s s' pair e (valid, counts) =
    let (prev, runs) = schedule-runs core s s' pair e in
    let (next, prev_task, next_task, s'', e'', p, n, w, valid'') =
      schedule_lem core s prev runs valid in
    subst (Accounted added) (ap (λ r. r.1) (sym e'' ∙ e))
      (valid'', λ x. Switches-occurrences x core prev next s s'' runs w ∙ counts x)

-- The numbers that are known stay known, as more tasks come.
Known-insert :
    (s : Scheduler) (t : Task) (q : List TaskId) (cs : List (Option TaskId)) (id : TaskId)
    → Known s id
    → Known (record { tasks = t ∷ s.tasks; queue = q; current_tasks = cs }) id
Known-insert s t q cs id (u, e) = elim (Bool-cases (t.id == id)) [
  | inl here ↦ (t, rw (here, task))
  | inr there ↦ (u, rw (there, task) e)
]

CurrentKnown-insert :
    (s : Scheduler) (t : Task) (q : List TaskId) (cs : List (Option TaskId)) (c : Option TaskId)
    → CurrentKnown s c
    → CurrentKnown (record { tasks = t ∷ s.tasks; queue = q; current_tasks = cs }) c
CurrentKnown-insert s t q cs none k = tt
CurrentKnown-insert s t q cs (some id) k = Known-insert s t q cs id k

own : (s : Scheduler) (t : Task) → find (λ (u : Task). u.id == t.id) (t ∷ s.tasks) ≡ some t
own s t = ground arith

add_task-Accounted :
    (added : List TaskId) (s : Scheduler) (t : Task)
    → Accounted added s
    → Accounted (t.id ∷ added) (add_task t s).1
unfolding add_task
add_task-Accounted added s t (valid, counts) = (
  record {
    queued =
        All-push
          (Known (record {
            tasks = t ∷ s.tasks;
            queue = s.queue ++ (t.id ∷ []);
            current_tasks = s.current_tasks;
          }))
          s.queue t.id
          (All-map (Known-insert s t (s.queue ++ (t.id ∷ [])) s.current_tasks) s.queue valid.queued)
          (t, own s t);
    current =
        All-map (CurrentKnown-insert s t (s.queue ++ (t.id ∷ [])) s.current_tasks) s.current_tasks
          valid.current;
  },
  λ x. omega (arith, count-push x t.id s.queue, counts x),
)

ok-panic : {A : Type 0} {a : A} → Path (Result A) (ok a) panic → ⊥
ok-panic e = cc

clash :
    {A : Type 0} {r : Result A × Scheduler} {a : A} {s : Scheduler}
    → r ≡ (ok a, s)
    → (r.0) ≡ panic
    → ⊥
clash e panics = ok-panic (ap (λ r. r.0) (sym e) ∙ panics)

List-cases : (ts : List Task) → (ts ≡ []) ⊎ ((t : Task) × (rest : List Task) × (ts ≡ t ∷ rest))
List-cases [] = inl refl
List-cases (t ∷ rest) = inr (t, rest, refl)

-- The state in which `become_kinit` frees the lock.
abbrev adopting : ℕ → Task → Scheduler → Scheduler
adopting core t s = record s {
  tasks = t ∷ [];
  current_tasks = set s.current_tasks core (some t.id);
}

adopt-adopting :
    (core : ℕ) (t : Task) (s s' : Scheduler) (id : TaskId)
    → adopt core t s ≡ (ok id, s')
    → (s.tasks ≡ []) × (get_elem? s.current_tasks core ≡ some none) × (adopting core t s ≡ s')
unfolding adopt
adopt-adopting core t s s' id e = elim (List-cases s.tasks) [
  | inr (u, rest, some_tasks) ↦ absurd (clash e (rw (some_tasks, adopt)))
  | inl no_tasks ↦ elim (Bool-cases (core == 0)) [
    | inr other ↦ absurd (clash e (rw (no_tasks, other, adopt)))
    | inl zeroth ↦ elim (Option-cases (get_elem? s.current_tasks core)) [
      | inl gone ↦ absurd (clash e (rw (no_tasks, zeroth, gone, adopt)))
      | inr (none, idle) ↦
          let out : adopt core t s ≡ (ok t.id, adopting core t s) =
            rw (no_tasks, zeroth, idle, adopt) refl in
          (no_tasks, idle, ap (λ r. r.1) (sym out ∙ e))
      | inr (some other, busy) ↦ absurd (clash e (rw (no_tasks, zeroth, busy, adopt)))
    ]
  ]
]

Known-empty : (s : Scheduler) (id : TaskId) → s.tasks ≡ [] → Known s id → ⊥
Known-empty s id no_tasks (t, e) =
    none-some (sym (ap (find (λ (u : Task). u.id == id)) no_tasks) ∙ e)
  where
    none-some : {t : Task} → Path (Option Task) none (some t) → ⊥
    none-some h = cc

CurrentKnown-empty :
    (s s' : Scheduler) → s.tasks ≡ [] → (c : Option TaskId) → CurrentKnown s c → CurrentKnown s' c
CurrentKnown-empty s s' no_tasks none k = tt
CurrentKnown-empty s s' no_tasks (some id) k = absurd (Known-empty s id no_tasks k)

adopting-Accounted :
    (core : ℕ) (added : List TaskId) (t : Task) (s : Scheduler)
    → s.tasks ≡ []
    → get_elem? s.current_tasks core ≡ some none
    → Accounted added s
    → Accounted (t.id ∷ added) (adopting core t s)
adopting-Accounted core added t s no_tasks idle (valid, counts) = (
  record {
    queued = All-map (λ id k. absurd (Known-empty s id no_tasks k)) s.queue valid.queued;
    current =
        All-set (CurrentKnown (adopting core t s)) s.current_tasks core (some t.id)
          (All-map (CurrentKnown-empty s (adopting core t s) no_tasks) s.current_tasks
            valid.current)
          (t, own (record s { tasks = [] }) t);
  },
  λ x. omega (arith, count_current-fill x s.current_tasks core t.id idle, counts x),
)

count_current-replicate : (x : TaskId) (n : ℕ) → count_current x (replicate n none) ≡ 0
count_current-replicate x zero = refl
count_current-replicate x (suc n) = count_current-replicate x n

new-Accounted : (n : ℕ) → Accounted [] (new n)
unfolding new
new-Accounted n = (
  record { queued = tt; current = All-replicate (CurrentKnown (new n)) n none tt },
  λ x. omega (arith, count_current-replicate x n),
)

-- Every state that the scheduler reaches is valid, and every task is in the queue and on the cores,
-- taken together, exactly as often as it was brought: a task that came once is neither lost, nor
-- doubled, nor on two cores.
pub Reachable-Accounted :
    (num_cores : ℕ) (added : List TaskId) (s : Scheduler)
    → Reachable num_cores added s
    → Accounted added s
Reachable-Accounted n added s begin = new-Accounted n
Reachable-Accounted n added s (adopted {added = before} {s = s0} core t id r e) =
    let (no_tasks, idle, same) = adopt-adopting core t s0 s id e in
    subst (Accounted (t.id ∷ before)) same
      (adopting-Accounted core before t s0 no_tasks idle (Reachable-Accounted n before s0 r))
Reachable-Accounted n added s (add {added = before} {s = s0} t r) =
    add_task-Accounted before s0 t (Reachable-Accounted n before s0 r)
Reachable-Accounted n added s (switch {s = s0} core pair r e) =
    schedule-Accounted core added s0 s pair e (Reachable-Accounted n added s0 r)
