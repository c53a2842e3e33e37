-- ===== src/Task/Scheduler/RoundRobin.antt =====
-- Every task in the queue gets its turn.
use pimento.Base.{
  ℕ, suc, ◌≡◌, refl, sym, ap, ◌∙◌, inl, inr, arith, Option, some, List, [], ◌∷◌, ok, ◌==◌, ==→≡,
  length, get_elem?, Bool-cases, All, All-map, get_elem?-append, get_elem?-lt, find,
}
use pimento.Task.Scheduler.{Task, TaskId, Scheduler, task, running, schedule}
use pimento.Task.Scheduler.Step.{IsValid, Switches, schedule_lem}

-- The state after `schedule` on one core after the other.
abbrev pub after_all : List ℕ → Scheduler → Scheduler
after_all [] s = s
after_all (core ∷ cores) s = after_all cores (schedule core s).1

abbrev pub Busy : Scheduler → ℕ → Type 0
Busy s core = (id : TaskId) × (running core s ≡ some id)

running-elsewhere :
    (core other : ℕ) (s s' : Scheduler)
    → get_elem? s'.current_tasks other ≡ get_elem? s.current_tasks other
    → running other s' ≡ running other s
running-elsewhere core other s s' e = rw (e, running) refl

module _ (core : ℕ) (prev next : TaskId) (s s' : Scheduler) (w : Switches core prev next s s') where
  Busy-after : (other : ℕ) → Busy s other → Busy s' other
  Busy-after other (id, e) = elim (Bool-cases (core == other)) [
    | inl same ↦ (next, ap (λ c. running c s') (sym (==→≡ core other same)) ∙ w.on_core)
    | inr apart ↦ (id, running-elsewhere core other s s' (w.elsewhere other (ground arith)) ∙ e)
  ]

  moves_up :
      (k : ℕ) (t : TaskId) → get_elem? s.queue (suc k) ≡ some t → get_elem? s'.queue k ≡ some t
  moves_up k t e =
      ap (λ q. get_elem? q (suc k)) (sym w.rotated)
      ∙ get_elem?-append s.queue (prev ∷ []) (suc k) (get_elem?-lt s.queue (suc k) e)
      ∙ e

  front : (t : TaskId) → get_elem? s.queue 0 ≡ some t → next ≡ t
  front t e = some-injective (
      ap (λ q. get_elem? q 0) (sym w.rotated)
      ∙ get_elem?-append s.queue (prev ∷ []) 0 (get_elem?-lt s.queue 0 e)
      ∙ e)
    where
      some-injective : {a b : TaskId} → Path (Option TaskId) (some a) (some b) → a ≡ b
      some-injective h = cc

-- In a valid state, a task that is queued behind `n` others runs after `n` calls of `schedule` and
-- one more, on whichever cores, as long as each of the cores runs a task: the last call returns the
-- task as the next one, and its core runs it.
pub round_robin :
    (cores : List ℕ) (core : ℕ) (s : Scheduler) (t : TaskId)
    → IsValid s
    → All (Busy s) cores
    → Busy s core
    → get_elem? s.queue (length cores) ≡ some t
    → (prev_task : Task) × (next_task : Task) × (s' : Scheduler) × (schedule core
          (after_all cores s)
        ≡ (ok (prev_task, next_task), s'))
      × (task t s ≡ some next_task)
      × (running core s' ≡ some t)
round_robin [] core s t valid busy (prev, runs) queued =
    let (next, prev_task, next_task, s', e, p, n, w, valid') =
      schedule_lem core s prev runs valid in
    let same : next ≡ t = front core prev next s s' w t queued in
    (prev_task, next_task, s', e, ap (λ id. task id s) (sym same) ∙ n, w.on_core ∙ ap some same)
round_robin (c ∷ cores) core s t valid ((prev, runs), busy) own queued =
    let (next, prev_task, next_task, s', e, p, n, w, valid') = schedule_lem c s prev runs valid in
    let (prev_task', next_task', s'', e', n', r) =
      round_robin cores core s' t valid' (All-map (Busy-after c prev next s s' w) cores busy)
        (Busy-after c prev next s s' w core own)
        (moves_up c prev next s s' w (length cores) t queued) in
    (
      prev_task',
      next_task',
      s'',
      ap (λ r. schedule core (after_all cores (r.1))) e ∙ e',
      ap (find (λ (u : Task). u.id == t)) (sym w.same_tasks) ∙ n',
      r,
    )
