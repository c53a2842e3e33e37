-- ===== src/Task/Scheduler/Occurrences.antt =====
-- Where the tasks are: a task that was added once is at one place, in the queue or on a core.
use pimento.Base.{
  ℕ, zero, suc, ◌+◌, ◌≡◌, refl, ap, arith, Option, none, some, List, [], ◌∷◌, ◌++◌, if◌then◌else◌,
  ◌==◌, get_elem?, set,
}
use pimento.Task.Scheduler.{TaskId, Scheduler, running}
use pimento.Task.Scheduler.Step.{Switches, on_core}

abbrev pub count : TaskId → List TaskId → ℕ
count x [] = 0
count x (y ∷ ys) = (if y == x then 1 else 0) + count x ys

abbrev pub count_current : TaskId → List (Option TaskId) → ℕ
count_current x [] = 0
count_current x (none ∷ ys) = count_current x ys
count_current x (some y ∷ ys) = (if y == x then 1 else 0) + count_current x ys

-- How often a task is in the queue or on a core.
abbrev pub occurrences : TaskId → Scheduler → ℕ
occurrences x s = count x s.queue + count_current x s.current_tasks

pub count-push : (x y : TaskId) (ys : List TaskId) → count x (ys ++ (y ∷ [])) ≡ count x (y ∷ ys)
count-push x y [] = refl
count-push x y (z ∷ ys) = omega (arith, count-push x y ys)

count_current-set :
    (x : TaskId) (cs : List (Option TaskId)) (i : ℕ) (a b : TaskId)
    → get_elem? cs i ≡ some (some a)
    → count_current x (set cs i (some b)) + (if a == x then 1 else 0)
      ≡ count_current x cs + (if b == x then 1 else 0)
count_current-set x [] i a b e = cc
count_current-set x (none ∷ cs) zero a b e = ground arith
count_current-set x (some c ∷ cs) zero a b e = ground arith
count_current-set x (none ∷ cs) (suc i) a b e = count_current-set x cs i a b e
count_current-set x (some c ∷ cs) (suc i) a b e = omega (arith, count_current-set x cs i a b e)

pub count_current-fill :
    (x : TaskId) (cs : List (Option TaskId)) (i : ℕ) (b : TaskId)
    → get_elem? cs i ≡ some none
    → count_current x (set cs i (some b)) ≡ count_current x cs + (if b == x then 1 else 0)
count_current-fill x [] i b e = cc
count_current-fill x (none ∷ cs) zero b e = omega arith
count_current-fill x (some c ∷ cs) zero b e = ground arith
count_current-fill x (none ∷ cs) (suc i) b e = count_current-fill x cs i b e
count_current-fill x (some c ∷ cs) (suc i) b e = omega (arith, count_current-fill x cs i b e)

-- A switch moves the two tasks, and no task appears or disappears.
pub Switches-occurrences :
    (x : TaskId) (core : ℕ) (prev next : TaskId) (s s' : Scheduler)
    → running core s ≡ some prev
    → Switches core prev next s s'
    → occurrences x s' ≡ occurrences x s
Switches-occurrences x core prev next s s' runs w = omega (
  arith,
  ap (count x) w.rotated,
  count-push x prev s.queue,
  ap (count_current x) w.placed,
  count_current-set x s.current_tasks core prev next (on_core core s prev runs),
)
