-- ===== src/Sync/Once.antt =====
-- kernel/src/sync/once.rs over kernel/src/sync/lock.rs: any number of callers of `call_once`, which
-- take turns step by step. A caller is a core; one that calls again is another caller. The memory
-- orders of the atomic flag are taken to do what they are for: what is done between a `lock` and
-- its `unlock` is seen by the next `lock`.
pub mod Exclusion
mod Runs
use pimento.Base.{
  ℕ, ◌+◌, Bool, true, false, Option, none, some, List, [], ◌∷◌, get_elem?, set, replicate, ◌≡◌,
}

-- Where a core is: outside `call_once`, spinning in `lock`, behind it, behind the routine, and
-- behind the write of `completed`. `finished` has returned.
pub data Place : Type 0 where
  outside spinning locked ran marked finished : Place

-- The flag of the lock, `completed`, the cores, and how often the routine was run.
pub record Once : Type 0 where
  pub flag : Bool
  pub completed : Bool
  pub runs : ℕ
  pub cores : List Place

unfoldable pub new : ℕ → Once
new n = record { flag = false; completed = false; runs = 0; cores = replicate n outside }

-- `compare_exchange(false, true)`: the flag behind it, and whether it was taken.
abbrev pub compare_exchange : Bool → Bool × Bool
compare_exchange false = (true, true)
compare_exchange true = (true, false)

abbrev pub tried : ℕ → Once → Bool × Bool → Once
tried core o (flag, true) = record o { flag = flag; cores = set o.cores core locked }
tried core o (flag, false) = record o { flag = flag }

-- `if !*completed`
abbrev pub checked : ℕ → Once → Bool → Once
checked core o true = record o { cores = set o.cores core marked }
checked core o false = record o { runs = o.runs + 1; cores = set o.cores core ran }

-- One step of a core. A core that is not there, or has finished, does nothing.
abbrev pub step_at : ℕ → Place → Once → Once
step_at core outside o = record o { cores = set o.cores core spinning }
step_at core spinning o = tried core o (compare_exchange o.flag)
step_at core locked o = checked core o o.completed
step_at core ran o = record o { completed = true; cores = set o.cores core marked }
step_at core marked o = record o { flag = false; cores = set o.cores core finished }
step_at core finished o = o

unfoldable pub step : ℕ → Once → Once
step core o = elim (get_elem? o.cores core) [ none ↦ o | some place ↦ step_at core place o ]

unfoldable pub steps : List ℕ → Once → Once
unfolding step
steps [] o = o
steps (core ∷ cores) o = steps cores (step core o)
