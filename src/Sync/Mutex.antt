-- ===== src/Sync/Mutex.antt =====
-- kernel/src/sync/mutex.rs over kernel/src/sync/lock.rs: cores that each take the lock once, read
-- the data through the guard, write it through the guard, and drop the guard, in steps that
-- interleave.
pub mod Order
pub mod Serial
mod Runs
use pimento.Base.{
  ℕ, Bool, true, false, Option, none, some, List, [], ◌∷◌, get_elem?, set, replicate,
}

-- Where a core is: outside, spinning in `lock`, with the guard, with what it read, behind its
-- write, and behind the drop of the guard.
pub data Place (T : Type 0) : Type 0 where
  outside spinning guarded written released : Place T
  read : T → Place T

pub record Mutex (T : Type 0) : Type 0 where
  pub flag : Bool
  pub data_cell : T
  pub cores : List (Place T)

unfoldable pub new : {T : Type 0} → ℕ → T → Mutex T
new n value = record { flag = false; data_cell = value; cores = replicate n outside }

-- What each core writes for what it read.
module _ {T : Type 0} (change : ℕ → T → T) where
  -- `compare_exchange(false, true)`: taken only if it was free.
  abbrev pub try_lock : ℕ → Mutex T → Bool → Mutex T
  try_lock core m true = m
  try_lock core m false = record m { flag = true; cores = set m.cores core guarded }

  -- One step of a core. A core that is not there, or has dropped its guard, does nothing.
  abbrev pub step_at : ℕ → Place T → Mutex T → Mutex T
  step_at core outside m = record m { cores = set m.cores core spinning }
  step_at core spinning m = try_lock core m m.flag
  step_at core guarded m = record m { cores = set m.cores core (read m.data_cell) }
  step_at core (read value) m = record m {
    data_cell = change core value;
    cores = set m.cores core written;
  }
  step_at core written m = record m { flag = false; cores = set m.cores core released }
  step_at core released m = m

  unfoldable pub step : ℕ → Mutex T → Mutex T
  step core m = elim (get_elem? m.cores core) [ none ↦ m | some place ↦ step_at core place m ]

  unfoldable pub steps : List ℕ → Mutex T → Mutex T
  unfolding step
  steps [] m = m
  steps (core ∷ turns) m = steps turns (step core m)
