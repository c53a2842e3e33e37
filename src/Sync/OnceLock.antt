-- ===== src/Sync/OnceLock.antt =====
-- kernel/src/sync/once_lock.rs: a cell that is written once. `call_once` runs its routine behind a
-- lock if it has not been run, as `Sync.Once` shows step by step, so a call is one step here.
pub mod WriteOnce
mod Runs
use pimento.Base.{Bool, true, false, Option, none, some, Result, ok, panic, if◌then◌else◌}

-- The flag of the `Once`, and the data, nothing where it is not initialized.
pub record OnceLock (T : Type 0) : Type 0 where
  pub completed : Bool
  pub value_cell : Option T

abbrev pub new : (T : Type 0) → OnceLock T
new T = record { completed = false; value_cell = none }

module _ {T : Type 0} where
  abbrev pub is_completed : OnceLock T → Bool
  is_completed l = l.completed

  abbrev pub is_initialized : OnceLock T → Bool
  is_initialized l = is_completed l

  -- `assume_init_ref`: without a value nothing is known of what follows.
  abbrev pub assume_init_ref : Option T → Result T
  assume_init_ref (some value) = ok value
  assume_init_ref none = panic

  abbrev pub call_once : OnceLock T → (OnceLock T → OnceLock T) → OnceLock T
  call_once l routine = if l.completed then l else record (routine l) { completed = true }

  abbrev pub get_result : Result T → Result (Option T)
  get_result (ok value) = ok (some value)
  get_result _ = panic

  unfoldable pub get : OnceLock T → Result (Option T)
  get l = if is_initialized l then get_result (assume_init_ref l.value_cell) else ok none

  unfoldable pub get_or_init : T → OnceLock T → Result T × OnceLock T
  get_or_init value l =
      let l' = call_once l (λ l. record l { value_cell = some value }) in
      (assume_init_ref l'.value_cell, l')

  -- The value is taken if the routine is run. What is left of it is handed back.
  unfoldable pub set_value : T → OnceLock T → Option T × OnceLock T
  unfolding get_or_init
  set_value value l = (if l.completed then some value else none, (get_or_init value l).1)
