-- ===== src/Sync/OnceLock/Runs.antt =====
-- Two values for one cell.
use pimento.Base.{ℕ, ◌≡◌, none, List, [], ◌∷◌}
use pimento.Sync.OnceLock.{new}
use pimento.Sync.OnceLock.WriteOnce.{
  Call, get_call, set_call, init_call, calls, registers, once_lock_lem,
}

abbrev both : List (Call ℕ)
both = get_call ∷ set_call 3 ∷ init_call 4 ∷ set_call 5 ∷ get_call ∷ []

once_lock_lem_example : calls both (new ℕ) ≡ registers both none
once_lock_lem_example = once_lock_lem both
