-- ===== src/Sync/Once/Runs.antt =====
-- Two callers, and the theorem at them.
use pimento.Base.{ℕ, ◌≡◌, ◌≤◌, ◌⊎◌, refl, List, [], ◌∷◌}
use pimento.Sync.Once.{new, step, steps}
use pimento.Sync.Counting.{total}
use pimento.Sync.Once.Exclusion.{inside, done, call_once_lem}

-- The second spins while the first is behind the lock, and finds the routine done.
abbrev turns : List ℕ
turns = 0 ∷ 1 ∷ 0 ∷ 1 ∷ 0 ∷ 1 ∷ 0 ∷ 0 ∷ 1 ∷ 1 ∷ 1 ∷ []

both : (done_count : total done (steps turns (new 2)).cores ≡ 2) × ((steps turns (new 2)).runs ≡ 1)
unfolding steps step new
both = (refl, refl)

call_once_lem_example :
    (total inside (steps turns (new 2)).cores ≤ 1)
    × ((steps turns (new 2)).runs ≤ 1)
    × ((total done (steps turns (new 2)).cores ≡ 0) ⊎ ((steps turns (new 2)).runs ≡ 1))
call_once_lem_example = call_once_lem 2 turns
