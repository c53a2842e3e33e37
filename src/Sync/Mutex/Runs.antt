-- ===== src/Sync/Mutex/Runs.antt =====
-- Two cores of which each adds to a counter.
use pimento.Base.{ℕ, ◌+◌, ◌≤◌, ◌≡◌, refl, List, [], ◌∷◌, get_elem?}
use pimento.Sync.Counting.{total}
use pimento.Sync.Mutex.{new, step, steps}
use pimento.Sync.Mutex.Order.{inside, serial, count, wrote_at}
use pimento.Sync.Mutex.Serial.{mutex_lem}

abbrev add : ℕ → ℕ → ℕ
add core t = t + core + 1

-- Core 1 gets the lock first, and core 0 spins in between.
abbrev turns : List ℕ
turns = 0 ∷ 1 ∷ 1 ∷ 0 ∷ 1 ∷ 0 ∷ 1 ∷ 0 ∷ 1 ∷ 0 ∷ 0 ∷ 0 ∷ 0 ∷ []

both : (steps add turns (new 2 10)).data_cell ≡ 13
unfolding steps step new
both = refl

mutex_lem_example :
    (total inside (steps add turns (new 2 10)).cores ≤ 1)
    × ((order : List ℕ) × ((steps add turns (new 2 10)).data_cell ≡ serial add order 10)
        × ((core : ℕ)
            → count core order ≡ wrote_at (get_elem? (steps add turns (new 2 10)).cores core)))
mutex_lem_example = mutex_lem add 10 2 turns
