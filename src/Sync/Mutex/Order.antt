-- ===== src/Sync/Mutex/Order.antt =====
-- The order in which cores write, and where they are.
use pimento.Base.{
  ℕ, zero, suc, ◌+◌, ◌≡◌, refl, ◌⊎◌, inl, inr, arith, Option, none, some, List, [], ◌∷◌, ◌++◌,
  get_elem?, replicate, if◌then◌else◌, ◌==◌,
}
use pimento.Sync.Mutex.{Place, outside, guarded, read, written, released}

-- Behind the lock, and behind the write.
abbrev pub inside : {T : Type 0} → Place T → ℕ
inside guarded = 1
inside (read _) = 1
inside written = 1
inside _ = 0

abbrev pub wrote : {T : Type 0} → Place T → ℕ
wrote written = 1
wrote released = 1
wrote _ = 0

abbrev pub wrote_at : {T : Type 0} → Option (Place T) → ℕ
wrote_at none = 0
wrote_at (some p) = wrote p

-- How often a core comes in a list.
abbrev pub count : ℕ → List ℕ → ℕ
count core [] = 0
count core (c ∷ cs) = if c == core then suc (count core cs) else count core cs

module _ {T : Type 0} (change : ℕ → T → T) where
  -- The changes of the cores, one after the other.
  abbrev pub serial : List ℕ → T → T
  serial [] t = t
  serial (c ∷ cs) t = serial cs (change c t)

  pub serial-push : (cs : List ℕ) (c : ℕ) (t : T) → serial (cs ++ c ∷ []) t ≡ change c (serial cs t)
  serial-push [] c t = refl
  serial-push (x ∷ cs) c t = serial-push cs c (change x t)

pub count-push :
    (core c : ℕ) (cs : List ℕ)
    → count core (cs ++ c ∷ []) ≡ count core cs + (if c == core then 1 else 0)
count-push core c [] = ground arith
count-push core c (x ∷ cs) = ground (arith, count-push core c cs)

pub at_start :
    {T : Type 0} (n core : ℕ)
    → (get_elem? (replicate {A = Place T} n outside) core ≡ none)
      ⊎ (get_elem? (replicate {A = Place T} n outside) core ≡ some outside)
at_start zero core = inl refl
at_start (suc n) zero = inr refl
at_start (suc n) (suc core) = at_start n core
