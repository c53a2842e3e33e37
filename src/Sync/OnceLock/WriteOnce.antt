-- ===== src/Sync/OnceLock/WriteOnce.antt =====
-- A cell against a register that keeps the first value that is written.
use pimento.Base.{◌≡◌, refl, ap, true, false, Option, none, some, List, [], ◌∷◌, Result, ok}
use pimento.Sync.OnceLock.{OnceLock, new, get, get_or_init, set_value}

pub data Call (T : Type 0) : Type 0 where
  get_call : Call T
  set_call init_call : T → Call T

-- What a call returns: the value that is there, that was handed back, or that is there now.
pub data Answer (T : Type 0) : Type 0 where
  found handed_back : Option T → Answer T
  holds : T → Answer T
  broken : Answer T

module _ {T : Type 0} where
  abbrev found_of : Result (Option T) → Answer T
  found_of (ok value) = found value
  found_of _ = broken

  abbrev holds_of : Result T → Answer T
  holds_of (ok value) = holds value
  holds_of _ = broken

  abbrev pub call : Call T → OnceLock T → Answer T × OnceLock T
  call get_call l = (found_of (get l), l)
  call (set_call value) l = (handed_back (set_value value l).0, (set_value value l).1)
  call (init_call value) l = (holds_of (get_or_init value l).0, (get_or_init value l).1)

  abbrev pub calls : List (Call T) → OnceLock T → List (Answer T)
  calls [] l = []
  calls (c ∷ cs) l = (call c l).0 ∷ calls cs (call c l).1

  -- The register.
  abbrev pub register : Call T → Option T → Answer T × Option T
  register get_call first = (found first, first)
  register (set_call value) none = (handed_back none, some value)
  register (set_call value) (some first) = (handed_back (some value), some first)
  register (init_call value) none = (holds value, some value)
  register (init_call value) (some first) = (holds first, some first)

  abbrev pub registers : List (Call T) → Option T → List (Answer T)
  registers [] first = []
  registers (c ∷ cs) first = (register c first).0 ∷ registers cs (register c first).1

  abbrev cell_of : Option T → OnceLock T
  cell_of none = record { completed = false; value_cell = none }
  cell_of (some first) = record { completed = true; value_cell = some first }

  call-register :
      (c : Call T) (first : Option T)
      → call c (cell_of first) ≡ ((register c first).0, cell_of (register c first).1)
  unfolding get get_or_init set_value
  call-register get_call none = refl
  call-register get_call (some first) = refl
  call-register (set_call value) none = refl
  call-register (set_call value) (some first) = refl
  call-register (init_call value) none = refl
  call-register (init_call value) (some first) = refl

  calls-registers :
      (cs : List (Call T)) (first : Option T) → calls cs (cell_of first) ≡ registers cs first
  calls-registers [] first = refl
  calls-registers (c ∷ cs) first =
      rw (call-register c first)
        (ap (λ t. (register c first).0 ∷ t) (calls-registers cs (register c first).1))

  -- Whatever calls are made of a new cell, each returns what a register returns that keeps the
  -- first value given to it: `get` and `get_or_init` return that value from then on, and every
  -- later `set` hands its own value back. No call reads a cell without a value.
  pub once_lock_lem : (cs : List (Call T)) → calls cs (new T) ≡ registers cs none
  once_lock_lem cs = calls-registers cs none
