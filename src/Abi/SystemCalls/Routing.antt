-- ===== src/Abi/SystemCalls/Routing.antt =====
-- A router calls the handler of a number.
use pimento.Base.{
  ℕ, ◌+◌, ◌<◌, ◌≡◌, ◌⊎◌, Option, none, some, List, [], ◌∷◌, if◌then◌else◌, ◌==◌, word,
}
use pimento.Abi.SystemCalls.{
  SystemCall, CallResult, val, fail, SystemCallError, bad_file_number, bad_address,
  function_not_implemented,
}

-- The error numbers of Linux.
abbrev pub errno : SystemCallError → ℕ
errno bad_file_number = 9
errno bad_address = 14
errno function_not_implemented = 38

-- The word that goes back for the result of a call: the value, or a negated error number.
abbrev pub Encodes : CallResult → ℕ → Type 0
Encodes r x =
    ((v : ℕ) × (r ≡ val v) × (x ≡ v))
    ⊎ ((e : SystemCallError) × (r ≡ fail e) × (x < word) × (x + errno e ≡ word))

module _ {W : Type 0} where
  -- Of the handlers with a number, the one that was given last.
  abbrev pub last_with : ℕ → List (SystemCall W) → Option (SystemCall W)
  last_with num [] = none
  last_with num (h ∷ hs) = elim (last_with num hs) [
    | some later ↦ some later
    | none ↦ if h.number == num then some h else none
  ]

  abbrev AllBelow : ℕ → List (SystemCall W) → Type 0
  AllBelow n [] = Unit
  AllBelow n (h ∷ hs) = (h.number < n) × AllBelow n hs

  abbrev over :
      Option (SystemCall W) → Option (Option (SystemCall W)) → Option (Option (SystemCall W))
  over (some h) old = some (some h)
  over none old = old
