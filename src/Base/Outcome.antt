-- ===== src/Base/Outcome.antt =====
-- `Result<T, ()>`, with a third outcome for the panics of the source: a failed `assert!`, an index
-- out of range, `unwrap` of `None`, `todo!()`.
use mathlib.Core.Option.{Option, none, some}

module _ {ℓ} where
  pub data Result (T : Type ℓ) : Type ℓ where
    err panic : Result T
    ok : T → Result T

  -- `ok_or(())` and `unwrap()`: nothing is an error for the one, and a panic for the other.
  abbrev pub ok_or : {T : Type ℓ} → Option T → Result T
  ok_or (some t) = ok t
  ok_or none = err

  abbrev pub unwrap : {T : Type ℓ} → Option T → Result T
  unwrap (some t) = ok t
  unwrap none = panic

-- The `?` operator. A panic is passed on as it is.
infixl 5 ◌>>=◌
abbrev pub ◌>>=◌ {ℓ ℓ'} : {T : Type ℓ} {U : Type ℓ'} → Result T → (T → Result U) → Result U
err >>= next = err
panic >>= next = panic
ok t >>= next = next t
