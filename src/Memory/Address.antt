-- ===== src/Memory/Address.antt =====
-- kernel/src/memory/address.rs: addresses that the type system keeps apart. The phantom type of the
-- target is gone, `new`, `address` and `convert` with it; its size in bytes is an argument.
use pimento.Base.{ℕ, ◌+◌, ◌-◌, ◌*◌, ◌%◌, word}

-- Wrapping `+` and `-` on `usize`.
abbrev pub wrapping_add : ℕ → ℕ → ℕ
wrapping_add a b = (a + b) % word

abbrev pub wrapping_sub : ℕ → ℕ → ℕ
wrapping_sub a b = (a + word - b) % word

abbrev pub PhysicalAddress : Type 0
PhysicalAddress = ℕ

abbrev pub UserAddress : Type 0
UserAddress = ℕ

-- `add(count)` and `sub(count)`, for a target of `size` bytes.
unfoldable pub add : (size : ℕ) → UserAddress → ℕ → UserAddress
add size u count = wrapping_add u (size * count % word)

unfoldable pub sub : (size : ℕ) → UserAddress → ℕ → UserAddress
sub size u count = wrapping_sub u (size * count % word)
