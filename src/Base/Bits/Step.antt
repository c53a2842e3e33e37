-- ===== src/Base/Bits/Step.antt =====
-- One binary digit of `&` and `|`, from the definitions that the native operations stand for.
use Prim.Native.Nat.{ℕ, zero, suc, ◌+◌, ◌*◌, ◌/◌, ◌%◌, ◌≤◌, min, max}
use Prim.Native.Nat.{bit_and, bit_or, digits, bit_and-bitwise, bit_or-bitwise}
use mathlib.Core.Path.{◌≡◌, refl}
use native.Mathlib.Omega.{arith}

-- Any fuel that covers the first number gives the same digits.
enough_fuel :
    (rest : ℕ → ℕ) (op : ℕ → ℕ → ℕ) (f g x y : ℕ)
    → x ≤ f
    → x ≤ g
    → digits rest op f x y ≡ digits rest op g x y
enough_fuel rest op f g zero y hf hg = both f g
  where
    both : (f g : ℕ) → digits rest op f zero y ≡ digits rest op g zero y
    both zero zero = refl
    both zero (suc g) = refl
    both (suc f) zero = refl
    both (suc f) (suc g) = refl
enough_fuel rest op zero g (suc x) y hf hg = absurd (omega arith)
enough_fuel rest op (suc f) zero (suc x) y hf hg = absurd (omega arith)
enough_fuel rest op (suc f) (suc g) (suc x) y hf hg =
    rw (enough_fuel rest op f g (suc x / 2) (y / 2) (omega arith) (omega arith))

pub bit_and_step : (x y : ℕ) → bit_and x y ≡ bit_and (x / 2) (y / 2) * 2 + min (x % 2) (y % 2)
bit_and_step zero y = omega (arith, bit_and-bitwise 0 y, bit_and-bitwise 0 (y / 2))
bit_and_step (suc x) y = omega (
  arith,
  bit_and-bitwise (suc x) y,
  bit_and-bitwise (suc x / 2) (y / 2),
  enough_fuel (λ _. 0) min x (suc x / 2) (suc x / 2) (y / 2) (omega arith) (omega arith),
)

pub bit_or_step : (x y : ℕ) → bit_or x y ≡ bit_or (x / 2) (y / 2) * 2 + max (x % 2) (y % 2)
bit_or_step zero y = omega (arith, bit_or-bitwise 0 y, bit_or-bitwise 0 (y / 2))
bit_or_step (suc x) y = omega (
  arith,
  bit_or-bitwise (suc x) y,
  bit_or-bitwise (suc x / 2) (y / 2),
  enough_fuel (λ t. t) max x (suc x / 2) (suc x / 2) (y / 2) (omega arith) (omega arith),
)
