-- ===== src/Base/Bits.antt =====
-- `&`, `|` and `!` on machine words, as arithmetic: both operations split at any bit position.
mod Step
use Step.{bit_and_step, bit_or_step}
use Prim.Native.Nat.{min, max, bit_and-bitwise, bit_or-bitwise}
use Prim.Native.Nat.{ℕ, zero, suc, ◌+◌, ◌-◌, ◌*◌, ◌/◌, ◌%◌, ◌^◌, ◌≤◌, ◌<◌}
pub use Prim.Native.Nat.{bit_and, bit_or}
use mathlib.Core.Path.{◌≡◌, refl, sym, ap, ◌∙◌}
use native.Mathlib.Nat.{
  pow-suc, one-le-pow, mul_comm, div-div-eq-div-mul, mod-eq-sub-div-mul, div-mul-le_self, div-one,
  mod-one, div-eq_of_lt, mod-eq_of_lt, div-add-mod',
}
use native.Mathlib.Omega.{arith}
use pimento.Base.Tests.{word}

-- `!x` on a 64-bit word.
abbrev pub bit_not : ℕ → ℕ
bit_not x = word - 1 - x

-- A split at bit `k + 1` is a split of the half at bit `k`, for `p = 2 ^ k`.
div_double : (p x : ℕ) → x / (p * 2) ≡ x / 2 / p
div_double p x = ap (λ (t : ℕ). x / t) (mul_comm p 2) ∙ sym (div-div-eq-div-mul x 2 p)

mod_double : (p x : ℕ) → x % (p * 2) ≡ x / 2 % p * 2 + x % 2
mod_double p x = omega (
  arith,
  mod-eq-sub-div-mul x (p * 2),
  div_double p x,
  mod-eq-sub-div-mul (x / 2) p,
  div-mul-le_self (x / 2) p,
  ap (λ (t : ℕ). t * p) (div_double p x),
)

half_mod_double : (p x : ℕ) → x % (p * 2) / 2 ≡ x / 2 % p
half_mod_double p x = rw (mod_double p x) (omega arith)

parity_mod_double : (p x : ℕ) → x % (p * 2) % 2 ≡ x % 2
parity_mod_double p x = rw (mod_double p x) (omega arith)

module _ (op digit : ℕ → ℕ → ℕ)
    (step : (x y : ℕ) → op x y ≡ op (x / 2) (y / 2) * 2 + digit (x % 2) (y % 2))
    (op_zero : op 0 0 ≡ 0) where
  split_op : (k x y : ℕ) → op x y ≡ op (x / 2 ^ k) (y / 2 ^ k) * 2 ^ k + op (x % 2 ^ k) (y % 2 ^ k)
  split_op zero x y = simp (div-one, mod-one, op_zero) (omega arith)
  split_op (suc k) x y =
      rw (pow-suc 2 k, div_double (2 ^ k) x, div_double (2 ^ k) y)
        (omega (arith, step x y, split_op k (x / 2) (y / 2), low))
    where
      low :
          op (x % (2 ^ k * 2)) (y % (2 ^ k * 2))
          ≡ op (x / 2 % 2 ^ k) (y / 2 % 2 ^ k) * 2 + digit (x % 2) (y % 2)
      low = rw (
        step (x % (2 ^ k * 2)) (y % (2 ^ k * 2)),
        half_mod_double (2 ^ k) x,
        half_mod_double (2 ^ k) y,
        parity_mod_double (2 ^ k) x,
        parity_mod_double (2 ^ k) y,
      )

-- `&` and `|` act on the bits above position `k` and on those below it apart.
pub bit_and_split :
    (k x y : ℕ)
    → bit_and x y ≡ bit_and (x / 2 ^ k) (y / 2 ^ k) * 2 ^ k + bit_and (x % 2 ^ k) (y % 2 ^ k)
bit_and_split = split_op bit_and min bit_and_step refl

pub bit_or_split :
    (k x y : ℕ)
    → bit_or x y ≡ bit_or (x / 2 ^ k) (y / 2 ^ k) * 2 ^ k + bit_or (x % 2 ^ k) (y % 2 ^ k)
bit_or_split = split_op bit_or max bit_or_step refl

bit_and-zero_below : (n x : ℕ) → x ≤ n → bit_and x 0 ≡ 0
bit_and-zero_below n zero h = refl
bit_and-zero_below zero (suc x) h = absurd (omega arith)
bit_and-zero_below (suc n) (suc x) h =
    omega (arith, bit_and_step (suc x) 0, bit_and-zero_below n (suc x / 2) (omega arith))

pub bit_and-zero : (x : ℕ) → bit_and x 0 ≡ 0
bit_and-zero x = bit_and-zero_below x x (omega arith)

bit_or-zero_below : (n x : ℕ) → x ≤ n → bit_or x 0 ≡ x
bit_or-zero_below n zero h = refl
bit_or-zero_below zero (suc x) h = absurd (omega arith)
bit_or-zero_below (suc n) (suc x) h =
    omega (arith, bit_or_step (suc x) 0, bit_or-zero_below n (suc x / 2) (omega arith))

pub bit_or-zero : (x : ℕ) → bit_or x 0 ≡ x
bit_or-zero x = bit_or-zero_below x x (omega arith)

pub zero-bit_or : (x : ℕ) → bit_or 0 x ≡ x
zero-bit_or x = bit_or-bitwise 0 x

pub zero-bit_and : (x : ℕ) → bit_and 0 x ≡ 0
zero-bit_and x = bit_and-bitwise 0 x

-- A mask of `k` low ones is the remainder by `2 ^ k`.
pub bit_and_low : (k x : ℕ) → bit_and x (2 ^ k - 1) ≡ x % 2 ^ k
bit_and_low zero x = simp (bit_and-zero, mod-one)
bit_and_low (suc k) x =
    rw (pow-suc 2 k, mod_double (2 ^ k) x)
      (omega (
        arith,
        bit_and_step x (2 ^ k * 2 - 1),
        ones,
        bit_and_low k (x / 2),
        one-le-pow k 2 (omega arith),
      ))
  where
    ones : bit_and (x / 2) ((2 ^ k * 2 - 1) / 2) ≡ bit_and (x / 2) (2 ^ k - 1)
    ones = ap (λ (t : ℕ). bit_and (x / 2) t) (omega (arith, one-le-pow k 2 (omega arith)))

-- `|` adds two numbers whose ones lie on different sides of position `k`.
pub bit_or_apart : (k low high : ℕ) → low < 2 ^ k → high % 2 ^ k ≡ 0 → bit_or low high ≡ high + low
bit_or_apart k low high small aligned =
    rw
      (
        bit_or_split k low high,
        div-eq_of_lt small,
        aligned,
        zero-bit_or,
        mod-eq_of_lt small,
        bit_or-zero,
      )
      (omega (arith, div-add-mod' high (2 ^ k)))
