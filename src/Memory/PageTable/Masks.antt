-- ===== src/Memory/PageTable/Masks.antt =====
-- What the masks of a descriptor select, as arithmetic.
use native.Mathlib.Nat.{mod-eq_of_lt, div-eq_of_lt}
use pimento.Base.{ℕ, zero, suc, ◌+◌, ◌*◌, ◌/◌, ◌%◌, ◌^◌, ◌<◌, ◌≡◌, refl, arith, word}
use pimento.Base.Bits.{bit_and, bit_or, bit_not, bit_and_split, bit_or_split}
use pimento.Base.Bits.{bit_and_low, bit_and-zero, bit_or-zero, bit_or_apart}
use pimento.Memory.PageTable.Constants.{
  type_mask, table_address_mask, block_address_mask, attribute_mask, attribute_shift, Attribute,
  attribute_index, unprivileged,
}

-- The type of a descriptor is its two low bits.
pub and-type : (x : ℕ) → bit_and x type_mask ≡ x % 4
and-type x = bit_and_low 2 x

-- Bits 12 to 47, and what is left of a word beside them.
pub and-table : (x : ℕ) → bit_and x table_address_mask ≡ x % 2 ^ 48 / 2 ^ 12 * 2 ^ 12
and-table x = omega (
  arith,
  bit_and_split 12 x table_address_mask,
  bit_and_low 36 (x / 2 ^ 12),
  bit_and-zero (x % 2 ^ 12),
)

pub and-not-table :
    (x : ℕ) → x < word → bit_and x (bit_not table_address_mask) ≡ x / 2 ^ 48 * 2 ^ 48 + x % 2 ^ 12
and-not-table x small = omega (
  arith,
  bit_and_split 48 x (bit_not table_address_mask),
  bit_and_low 16 (x / 2 ^ 48),
  bit_and_low 12 (x % 2 ^ 48),
)

-- Bits 21 to 47, and what is left of a word beside them.
pub and-block : (x : ℕ) → bit_and x block_address_mask ≡ x % 2 ^ 48 / 2 ^ 21 * 2 ^ 21
and-block x = omega (
  arith,
  bit_and_split 21 x block_address_mask,
  bit_and_low 27 (x / 2 ^ 21),
  bit_and-zero (x % 2 ^ 21),
)

pub and-not-block :
    (x : ℕ) → x < word → bit_and x (bit_not block_address_mask) ≡ x / 2 ^ 48 * 2 ^ 48 + x % 2 ^ 21
and-not-block x small = omega (
  arith,
  bit_and_split 48 x (bit_not block_address_mask),
  bit_and_low 16 (x / 2 ^ 48),
  bit_and_low 21 (x % 2 ^ 48),
)

-- Bits 2 to 4 hold the memory attribute.
abbrev pub with_attribute : ℕ → Attribute → ℕ
with_attribute x a = x / 32 * 32 + attribute_index a * 4 + x % 4

and-not-attribute : (x : ℕ) → x < word → bit_and x (bit_not attribute_mask) ≡ x / 32 * 32 + x % 4
and-not-attribute x small = omega (
  arith,
  bit_and_split 5 x (bit_not attribute_mask),
  bit_and_low 59 (x / 32),
  bit_and_low 2 (x % 32),
)

-- Bit 6 lets user space in.
pub and-not-unprivileged :
    (x : ℕ) → x < word → bit_and x (bit_not unprivileged) ≡ x / 128 * 128 + x % 64
and-not-unprivileged x small = omega (
  arith,
  bit_and_split 7 x (bit_not unprivileged),
  bit_and_low 57 (x / 128),
  bit_and_low 6 (x % 128),
)

-- `|` with a number on the bits 2 to 4, where the other number has zeros.
or-field : (h l t : ℕ) → l < 4 → t < 32 → t % 4 ≡ 0 → bit_or (h * 32 + l) t ≡ h * 32 + t + l
or-field h l t hl ht aligned =
    rw
      (
        bit_or_split 5 (h * 32 + l) t,
        high,
        low,
        div-eq_of_lt ht,
        mod-eq_of_lt ht,
        bit_or-zero,
        bit_or_apart 2 l t hl aligned,
      )
      (omega arith)
  where
    high : (h * 32 + l) / 2 ^ 5 ≡ h
    high = omega arith

    low : (h * 32 + l) % 2 ^ 5 ≡ l
    low = omega arith

pub set-attribute :
    (x : ℕ) (a : Attribute)
    → x < word
    → bit_or (bit_and x (bit_not attribute_mask)) (attribute_index a * 2 ^ attribute_shift)
      ≡ with_attribute x a
set-attribute x Attribute.device small =
    rw (and-not-attribute x small) (or-field (x / 32) (x % 4) 0 (omega arith) (omega arith) refl)
set-attribute x Attribute.normal small =
    rw (and-not-attribute x small) (or-field (x / 32) (x % 4) 4 (omega arith) (omega arith) refl)
set-attribute x Attribute.normal_nc small =
    rw (and-not-attribute x small) (or-field (x / 32) (x % 4) 8 (omega arith) (omega arith) refl)

or-one : (b : ℕ) → b < 2 → bit_or b 1 ≡ 1
or-one zero h = refl
or-one (suc zero) h = refl
or-one (suc (suc b)) h = absurd (omega arith)

-- Setting bit 6, and clearing it.
pub or-unprivileged : (x : ℕ) → bit_or x unprivileged ≡ x / 128 * 128 + 64 + x % 64
or-unprivileged x =
    rw
      (
        bit_or_split 7 x unprivileged,
        bit_or-zero,
        bit_or_split 6 (x % 2 ^ 7) unprivileged,
        bit_or-zero,
        or-one (x % 2 ^ 7 / 2 ^ 6) (omega arith),
      )
      (omega arith)
