-- ===== src/Memory/Mapper.antt =====
-- kernel/src/memory/aarch64/mapper.rs: the kernel sees physical memory through a window of virtual
-- addresses that begins at `VA_START`, which kernel/src/memory/aarch64/init.rs declares.
use pimento.Base.{ℕ, ◌+◌, ◌-◌, ◌%◌, ◌^◌, ◌≤◌, ◌<◌, ◌≡◌, refl, arith, word}
use pimento.Base.Bits.{bit_and, bit_or, bit_not}
use pimento.Base.Bits.{bit_and_low, bit_or_apart}
use pimento.Memory.Address.{PhysicalAddress}

abbrev pub va_bits : ℕ
va_bits = 48

-- `!((1 << VA_BITS) - 1)`
abbrev pub va_start : ℕ
va_start = bit_not (2 ^ va_bits - 1)

unfoldable pub virtual_address : PhysicalAddress → ℕ
virtual_address address = bit_or address va_start

unfoldable pub physical_address : ℕ → PhysicalAddress
physical_address ptr = bit_and ptr (bit_not va_start)

-- Below 2^48 the window is an offset.
pub virtual_address-add : (p : ℕ) → p < 2 ^ 48 → virtual_address p ≡ va_start + p
unfolding virtual_address
virtual_address-add p small = bit_or_apart 48 p va_start small refl

-- Every pointer loses its high 16 bits.
pub physical_address-mod : (ptr : ℕ) → physical_address ptr ≡ ptr % 2 ^ 48
unfolding physical_address
physical_address-mod ptr = bit_and_low 48 ptr

-- The two functions of the mapper are inverse to one another: on the physical addresses below 2^48
-- (from there the high bits are lost), and on the pointers of the window, which are those of 64
-- bits from `VA_START` on.
pub physical-virtual :
    (p ptr : ℕ)
    → p < 2 ^ 48
    → va_start ≤ ptr
    → ptr < word
    → (physical_address (virtual_address p) ≡ p) × (virtual_address (physical_address ptr) ≡ ptr)
physical-virtual p ptr small low high = (
  rw (virtual_address-add p small, physical_address-mod) (omega arith),
  rw physical_address-mod (omega (arith, virtual_address-add (ptr % 2 ^ 48) (omega arith))),
)
