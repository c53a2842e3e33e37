-- ===== src/Memory/PageTable/BlockDescriptor.antt =====
-- `BlockDescriptorBuilder` of kernel/src/memory/aarch64/page_table.rs.
use pimento.Base.{
  ℕ, ◌+◌, ◌*◌, ◌%◌, ◌^◌, ◌≤◌, ◌<◌, ◌≡◌, ◌≢◌, ◌⊎◌, inl, inr, arith, not, Result, ok, err, ◌==◌,
  if◌then◌else◌, word, Bool-cases,
}
use pimento.Base.Bits.{bit_and, bit_or, bit_not, bit_or_apart}
use pimento.Memory.Address.{PhysicalAddress}
use pimento.Memory.PageTable.Constants.{
  type_block, access_flag, not_global, block_address_mask, attribute_shift, attribute_mask,
  Attribute, attribute_index,
}
use pimento.Memory.PageTable.Masks.{and-block, and-not-block, with_attribute, set-attribute}

pub record BlockDescriptorBuilder : Type 0 where
  pub pending_value : ℕ

unfoldable pub new : PhysicalAddress → Result BlockDescriptorBuilder
new a =
    if not (bit_and a (bit_not block_address_mask) == 0)
    then err
    else ok
        (record { pending_value = bit_or (bit_or (bit_or type_block access_flag) not_global) a })

unfoldable pub set_attribute : Attribute → BlockDescriptorBuilder → BlockDescriptorBuilder
set_attribute attribute b = record b {
  pending_value =
      bit_or (bit_and b.pending_value (bit_not attribute_mask))
        (attribute_index attribute * 2 ^ attribute_shift);
}

unfoldable pub address : BlockDescriptorBuilder → PhysicalAddress
address b = bit_and b.pending_value block_address_mask

unfoldable pub build : BlockDescriptorBuilder → ℕ
build b = b.pending_value

-- Where a block of 2 MB may begin.
abbrev pub IsBlockAddress : ℕ → Type 0
IsBlockAddress a = (a < 2 ^ 48) × (a % 2 ^ 21 ≡ 0)

-- `new` takes the multiples of 2 MB below 2^48 and no other word. Whatever attribute is then set,
-- the row that is built is the address, the attribute from bit 2 on, the block type, the access
-- flag and the not-global flag, and the address is read back from it.
pub new-set_attribute :
    (a : PhysicalAddress) (attribute : Attribute)
    → a < word
    → (IsBlockAddress a
        × ((b : BlockDescriptorBuilder) × (new a ≡ ok b)
            × (address (set_attribute attribute b) ≡ a)
            × (build (set_attribute attribute b) ≡ a + 0xC01 + attribute_index attribute * 4)))
      ⊎ (((2 ^ 48 ≤ a) ⊎ (a % 2 ^ 21 ≢ 0)) × (new a ≡ err))
unfolding new set_attribute address build
new-set_attribute a attribute small =
    elim (Bool-cases (bit_and a (bit_not block_address_mask) == 0)) [
      | inl fine ↦
          let aligned : IsBlockAddress a =
            (ground (arith, and-not-block a small), ground (arith, and-not-block a small)) in
          let row = set-attribute (a + 0xC01) attribute (omega (arith, aligned)) in
          inl (
            aligned,
            (
              record { pending_value = a + 0xC01 },
              ground (arith, bit_or_apart 12 0xC01 a (omega arith) (omega (arith, aligned))),
              rw row (ground (arith, and-block (with_attribute (a + 0xC01) attribute), aligned)),
              rw row (ground (arith, aligned)),
            ),
          )
      | inr bad ↦ inr (ground (arith, and-not-block a small), rw bad)
    ]
