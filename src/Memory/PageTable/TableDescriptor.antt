-- ===== src/Memory/PageTable/TableDescriptor.antt =====
-- `TableDescriptorBuilder` of kernel/src/memory/aarch64/page_table.rs.
use pimento.Base.{
  ℕ, ◌+◌, ◌%◌, ◌^◌, ◌≤◌, ◌<◌, ◌≡◌, ◌≢◌, refl, ◌⊎◌, inl, inr, arith, not, Result, ok, err, ◌==◌,
  if◌then◌else◌, word, Bool-cases,
}
use pimento.Base.Bits.{bit_and, bit_or, bit_not, bit_or_apart}
use pimento.Memory.Address.{PhysicalAddress}
use pimento.Memory.PageTable.Constants.{type_table, table_address_mask}
use pimento.Memory.PageTable.Masks.{and-table, and-not-table}

pub record TableDescriptorBuilder : Type 0 where
  pub pending_value : ℕ

unfoldable pub new : PhysicalAddress → Result TableDescriptorBuilder
new a =
    if not (bit_and a (bit_not table_address_mask) == 0)
    then err
    else ok (record { pending_value = bit_or type_table a })

unfoldable pub address : TableDescriptorBuilder → PhysicalAddress
address b = bit_and b.pending_value table_address_mask

unfoldable pub build : TableDescriptorBuilder → ℕ
build b = b.pending_value

-- Where a table, or a page, may begin.
abbrev pub IsPageAddress : ℕ → Type 0
IsPageAddress a = (a < 2 ^ 48) × (a % 2 ^ 12 ≡ 0)

-- `new` takes the multiples of 4096 below 2^48 and no other word. The row that it builds is the
-- address with both type bits set, and the address is read back from it.
pub new-address :
    (a : PhysicalAddress)
    → a < word
    → (IsPageAddress a
        × ((b : TableDescriptorBuilder) × (new a ≡ ok b) × (address b ≡ a) × (build b ≡ a + 3)))
      ⊎ (((2 ^ 48 ≤ a) ⊎ (a % 2 ^ 12 ≢ 0)) × (new a ≡ err))
unfolding new address build
new-address a small = elim (Bool-cases (bit_and a (bit_not table_address_mask) == 0)) [
  | inl fine ↦
      let aligned : IsPageAddress a =
        (ground (arith, and-not-table a small), ground (arith, and-not-table a small)) in
      inl (
        aligned,
        (
          record { pending_value = a + 3 },
          ground (arith, bit_or_apart 12 type_table a (omega arith) aligned.1),
          omega (arith, and-table (a + 3), aligned),
          refl,
        ),
      )
  | inr bad ↦ inr (ground (arith, and-not-table a small), rw bad)
]
