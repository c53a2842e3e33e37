-- ===== src/Memory/PageTable/PageDescriptor.antt =====
-- `PageDescriptorBuilder` of kernel/src/memory/aarch64/page_table.rs.
use pimento.Base.{
  ℕ, ◌+◌, ◌*◌, ◌%◌, ◌^◌, ◌≤◌, ◌<◌, ◌≡◌, ◌≢◌, ◌⊎◌, inl, inr, Bool, true, false, arith, not, Result,
  ok, err, ◌==◌, if◌then◌else◌, word, Bool-cases,
}
use pimento.Base.Bits.{bit_and, bit_or, bit_not, bit_or_apart}
use pimento.Memory.Address.{PhysicalAddress}
use pimento.Memory.PageTable.Constants.{
  type_page, access_flag, not_global, page_address_mask, attribute_shift, attribute_mask, Attribute,
  attribute_index, unprivileged,
}
use pimento.Memory.PageTable.TableDescriptor.{IsPageAddress}
use pimento.Memory.PageTable.Masks.{
  and-table, and-not-table, and-not-unprivileged, or-unprivileged, with_attribute, set-attribute,
}

pub record PageDescriptorBuilder : Type 0 where
  pub pending_value : ℕ

unfoldable pub new : PhysicalAddress → Result PageDescriptorBuilder
new a =
    if not (bit_and a (bit_not page_address_mask) == 0)
    then err
    else ok (record { pending_value = bit_or (bit_or (bit_or type_page access_flag) not_global) a })

unfoldable pub set_attribute : Attribute → PageDescriptorBuilder → PageDescriptorBuilder
set_attribute attribute b = record b {
  pending_value =
      bit_or (bit_and b.pending_value (bit_not attribute_mask))
        (attribute_index attribute * 2 ^ attribute_shift);
}

unfoldable pub set_unprivileged : Bool → PageDescriptorBuilder → PageDescriptorBuilder
set_unprivileged true b = record { pending_value = bit_or b.pending_value unprivileged }
set_unprivileged false b = record { pending_value = bit_and b.pending_value (bit_not unprivileged) }

unfoldable pub address : PageDescriptorBuilder → PhysicalAddress
address b = bit_and b.pending_value page_address_mask

unfoldable pub build : PageDescriptorBuilder → ℕ
build b = b.pending_value

abbrev pub unprivileged_bit : Bool → ℕ
unprivileged_bit true = 64
unprivileged_bit false = 0

-- The row of a page: its address, the type, access and not-global bits, the attribute from bit 2
-- on, and bit 6 if user space may use the page.
abbrev pub page_row : PhysicalAddress → Attribute → Bool → ℕ
page_row a attribute user = a + 0xC03 + attribute_index attribute * 4 + unprivileged_bit user

pub page_row-address :
    (a : PhysicalAddress) (attribute : Attribute) (user : Bool)
    → IsPageAddress a
    → bit_and (page_row a attribute user) page_address_mask ≡ a
page_row-address a attribute user aligned =
    ground (arith, and-table (page_row a attribute user), aligned)

-- What the setters make of the row that `new` builds.
setters_row :
    (a : PhysicalAddress) (attribute : Attribute) (user : Bool)
    → IsPageAddress a
    → build (set_unprivileged user (set_attribute attribute (record { pending_value = a + 0xC03 })))
      ≡ page_row a attribute user
unfolding set_attribute set_unprivileged build
setters_row a attribute true aligned =
    rw (set-attribute (a + 0xC03) attribute (omega (arith, aligned)), or-unprivileged)
      (ground (arith, aligned))
setters_row a attribute false aligned =
    rw
      (
        set-attribute (a + 0xC03) attribute (omega (arith, aligned)),
        and-not-unprivileged (with_attribute (a + 0xC03) attribute) (ground (arith, aligned)),
      )
      (ground (arith, aligned))

-- `new` takes the multiples of 4096 below 2^48 and no other word. Whatever attribute and privilege
-- are then set, in this order, the row that is built is `page_row` of them, and the address is read
-- back from it.
pub new-setters :
    (a : PhysicalAddress) (attribute : Attribute) (user : Bool)
    → a < word
    → (IsPageAddress a
        × ((b : PageDescriptorBuilder) × (new a ≡ ok b)
            × (address (set_unprivileged user (set_attribute attribute b)) ≡ a)
            × (build (set_unprivileged user (set_attribute attribute b))
                ≡ page_row a attribute user)))
      ⊎ (((2 ^ 48 ≤ a) ⊎ (a % 2 ^ 12 ≢ 0)) × (new a ≡ err))
unfolding new address
new-setters a attribute user small =
    elim (Bool-cases (bit_and a (bit_not page_address_mask) == 0)) [
      | inl fine ↦
          let aligned : IsPageAddress a =
            (ground (arith, and-not-table a small), ground (arith, and-not-table a small)) in
          inl (
            aligned,
            (
              record { pending_value = a + 0xC03 },
              ground (arith, bit_or_apart 12 0xC03 a (omega arith) aligned.1),
              (unfold build in
                  rw (setters_row a attribute user aligned)
                    (page_row-address a attribute user aligned)),
              setters_row a attribute user aligned,
            ),
          )
      | inr bad ↦ inr (ground (arith, and-not-table a small), rw bad)
    ]
