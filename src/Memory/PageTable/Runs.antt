-- ===== src/Memory/PageTable/Runs.antt =====
-- Translation tables at concrete addresses, and the theorems there.
use pimento.Base.{◌%◌, ◌^◌, ◌≤◌, ◌<◌, ◌≡◌, ◌≢◌, refl, ◌⊎◌, arith, true, ok, err}
use pimento.Memory.Ram.{Ram}
use pimento.Memory.PageTable.Constants.{normal}
use pimento.Memory.PageTable.TableManager.{TableManager, TableRowManager, row_by_address}
use pimento.Memory.PageTable.TableDescriptor.{IsPageAddress}
use pimento.Memory.PageTable.BlockDescriptor.{BlockDescriptorBuilder}
use pimento.Memory.PageTable.PageDescriptor
use pimento.Memory.PageTable.PageDescriptor.{PageDescriptorBuilder, page_row}
use pimento.Memory.PageTable.RowManager.{row_ptr, write_block, write_page}
use pimento.Memory.PageTable.Rows.{Reads, SameBut, write_page-load_page, write_block-load_block}

-- A last-level table for the addresses from 0x20_0000 on.
abbrev last_level : TableManager
last_level = record { table = 0xFFFF_0000_0070_0000; level = 3; input_address_start = 0x20_0000 }

abbrev middle : TableManager
middle = record { table = 0xFFFF_0000_0070_1000; level = 2; input_address_start = 0 }

abbrev fifth : TableRowManager
fifth = record { table_manager = last_level; index = 5 }

abbrev first : TableRowManager
first = record { table_manager = middle; index = 0 }

abbrev zeroes : Ram
zeroes a = 0

fifth_row : row_by_address last_level 0x20_5ABC ≡ ok fifth
unfolding row_by_address
fifth_row = refl

page_descriptor_example :
    (IsPageAddress 0x60_0000
      × ((b : PageDescriptorBuilder) × (PageDescriptor.new 0x60_0000 ≡ ok b)
          × (PageDescriptor.address
                (PageDescriptor.set_unprivileged true (PageDescriptor.set_attribute normal b))
              ≡ 0x60_0000)
          × (PageDescriptor.build
                (PageDescriptor.set_unprivileged true (PageDescriptor.set_attribute normal b))
              ≡ page_row 0x60_0000 normal true)))
    ⊎ (((2 ^ 48 ≤ 0x60_0000) ⊎ (0x60_0000 % 2 ^ 12 ≢ 0)) × (PageDescriptor.new 0x60_0000 ≡ err))
page_descriptor_example = PageDescriptor.new-setters 0x60_0000 normal true (omega arith)

abbrev user_page : PageDescriptorBuilder
user_page = record { pending_value = 0x60_0C47 }

write_page_example :
    ((fifth.table_manager.level ≡ 3)
      × ((ram' : Ram) × (write_page user_page fifth zeroes ≡ ok ram')
          × Reads fifth ram' err err (ok user_page)
          × SameBut (row_ptr fifth) zeroes ram'))
    ⊎ ((fifth.table_manager.level ≢ 3) × (write_page user_page fifth zeroes ≡ err))
write_page_example = write_page-load_page fifth (omega arith) zeroes user_page refl

abbrev big_block : BlockDescriptorBuilder
big_block = record { pending_value = 0x3F20_0C01 }

write_block_example :
    ((0 < first.table_manager.level)
      × ((ram' : Ram) × (write_block big_block first zeroes ≡ ok ram')
          × Reads first ram' err (ok big_block) err
          × SameBut (row_ptr first) zeroes ram'))
    ⊎ ((first.table_manager.level ≡ 0) × (write_block big_block first zeroes ≡ err))
write_block_example = write_block-load_block first (omega arith) zeroes big_block refl
