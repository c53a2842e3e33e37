-- ===== src/Memory/PageTable/RowManager.antt =====
-- `TableRowManager` of kernel/src/memory/aarch64/page_table.rs. A row is a word of the memory that
-- its table lies in; an index past the table is a panic, by the assertion in `Index` and
-- `IndexMut`.
use pimento.Base.{
  ℕ, ◌+◌, ◌*◌, ◌/◌, ◌&&◌, not, Option, none, some, Result, ok, err, panic, ◌>>=◌, ltb, leb, ◌==◌,
  if◌then◌else◌,
}
use pimento.Base.Bits.{bit_and}
use pimento.Memory.Address.{wrapping_add}
use pimento.Memory.Ram.{Ram, write}
use pimento.Memory.PageTable.Constants.{
  row_size, row_count, level_root, level_max, type_mask, type_table, type_block, type_page,
  DescriptorType, table, block, page,
}
use pimento.Memory.PageTable.TableManager
use pimento.Memory.PageTable.TableManager.{TableManager, TableRowManager}
use pimento.Memory.PageTable.TableDescriptor
use pimento.Memory.PageTable.TableDescriptor.{TableDescriptorBuilder}
use pimento.Memory.PageTable.BlockDescriptor
use pimento.Memory.PageTable.BlockDescriptor.{BlockDescriptorBuilder}
use pimento.Memory.PageTable.PageDescriptor
use pimento.Memory.PageTable.PageDescriptor.{PageDescriptorBuilder}

abbrev pub row_ptr : TableRowManager → ℕ
row_ptr r = r.table_manager.table + row_size * r.index

unfoldable pub value : Ram → TableRowManager → Result ℕ
value ram r = if ltb r.index row_count then ok (ram (row_ptr r)) else panic

unfoldable pub set_value : ℕ → TableRowManager → Ram → Result Ram
set_value v r ram = if ltb r.index row_count then ok (write (row_ptr r) v ram) else panic

unfoldable pub len : TableRowManager → ℕ
unfolding TableManager.len
len r = TableManager.len r.table_manager / row_count

unfoldable pub start : TableRowManager → ℕ
unfolding len
start r = wrapping_add r.table_manager.input_address_start (len r * r.index)

-- The arms of the `match`, in order.
unfoldable pub type_of : ℕ → ℕ → Option DescriptorType
type_of level v =
    let bits = bit_and v type_mask in
    if (bits == type_table) && ltb level level_max
    then some table
    else if (bits == type_block) && ltb level_root level
    then some block
    else if (bits == type_page) && (level == level_max)
    then some page
    else none

unfoldable pub descriptor_type : Ram → TableRowManager → Result (Option DescriptorType)
unfolding value
descriptor_type ram r = do v ← value ram r; ok (type_of r.table_manager.level v)

unfoldable pub write_table : TableDescriptorBuilder → TableRowManager → Ram → Result Ram
unfolding set_value TableDescriptor.build
write_table b r ram =
    if leb level_max r.table_manager.level then err else set_value (TableDescriptor.build b) r ram

unfoldable pub write_block : BlockDescriptorBuilder → TableRowManager → Ram → Result Ram
unfolding set_value BlockDescriptor.build
write_block b r ram =
    if leb r.table_manager.level level_root then err else set_value (BlockDescriptor.build b) r ram

unfoldable pub write_page : PageDescriptorBuilder → TableRowManager → Ram → Result Ram
unfolding set_value PageDescriptor.build
write_page b r ram =
    if not (r.table_manager.level == level_max)
    then err
    else set_value (PageDescriptor.build b) r ram

-- Each `load` takes the row back if it has the descriptor that is asked for.
unfoldable pub load_table : Ram → TableRowManager → Result TableDescriptorBuilder
unfolding value descriptor_type
load_table ram r = do
  found ← descriptor_type ram r
  elim found [
    | some DescriptorType.table ↦ (do v ← value ram r; ok (record { pending_value = v }))
    | _ ↦ err
  ]

unfoldable pub load_block : Ram → TableRowManager → Result BlockDescriptorBuilder
unfolding value descriptor_type
load_block ram r = do
  found ← descriptor_type ram r
  elim found [
    | some DescriptorType.block ↦ (do v ← value ram r; ok (record { pending_value = v }))
    | _ ↦ err
  ]

unfoldable pub load_page : Ram → TableRowManager → Result PageDescriptorBuilder
unfolding value descriptor_type
load_page ram r = do
  found ← descriptor_type ram r
  elim found [
    | some DescriptorType.page ↦ (do v ← value ram r; ok (record { pending_value = v }))
    | _ ↦ err
  ]
