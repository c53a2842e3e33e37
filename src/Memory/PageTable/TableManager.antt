-- ===== src/Memory/PageTable/TableManager.antt =====
-- `TableManager` of kernel/src/memory/aarch64/page_table.rs: a table, its level, and the first
-- address that it translates. Levels are 0 to 3, as everywhere in the source.
use pimento.Base.{ℕ, ◌+◌, ◌-◌, ◌*◌, ◌/◌, ◌^◌, ◌||◌, Result, ok, err, ltb, leb, if◌then◌else◌}
use pimento.Memory.Address.{wrapping_add}
use pimento.Memory.Ram.{page_size}
use pimento.Memory.PageTable.Constants.{row_count, level_max}

pub record TableManager : Type 0 where
  pub table : ℕ
  pub level : ℕ
  pub input_address_start : ℕ

pub record TableRowManager : Type 0 where
  pub table_manager : TableManager
  pub index : ℕ

-- The number of bytes that the table translates.
unfoldable pub len : TableManager → ℕ
len t = page_size * row_count ^ (level_max - t.level + 1)

unfoldable pub row : TableManager → ℕ → TableRowManager
row t index = record { table_manager = t; index = index }

unfoldable pub row_by_address : TableManager → ℕ → Result TableRowManager
unfolding len
row_by_address t address =
    let start = t.input_address_start in
    let end = wrapping_add start (len t) in
    let row_size = len t / row_count in
    if ltb address start || leb end address
    then err
    else ok (record { table_manager = t; index = (address - start) / row_size })
