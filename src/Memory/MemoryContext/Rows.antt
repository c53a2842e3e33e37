-- ===== src/Memory/MemoryContext/Rows.antt =====
-- The row of an address in a table of a memory context, and what is read and written there.
use pimento.Base.{ℕ, ◌+◌, ◌*◌, ◌/◌, ◌%◌, ◌^◌, ◌<◌, ◌≡◌, refl, arith, none, some, ok, lt→ltb}
use pimento.Memory.Mapper.{virtual_address}
use pimento.Memory.Ram.{Ram, write}
use pimento.Memory.PageTable.Constants.{row_count, DescriptorType}
use pimento.Memory.PageTable.Masks.{and-type}
use pimento.Memory.PageTable.TableManager.{TableManager, TableRowManager, row_by_address}
use pimento.Memory.PageTable.TableDescriptor
use pimento.Memory.PageTable.TableDescriptor.{TableDescriptorBuilder}
use pimento.Memory.PageTable.PageDescriptor
use pimento.Memory.PageTable.PageDescriptor.{PageDescriptorBuilder}
use pimento.Memory.PageTable.RowManager
use pimento.Memory.PageTable.RowManager.{
  value, set_value, type_of, descriptor_type, write_table, write_page, load_table, load_page,
}
use pimento.Memory.PageTable.Rows.{span, len-span, width}
use pimento.Memory.MemoryContext.Regions.{size, row_at, level-cases}

-- The manager of a table for the region of `a`.
pub record Manages (t : TableManager) (level a p : ℕ) : Type 0 where
  pub level_of : t.level ≡ level
  pub table_of : t.table ≡ virtual_address p
  pub start_of : t.input_address_start ≡ a / size level * size level

abbrev pub the_row : TableManager → ℕ → ℕ → TableRowManager
the_row t level a = record { table_manager = t; index = a / span level % 512 }

module _ (t : TableManager) (level a p : ℕ) (manages : Manages t level a p) (deep : level < 4)
    (small : a < 2 ^ 48) where
  pub row_found : row_by_address t a ≡ ok (the_row t level a)
  unfolding row_by_address
  row_found =
      rw (len-span t (omega (arith, manages.level_of)), width t, manages.level_of, manages.start_of)
        (ground (arith, level-cases level deep))

  pub row_starts : RowManager.start (the_row t level a) ≡ a / span level * span level
  unfolding RowManager.start
  row_starts =
      rw (len-span t (omega (arith, manages.level_of)), width t, manages.level_of, manages.start_of)
        (ground (arith, level-cases level deep))

  abbrev at_row : Ram → ℕ
  at_row ram = row_at ram p (a / span level % 512)

  row_value : (ram : Ram) → value ram (the_row t level a) ≡ ok (at_row ram)
  unfolding value
  row_value ram = rw (lt→ltb (a / span level % 512) row_count (omega arith), manages.table_of) refl

  pub free_type : (ram : Ram) → at_row ram ≡ 0 → descriptor_type ram (the_row t level a) ≡ ok none
  unfolding descriptor_type type_of
  free_type ram e = rw (row_value ram, e) (ground arith)

  pub table_type :
      (ram : Ram)
      → level < 3
      → at_row ram % 4 ≡ 3
      → (descriptor_type ram (the_row t level a) ≡ ok (some DescriptorType.table))
        × (load_table ram (the_row t level a) ≡ ok (record { pending_value = at_row ram }))
  unfolding descriptor_type type_of load_table
  table_type ram above typed = (
    rw (row_value ram) (ground (arith, and-type (at_row ram), manages.level_of)),
    rw (row_value ram) (ground (arith, and-type (at_row ram), manages.level_of)),
  )

  pub page_type :
      (ram : Ram)
      → level ≡ 3
      → at_row ram % 4 ≡ 3
      → (descriptor_type ram (the_row t level a) ≡ ok (some DescriptorType.page))
        × (load_page ram (the_row t level a) ≡ ok (record { pending_value = at_row ram }))
  unfolding descriptor_type type_of load_page
  page_type ram last typed = (
    rw (row_value ram) (ground (arith, and-type (at_row ram), manages.level_of)),
    rw (row_value ram) (ground (arith, and-type (at_row ram), manages.level_of)),
  )

  abbrev pub written : ℕ → Ram → Ram
  written v ram = write (virtual_address p + 8 * (a / span level % 512)) v ram

  row_written : (v : ℕ) (ram : Ram) → set_value v (the_row t level a) ram ≡ ok (written v ram)
  unfolding set_value
  row_written v ram =
      rw (lt→ltb (a / span level % 512) row_count (omega arith), manages.table_of) refl

  pub table_written :
      (b : TableDescriptorBuilder) (ram : Ram)
      → level < 3
      → write_table b (the_row t level a) ram ≡ ok (written b.pending_value ram)
  unfolding write_table TableDescriptor.build
  table_written b ram above = rw (manages.level_of, row_written b.pending_value ram) (ground arith)

  pub page_written :
      (b : PageDescriptorBuilder) (ram : Ram)
      → level ≡ 3
      → write_page b (the_row t level a) ram ≡ ok (written b.pending_value ram)
  unfolding write_page PageDescriptor.build
  page_written b ram last = rw (manages.level_of, row_written b.pending_value ram) (ground arith)
