-- ===== src/Memory/PageTable.antt =====
-- kernel/src/memory/aarch64/page_table.rs: the translation tables, four levels of 512 rows.
pub mod Constants
pub mod Masks
pub mod TableDescriptor
pub mod BlockDescriptor
pub mod PageDescriptor
pub mod TableManager
pub mod RowManager
pub mod Rows
mod Runs
