-- ===== src/Memory/PageTable/Constants.antt =====
-- The constants of kernel/src/memory/aarch64/page_table.rs.
use pimento.Base.{ℕ, ◌*◌, ◌/◌, ◌^◌}
use pimento.Memory.Ram.{page_size}

-- A row has eight bytes.
abbrev pub row_size : ℕ
row_size = 8

abbrev pub row_count : ℕ
row_count = page_size / row_size

abbrev pub level_root : ℕ
level_root = 0

abbrev pub level_max : ℕ
level_max = 3

abbrev pub type_mask : ℕ
type_mask = 0b11

abbrev pub type_table : ℕ
type_table = 0b11

abbrev pub type_block : ℕ
type_block = 0b01

abbrev pub type_page : ℕ
type_page = 0b11

abbrev pub table_address_mask : ℕ
table_address_mask = 0xFFFFFFFFF000

abbrev pub block_address_mask : ℕ
block_address_mask = 0xFFFFFFE00000

abbrev pub page_address_mask : ℕ
page_address_mask = 0xFFFFFFFFF000

abbrev pub unprivileged : ℕ
unprivileged = 1 * 2 ^ 6

abbrev pub access_flag : ℕ
access_flag = 1 * 2 ^ 10

abbrev pub not_global : ℕ
not_global = 1 * 2 ^ 11

abbrev pub attribute_shift : ℕ
attribute_shift = 2

abbrev pub attribute_mask : ℕ
attribute_mask = 0b111 * 2 ^ attribute_shift

pub data Attribute : Type 0 where
  device normal normal_nc : Attribute

abbrev pub attribute_index : Attribute → ℕ
attribute_index Attribute.device = 0
attribute_index Attribute.normal = 1
attribute_index Attribute.normal_nc = 2

pub data DescriptorType : Type 0 where
  table block page : DescriptorType
