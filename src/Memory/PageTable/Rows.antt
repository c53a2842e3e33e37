-- ===== src/Memory/PageTable/Rows.antt =====
-- The row of an address, and what a written row reads back as.
use native.Mathlib.Nat.{mod-eq_of_lt, div-lt_iff_lt-mul, div-mul-le_self, lt-div-mul-add}
use pimento.Base.{
  ℕ, zero, suc, ◌+◌, ◌-◌, ◌*◌, ◌/◌, ◌%◌, ◌^◌, ◌≤◌, ◌<◌, ◌≡◌, ◌≢◌, refl, ◌⊎◌, inl, inr, arith,
  Result, ok, err, ltb, leb, word, Bool-cases, ◌==◌, ◌||◌, lt→ltb,
}
use pimento.Memory.Ram.{Ram, write}
use pimento.Memory.PageTable.Constants.{row_count, level_max}
use pimento.Memory.PageTable.Masks.{and-type}
use pimento.Memory.PageTable.TableManager
use pimento.Memory.PageTable.TableManager.{TableManager, TableRowManager, row_by_address}
use pimento.Memory.PageTable.TableDescriptor
use pimento.Memory.PageTable.TableDescriptor.{TableDescriptorBuilder}
use pimento.Memory.PageTable.BlockDescriptor
use pimento.Memory.PageTable.BlockDescriptor.{BlockDescriptorBuilder}
use pimento.Memory.PageTable.PageDescriptor
use pimento.Memory.PageTable.PageDescriptor.{PageDescriptorBuilder}
use pimento.Memory.PageTable.RowManager
use pimento.Memory.PageTable.RowManager.{
  row_ptr, value, set_value, type_of, descriptor_type, write_table, write_block, write_page,
  load_table, load_block, load_page,
}

-- The bytes that a row of each level translates.
abbrev pub span : ℕ → ℕ
span zero = 2 ^ 39
span (suc zero) = 2 ^ 30
span (suc (suc zero)) = 2 ^ 21
span (suc (suc (suc _))) = 2 ^ 12

-- The table's addresses lie below 2^64.
abbrev pub Covers : TableManager → Type 0
Covers t = (t.level ≤ 3) × (t.input_address_start + 512 * span t.level < word)

pub len-span : (t : TableManager) → t.level ≤ 3 → TableManager.len t ≡ 512 * span t.level
unfolding TableManager.len
len-span t h = ground (arith, level-cases t.level h)
  where
    level-cases : (l : ℕ) → l ≤ 3 → (l ≡ 0) ⊎ ((l ≡ 1) ⊎ ((l ≡ 2) ⊎ (l ≡ 3)))
    level-cases l h = omega arith

span_pos : (l : ℕ) → 0 < span l
span_pos zero = omega arith
span_pos (suc zero) = omega arith
span_pos (suc (suc zero)) = omega arith
span_pos (suc (suc (suc l))) = omega arith

pub width : (t : TableManager) → 512 * span t.level / row_count ≡ span t.level
width t = omega arith

-- The row that holds `a`, among the 512 of the table.
pub record Holds (t : TableManager) (a : ℕ) (r : TableRowManager) : Type 0 where
  pub same_table : r.table_manager ≡ t
  pub in_table : r.index < row_count
  pub low : RowManager.start r ≤ a
  pub high : a < RowManager.start r + RowManager.len r

row-Holds :
    (t : TableManager) (a : ℕ)
    → Covers t
    → t.input_address_start ≤ a
    → a < t.input_address_start + 512 * span t.level
    → Holds t a (record { table_manager = t; index = (a - t.input_address_start) / span t.level })
unfolding RowManager.start
row-Holds t a covers low high = record {
  same_table = refl;
  in_table = in_table;
  low = rw (len-span t covers.0, width t, exact) (omega (arith, below));
  high = rw (len-span t covers.0, width t, exact) (omega (arith, below));
}
  where
    index : ℕ
    index = (a - t.input_address_start) / span t.level

    in_table : index < 512
    in_table = (div-lt_iff_lt-mul (span_pos t.level)).1 (omega arith)

    below :
        (index * span t.level ≤ a - t.input_address_start)
        × (a - t.input_address_start < index * span t.level + span t.level)
    below = (
      div-mul-le_self (a - t.input_address_start) (span t.level),
      lt-div-mul-add (span_pos t.level),
    )

    exact :
        (t.input_address_start + span t.level * index) % word
        ≡ t.input_address_start + span t.level * index
    exact = mod-eq_of_lt (omega (arith, below, covers.1))

-- Within the addresses of a table `row_by_address` finds the one row, of the 512, whose range holds
-- the address; outside them it is an error.
pub row_by_address_lem :
    (t : TableManager) (a : ℕ)
    → Covers t
    → ((r : TableRowManager) × (row_by_address t a ≡ ok r) × Holds t a r)
      ⊎ (((a < t.input_address_start) ⊎ (t.input_address_start + TableManager.len t ≤ a))
          × (row_by_address t a ≡ err))
unfolding row_by_address
row_by_address_lem t a covers =
    rw (len-span t covers.0, mod-eq_of_lt covers.1)
      (elim (Bool-cases
        (ltb a t.input_address_start || leb (t.input_address_start + 512 * span t.level) a)) [
          | inl outside ↦ inr (ground arith, rw outside)
          | inr inside ↦ inl (
            record { table_manager = t; index = (a - t.input_address_start) / span t.level },
            rw (inside, width t),
            row-Holds t a covers (ground arith) (ground arith),
          )
        ])

-- What the three loads of a row return.
abbrev pub Reads :
    TableRowManager
    → Ram
    → Result TableDescriptorBuilder
    → Result BlockDescriptorBuilder
    → Result PageDescriptorBuilder
    → Type 0
Reads r ram t b p = (load_table ram r ≡ t) × (load_block ram r ≡ b) × (load_page ram r ≡ p)

-- The memory is written at one word and nowhere else.
abbrev pub SameBut : ℕ → Ram → Ram → Type 0
SameBut ptr ram ram' = (a : ℕ) → a ≢ ptr → ram' a ≡ ram a

module _ (r : TableRowManager) (in_table : r.index < row_count) (ram : Ram) where
  stored : (v : ℕ) → set_value v r ram ≡ ok (write (row_ptr r) v ram)
  unfolding set_value
  stored v = rw (lt→ltb _ _ in_table)

  read_back : (v : ℕ) → value (write (row_ptr r) v ram) r ≡ ok v
  unfolding value
  read_back v = rw (lt→ltb _ _ in_table) (ground arith)

  -- On a last-level table `write_page` stores a row with a page descriptor, which reads back as
  -- that descriptor, through `load_page` and through no other load, and leaves every other word; on
  -- the levels above it is an error.
  pub write_page-load_page :
      (b : PageDescriptorBuilder)
      → b.pending_value % 4 ≡ 3
      → ((r.table_manager.level ≡ 3)
          × ((ram' : Ram) × (write_page b r ram ≡ ok ram')
              × Reads r ram' err err (ok b)
              × SameBut (row_ptr r) ram ram'))
        ⊎ ((r.table_manager.level ≢ 3) × (write_page b r ram ≡ err))
  unfolding write_page load_page load_table load_block descriptor_type type_of PageDescriptor.build
  write_page-load_page b bits = elim (Bool-cases (r.table_manager.level == level_max)) [
    | inl last ↦ inl (
      ground arith,
      (
        write (row_ptr r) b.pending_value ram,
        rw last (stored b.pending_value),
        rw (read_back b.pending_value) (
          ground (arith, and-type b.pending_value),
          ground (arith, and-type b.pending_value),
          ground (arith, and-type b.pending_value),
        ),
        λ a other. ground arith,
      ),
    )
    | inr above ↦ inr (ground arith, rw above)
  ]

  -- On a table above the last level `write_table` stores a row with a table descriptor, which reads
  -- back as that descriptor, through `load_table` and through no other load, and leaves every other
  -- word; on the last level it is an error.
  pub write_table-load_table :
      (b : TableDescriptorBuilder)
      → b.pending_value % 4 ≡ 3
      → ((r.table_manager.level < 3)
          × ((ram' : Ram) × (write_table b r ram ≡ ok ram')
              × Reads r ram' (ok b) err err
              × SameBut (row_ptr r) ram ram'))
        ⊎ ((3 ≤ r.table_manager.level) × (write_table b r ram ≡ err))
  unfolding write_table load_page load_table load_block descriptor_type type_of
      TableDescriptor.build
  write_table-load_table b bits = elim (Bool-cases (leb level_max r.table_manager.level)) [
    | inr above ↦ inl (
      ground arith,
      (
        write (row_ptr r) b.pending_value ram,
        rw above (stored b.pending_value),
        rw (read_back b.pending_value) (
          ground (arith, and-type b.pending_value),
          ground (arith, and-type b.pending_value),
          ground (arith, and-type b.pending_value),
        ),
        λ a other. ground arith,
      ),
    )
    | inl last ↦ inr (ground arith, rw last)
  ]

  -- On every table but the root `write_block` stores a row with a block descriptor, which reads
  -- back as that descriptor, through `load_block` and through no other load, and leaves every other
  -- word; on the root it is an error. The last level, where the architecture has no blocks, is
  -- taken too.
  pub write_block-load_block :
      (b : BlockDescriptorBuilder)
      → b.pending_value % 4 ≡ 1
      → ((0 < r.table_manager.level)
          × ((ram' : Ram) × (write_block b r ram ≡ ok ram')
              × Reads r ram' err (ok b) err
              × SameBut (row_ptr r) ram ram'))
        ⊎ ((r.table_manager.level ≡ 0) × (write_block b r ram ≡ err))
  unfolding write_block load_page load_table load_block descriptor_type type_of
      BlockDescriptor.build
  write_block-load_block b bits = elim (Bool-cases (leb r.table_manager.level 0)) [
    | inr below ↦ inl (
      ground arith,
      (
        write (row_ptr r) b.pending_value ram,
        rw below (stored b.pending_value),
        rw (read_back b.pending_value) (
          ground (arith, and-type b.pending_value),
          ground (arith, and-type b.pending_value),
          ground (arith, and-type b.pending_value),
        ),
        λ a other. ground arith,
      ),
    )
    | inl root ↦ inr (ground arith, rw root)
  ]
