-- ===== src/Memory/Ram.antt =====
-- Memory as the kernel reaches it, and ranges of addresses.
use pimento.Base.{ℕ, ◌+◌, Bool, ◌&&◌, leb, ltb, ◌==◌, if◌then◌else◌}

-- `Page` is `[u8; 4096]`.
abbrev pub page_size : ℕ
page_size = 4096

-- The 64-bit word at each address of the kernel's own address space.
abbrev pub Ram : Type 0
Ram = ℕ → ℕ

-- `ptr::write_bytes(ptr, 0, 1)` for a pointer to a page.
unfoldable pub zero_page : ℕ → Ram → Ram
zero_page ptr ram a = if leb ptr a && ltb a (ptr + page_size) then 0 else ram a

-- A write through a pointer to a word.
abbrev pub write : ℕ → ℕ → Ram → Ram
write ptr value ram a = if ptr == a then value else ram a

-- `Range<usize>`
pub record Range : Type 0 where
  pub start : ℕ
  pub end : ℕ

-- `contains(&a)`
abbrev pub contains : Range → ℕ → Bool
contains r a = leb r.start a && ltb a r.end
