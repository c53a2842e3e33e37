-- ===== src/Memory/UserMemory.antt =====
-- The two copies of kernel/src/memory/aarch64/memory_context.rs. They run with the tables of the
-- context, so the processor finds the byte behind each user address by its walk; an address that is
-- not mapped is a fault, which panics. In a page of user space the memory keeps a byte at each
-- address.
pub mod Bytes
pub mod Copies
use pimento.Base.{
  ℕ, zero, suc, ◌+◌, ◌%◌, ◌^◌, Bool, Option, none, some, List, [], ◌∷◌, Result, ok, panic, ltb, leb,
  ◌&&◌, if◌then◌else◌,
}
use pimento.Memory.Address.{UserAddress, PhysicalAddress}
use pimento.Memory.Mapper.{virtual_address, va_start}
use pimento.Memory.Ram.{Ram, write, page_size}
use pimento.Memory.MemoryContext.{MemoryContext, State, Step, ◌>>=◌, lift, store, look, alloc_page}
use pimento.Memory.MemoryContext.Regions.{translate}
use pimento.Memory.MemoryContext.Mapping.{root_of}

-- How far the window reaches that kernel/src/memory/aarch64/init.rs maps for the kernel: one row of
-- level 0.
abbrev pub window_size : ℕ
window_size = 2 ^ 39

abbrev pub in_window : ℕ → Bool
in_window a = leb va_start a && ltb a (va_start + window_size)

-- Where the kernel finds the byte of an address. The low half is that of the tables of the context,
-- by their walk; an address of the kernel's window is its own, since the copies run with the rights
-- of the kernel and no one checks the address.
abbrev pub user_ptr : Ram → PhysicalAddress → UserAddress → Option ℕ
user_ptr ram root a =
    if ltb a (2 ^ 48)
    then elim (translate ram root a) [
      | none ↦ none
      | some p ↦ some (virtual_address p + a % page_size)
    ]
    else if in_window a
    then some a
    else none

abbrev pub user_byte : Ram → PhysicalAddress → UserAddress → Option ℕ
user_byte ram root a = elim (user_ptr ram root a) [ none ↦ none | some ptr ↦ some (ram ptr) ]

abbrev pub put_byte : PhysicalAddress → UserAddress → ℕ → Ram → Result Ram
put_byte root a byte ram = elim (user_ptr ram root a) [
  | none ↦ panic
  | some ptr ↦ ok (write ptr byte ram)
]

-- `core::ptr::copy` from a slice of the kernel, to the addresses from `dst` on. `execute` maps
-- their page first, which fails from 2^48 on, so none of them is in the window.
unfoldable pub copy_to_user : MemoryContext → List ℕ → UserAddress → Step (Unit {0})
copy_to_user context [] dst = lift (ok tt)
copy_to_user context (byte ∷ src) dst = do
  _ ← store (put_byte (root_of context) dst byte)
  copy_to_user context src (dst + 1)

abbrev pub got : Option ℕ → Result ℕ
got none = panic
got (some byte) = ok byte

-- How the kernel's own memory, which the model keeps as words, reads as bytes.
abbrev pub KernelBytes : Type 0
KernelBytes = Ram → ℕ → ℕ

-- The byte that the kernel reads at an address: its own in the window, where no one stops it.
abbrev pub byte_at : KernelBytes → Ram → PhysicalAddress → UserAddress → Option ℕ
byte_at kernel ram root a = if in_window a then some (kernel ram a) else user_byte ram root a

-- `core::ptr::copy` of `count` bytes from the addresses from `src` on.
unfoldable pub copy_from_user : KernelBytes → MemoryContext → UserAddress → ℕ → Step (List ℕ)
copy_from_user kernel context src zero = lift (ok [])
copy_from_user kernel context src (suc count) = do
  byte ← look (λ ram. got (byte_at kernel ram (root_of context) src))
  rest ← copy_from_user kernel context (src + 1) count
  lift (ok (byte ∷ rest))
