-- ===== src/Abi/SysWrite/Printing.antt =====
-- What the call prints.
use pimento.Base.{
  ℕ, ◌+◌, ◌<◌, ◌≡◌, ◌≢◌, refl, ◌⊎◌, inl, inr, arith, true, false, Option, some, none, List, length,
  get_elem?, Result, ok, panic, ◌==◌, ==→≡, Bool-cases,
}
use pimento.Base.Utf8.{from_utf8_lossy}
use pimento.Memory.Reserve.{HeapRoom, reserves}
use pimento.Memory.MemoryContext.{MemoryContext, State}
use pimento.Memory.MemoryContext.Mapping.{root_of}
use pimento.Memory.UserMemory.{KernelBytes, byte_at}
use pimento.Memory.UserMemory.Copies.{copy_from_user-cases}
use pimento.Fs.Name.{name_eq, name_eq_iff}
use pimento.Fs.Devfs.{CharacterDevices}
use pimento.Log.{Log, print}
use pimento.Abi.SystemCalls.{CallResult, Args, fail, bad_file_number}
use pimento.Abi.SysWrite.{Heaps, has_text, printed, call}

-- The text of the bytes is the bytes themselves, or the heap has the room to make it.
abbrev pub HasText : HeapRoom → List ℕ → Type 0
HasText heap bytes =
    (from_utf8_lossy bytes ≡ bytes)
    ⊎ ((reserves heap (length bytes) ≡ true)
        × (reserves heap (length (from_utf8_lossy bytes)) ≡ true))

-- A text has to be made, and the heap has no room for it.
abbrev pub NoText : HeapRoom → List ℕ → Type 0
NoText heap bytes =
    (from_utf8_lossy bytes ≢ bytes)
    × ((reserves heap (length bytes) ≡ false)
        ⊎ (reserves heap (length (from_utf8_lossy bytes)) ≡ false))

text-cases :
    (heap : HeapRoom) (bytes : List ℕ)
    → ((has_text heap bytes ≡ true) × HasText heap bytes)
      ⊎ ((has_text heap bytes ≡ false) × NoText heap bytes)
text-cases heap bytes = elim (Bool-cases (name_eq (from_utf8_lossy bytes) bytes)) [
  | inl same ↦ inl (rw same refl, inl ((name_eq_iff (from_utf8_lossy bytes) bytes).0 same))
  | inr apart ↦
      let other : from_utf8_lossy bytes ≢ bytes =
        (λ e. ground (arith, apart, (name_eq_iff (from_utf8_lossy bytes) bytes).1 e)) in
      elim (Bool-cases (reserves heap (length bytes))) [
        | inr full ↦ inr (rw (apart, full) refl, (other, inl full))
        | inl room ↦ elim (Bool-cases (reserves heap (length (from_utf8_lossy bytes)))) [
          | inr full ↦ inr (rw (apart, room, full) refl, (other, inr full))
          | inl longer ↦ inl (rw (apart, room, longer) refl, inr (room, longer))
        ]
      ]
]

module _ {W : Type 0} (devices : CharacterDevices W) (log : Log) (heaps : Heaps)
    (kernel : KernelBytes) (context : MemoryContext) (args : Args) (s : State) (w : W) where
  -- The bytes that stand from `arg1` on: the task's, or the kernel's own in its window.
  pub record Buffer (bytes : List ℕ) : Type 0 where
    pub size : length bytes ≡ args.arg2
    pub there :
        (i : ℕ)
        → i < args.arg2
        → byte_at kernel s.pages.ram (root_of context) (args.arg1 + i) ≡ get_elem? bytes i

  abbrev pub prints : List ℕ → Option (Result CallResult × State × W)
  prints text =
      let r = printed devices log heaps kernel args.arg2 (print devices log text w) in
      some (r.0, s, r.1)

  -- Why a write to file 1 panics, before anything is printed.
  abbrev pub Panics : Type 0
  Panics =
      (reserves heaps.buffer args.arg2 ≡ false)
      ⊎ (((i : ℕ) × (i < args.arg2)
            × (byte_at kernel s.pages.ram (root_of context) (args.arg1 + i) ≡ none))
          ⊎ ((bytes : List ℕ) × Buffer bytes × NoText heaps.text bytes))

  -- A write leaves the memory alone. To any file but 1 it is an error, without effect. Otherwise
  -- the bytes that stand at the address, the kernel's own in its window too, are printed, with what
  -- is not UTF-8 replaced, and their number is the result, unless the device panics; for that the
  -- heap has room for the buffer, and for the text where one has to be made. Or the call panics and
  -- prints nothing, because the heap has no room for the buffer or the text, or one of the bytes is
  -- not mapped.
  pub call_lem :
      ((args.arg0 ≢ 1)
        × (call devices log heaps kernel context args s w ≡ some (ok (fail bad_file_number), s, w)))
      ⊎ ((args.arg0 ≡ 1)
          × (((bytes : List ℕ) × (reserves heaps.buffer args.arg2 ≡ true)
                × Buffer bytes
                × HasText heaps.text bytes
                × (call devices log heaps kernel context args s w ≡ prints (from_utf8_lossy bytes)))
              ⊎ ((call devices log heaps kernel context args s w ≡ some (panic, s, w)) × Panics)))
  unfolding call
  call_lem = elim (Bool-cases (args.arg0 == 1)) [
    | inr other ↦ inl (ground (arith, other), rw (call, other) refl)
    | inl one ↦ inr (
      ==→≡ args.arg0 1 one,
      elim (Bool-cases (reserves heaps.buffer args.arg2)) [
        | inr full ↦ inr (rw (call, one, full) refl, inl full)
        | inl room ↦ elim (copy_from_user-cases kernel context args.arg2 args.arg1 s) [
          | inr (e, fault) ↦ inr (rw (call, one, room, e) refl, inr (inl fault))
          | inl (bytes, e, size, there) ↦
              let buffer : Buffer bytes = record { size = size; there = there } in
              elim (text-cases heaps.text bytes) [
                | inl (here, has) ↦
                    inl (bytes, room, buffer, has, rw (call, one, room, e, here) refl)
                | inr (gone, has) ↦
                    inr (rw (call, one, room, e, gone) refl, inr (inr (bytes, buffer, has)))
              ]
        ]
      ],
    )
  ]
