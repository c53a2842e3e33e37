-- ===== src/Abi/SysWrite/LoadedPage.antt =====
-- From the loading of a program to what it prints.
use pimento.Base.{
  ◌+◌, ◌%◌, ◌≤◌, ◌≡◌, inl, inr, refl, ◌⊎◌, true, false, Option, some, length, Result, ok, panic,
  Bool-cases,
}
use mathlib.Core.Path.{subst}
use pimento.Base.Utf8.{Ascii, from_utf8_lossy, from_utf8_lossy-Ascii}
use pimento.Memory.Reserve.{reserves}
use pimento.Memory.UserMemory.{KernelBytes}
use pimento.Fs.Name.{name_eq, name_eq_iff}
use pimento.Memory.MemoryContext.{MemoryContext, State}
use pimento.Memory.MemoryContext.Regions.{Owned}
use pimento.Memory.MemoryContext.Mapping.{WellFormed}
use pimento.Fs.Devfs.{CharacterDevices}
use pimento.Log.{Log, print}
use pimento.Task.Elf.Reader.{LoadablePage}
use pimento.Task.TaskExecution.{load_page}
use pimento.Task.TaskExecution.PageLoading.{Filled, load_page_lem}
use pimento.Abi.SystemCalls.{CallResult, Args}
use pimento.Abi.SysWrite.{Heaps, printed, call}

-- The registers of a write of the page to the standard output.
abbrev pub write_of : LoadablePage → Args
write_of page = record {
  arg0 = 1;
  arg1 = page.address;
  arg2 = length page.bytes;
  arg3 = 0;
  arg4 = 0;
  arg5 = 0;
}

module _ {W : Type 0} (devices : CharacterDevices W) (log : Log) (heaps : Heaps)
    (kernel : KernelBytes) (context : MemoryContext) (owned : Owned) (s : State)
    (page : LoadablePage) (fine : WellFormed context owned s)
    (inside : page.address % 4096 + length page.bytes ≤ 4096) where
  -- The answer to a call that prints the bytes of the page.
  abbrev pub prints : State → W → Option (Result CallResult × State × W)
  prints s' w =
      let r =
        printed devices log heaps kernel (length page.bytes) (print devices log page.bytes w) in
      some (r.0, s', r.1)

  -- What a write of the page does: it prints the bytes, or the heap has no room for the buffer.
  abbrev pub Written : State → W → Type 0
  Written s' w =
      ((reserves heaps.buffer (length page.bytes) ≡ true)
        × (call devices log heaps kernel context (write_of page) s' w ≡ prints s' w))
      ⊎ ((reserves heaps.buffer (length page.bytes) ≡ false)
          × (call devices log heaps kernel context (write_of page) s' w ≡ some (panic, s', w)))

  Filled-call : (s' : State) (w : W) → Ascii page.bytes → Filled context s s' page → Written s' w
  unfolding call
  Filled-call s' w ascii filled =
      let plain : from_utf8_lossy page.bytes ≡ page.bytes =
        from_utf8_lossy-Ascii page.bytes ascii in
      let borrowed : name_eq page.bytes page.bytes ≡ true =
        (name_eq_iff page.bytes page.bytes).1 refl in
      elim (Bool-cases (reserves heaps.buffer (length page.bytes))) [
        | inl room ↦ inl (room, rw (call, room, filled.read_back kernel, plain, borrowed) refl)
        | inr full ↦ inr (full, rw (call, full) refl)
      ]

  -- When a page was loaded whose bytes are ASCII and lie within one page of memory, a write of them
  -- to file 1 prints them just as they are and leaves the memory alone, if the heap has room for a
  -- copy of them; otherwise it panics.
  pub load_page-call :
      (s' : State) (w : W)
      → Ascii page.bytes
      → load_page context page s ≡ some (ok tt, s')
      → Written s' w
  load_page-call s' w ascii e = elim (load_page_lem context owned s page fine inside) [
    | inl (s2, owned', e2, low, filled, fine2) ↦
        let same : s2 ≡ s' = cc (e, e2) in
        subst (λ (t : State). Written t w) same (Filled-call s2 w ascii filled)
    | inr (inl (s2, _, e2, _, _)) ↦ absurd (cc (e, e2))
    | inr (inr (_, e2)) ↦ absurd (cc (e, e2))
  ]
