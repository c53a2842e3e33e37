-- ===== src/Abi/SysWrite.antt =====
-- kernel/src/abi/system_calls/write.rs, for the context of the current task. The heap is asked
-- for the buffer, and once more where a text is made because the bytes are not UTF-8.
pub mod Printing
pub mod LoadedPage
mod Runs
use pimento.Base.{
  ℕ, Option, none, some, List, Result, ok, err, panic, if◌then◌else◌, Bool, not, ◌==◌, ◌||◌, ◌&&◌,
  length,
}
use pimento.Base.Utf8.{from_utf8_lossy}
use pimento.Memory.Reserve.{HeapRoom, reserves}
use pimento.Memory.MemoryContext.{MemoryContext, State}
use pimento.Memory.UserMemory.{KernelBytes, copy_from_user}
use pimento.Fs.Devfs.{CharacterDevices}
use pimento.Fs.Name.{name_eq}
use pimento.Log.{Log, print}
use pimento.Abi.SystemCalls.{
  SystemCallError, bad_file_number, bad_address, CallResult, val, fail, Args,
}

-- How the heap answers for `vec![0; count]`, and behind that for the text, which is made with room
-- for as many bytes as the buffer and may become longer.
pub record Heaps : Type 0 where
  pub buffer : HeapRoom
  pub text : HeapRoom

-- Whether `from_utf8_lossy` returns: UTF-8, which it leaves as it is, is not copied.
abbrev pub has_text : HeapRoom → List ℕ → Bool
has_text heap k_buf =
    name_eq (from_utf8_lossy k_buf) k_buf
    || (reserves heap (length k_buf) && reserves heap (length (from_utf8_lossy k_buf)))

module _ {W : Type 0} (devices : CharacterDevices W) (log : Log) (heaps : Heaps)
    (kernel : KernelBytes) where
  abbrev pub printed : ℕ → Result (Unit {0}) × W → Result CallResult × W
  printed count (ok _, w) = (ok (val count), w)
  printed count (err, w) = (err, w)
  printed count (panic, w) = (panic, w)

  abbrev pub copied :
      ℕ → W → Option (Result (List ℕ) × State) → Option (Result CallResult × State × W)
  copied count w none = none
  copied count w (some (ok k_buf, s)) =
      let r = printed count (print devices log (from_utf8_lossy k_buf) w) in
      if has_text heaps.text k_buf then some (r.0, s, r.1) else some (panic, s, w)
  copied count w (some (err, s)) = some (ok (fail bad_address), s, w)
  copied count w (some (panic, s)) = some (panic, s, w)

  unfoldable pub call : MemoryContext → Args → State → W → Option (Result CallResult × State × W)
  unfolding print
  call context args s w =
      if not (args.arg0 == 1)
      then some (ok (fail bad_file_number), s, w)
      else if not (reserves heaps.buffer args.arg2)
      then some (panic, s, w)
      else copied args.arg2 w (copy_from_user kernel context args.arg1 args.arg2 s)
