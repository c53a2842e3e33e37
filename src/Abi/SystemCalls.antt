-- ===== src/Abi/SystemCalls.antt =====
-- kernel/src/abi/system_call_router.rs, with the numbers of kernel/src/abi/system_calls/mod.rs.
-- What a call does to the kernel's state `W` is part of the handler. The message for a number that
-- has no handler is left out.
pub mod Routing
mod Runs
use Prim.Native.Nat.{max}
use pimento.Base.{
  ℕ, ◌+◌, ◌-◌, ◌%◌, Option, none, some, List, [], ◌∷◌, get_elem?, set, replicate, word,
}

pub data SystemCallError : Type 0 where
  bad_file_number bad_address function_not_implemented : SystemCallError

abbrev pub error_number : SystemCallError → ℕ
error_number bad_file_number = 9
error_number bad_address = 14
error_number function_not_implemented = 38

pub data CallResult : Type 0 where
  val : ℕ → CallResult
  fail : SystemCallError → CallResult

pub record Args : Type 0 where
  pub arg0 : ℕ
  pub arg1 : ℕ
  pub arg2 : ℕ
  pub arg3 : ℕ
  pub arg4 : ℕ
  pub arg5 : ℕ

pub record SystemCall (W : Type 0) : Type 0 where
  pub number : ℕ
  pub call : Args → W → CallResult × W

-- The words of an `isize`.
abbrev pub word_of : CallResult → ℕ
word_of (val v) = v
word_of (fail e) = (word - error_number e) % word

module _ {W : Type 0} where
  -- `max().unwrap_or(0)`
  abbrev pub max_number : List (SystemCall W) → ℕ
  max_number [] = 0
  max_number (h ∷ hs) = max h.number (max_number hs)

  -- The loop of `new` over the handlers.
  unfoldable pub fill :
      List (SystemCall W) → List (Option (SystemCall W)) → List (Option (SystemCall W))
  fill [] table = table
  fill (h ∷ hs) table = fill hs (set table h.number (some h))

  unfoldable pub new : List (SystemCall W) → List (Option (SystemCall W))
  unfolding fill
  new handlers = fill handlers (replicate (max_number handlers + 1) none)

  -- `get(num).unwrap_or(&None)`
  abbrev pub handler_of : ℕ → List (Option (SystemCall W)) → Option (SystemCall W)
  handler_of num table = elim (get_elem? table num) [ none ↦ none | some handler ↦ handler ]

  abbrev pub run : Option (SystemCall W) → Args → W → ℕ × W
  run none args w = (word_of (fail function_not_implemented), w)
  run (some h) args w = (word_of (h.call args w).0, (h.call args w).1)

  unfoldable pub handle : List (Option (SystemCall W)) → ℕ → Args → W → ℕ × W
  handle table num args w = run (handler_of num table) args w
