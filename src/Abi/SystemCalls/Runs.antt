-- ===== src/Abi/SystemCalls/Runs.antt =====
-- A router with `write` of kernel/src/abi/system_calls/write.rs alone, and the theorem at it.
use pimento.Base.{ℕ, ◌≡◌, refl, [], ◌∷◌, ◌==◌, if◌then◌else◌, word, ◌-◌}
use pimento.Abi.SystemCalls.{SystemCall, Args, val, fail, bad_file_number, run}
use pimento.Abi.SystemCalls.Routing.{last_with}

-- The count of bytes that were printed stands for the log.
abbrev sys_write : SystemCall ℕ
sys_write = record {
  number = 64;
  call = λ args w. if args.arg0 == 1 then (val args.arg2, args.arg2) else (fail bad_file_number, w);
}

abbrev args : Args
args = record { arg0 = 2; arg1 = 0; arg2 = 5; arg3 = 0; arg4 = 0; arg5 = 0 }

-- A bad file number, and a number past the table.
errors :
    (run (last_with 64 (sys_write ∷ [])) args 0 ≡ (word - 9, 0))
    × (run (last_with 65 (sys_write ∷ [])) args 0 ≡ (word - 38, 0))
errors = (refl, refl)
