-- ===== src/Device/Timer.antt =====
-- kernel/src/device/driver/armv8_timer.rs, over the system registers of the timer. A duration is
-- its number of nanoseconds.
use pimento.Base.{ℕ, ◌*◌, ◌/◌, ◌%◌, Result, ok, panic, ◌==◌, if◌then◌else◌, word}

-- The registers `cntfrq_el0`, `cntpct_el0`, `cntp_tval_el0` and `cntp_ctl_el0`.
pub record TimerRegisters : Type 0 where
  pub cntfrq_el0 : ℕ
  pub cntpct_el0 : ℕ
  pub cntp_tval_el0 : ℕ
  pub cntp_ctl_el0 : ℕ

abbrev pub nanos : ℕ
nanos = 1000000000

abbrev pub frequency : TimerRegisters → ℕ
frequency r = r.cntfrq_el0

abbrev pub count : TimerRegisters → ℕ
count r = r.cntpct_el0

-- The product has 128 bits, the value that is set 64.
unfoldable pub set_duration : ℕ → TimerRegisters → TimerRegisters
set_duration duration r = record r {
  cntp_tval_el0 = duration * frequency r % (word * word) / nanos % word;
  cntp_ctl_el0 = 1;
}

-- A division by zero is a panic.
unfoldable pub monotonic : TimerRegisters → Result ℕ
monotonic r =
    if frequency r == 0 then panic else ok (count r * nanos % (word * word) / frequency r % word)
