-- ===== src/Device/Registers.antt =====
-- `read_volatile` and `write_volatile` on the registers of a device. What they do is the
-- hardware's: a read may change its state too.
use pimento.Base.{ℕ}

pub record Registers (W : Type 0) : Type 0 where
  pub read : ℕ → W → ℕ × W
  pub write : ℕ → ℕ → W → W
