-- ===== src/Task/CpuContext.antt =====
-- kernel/src/cpu/aarch64/cpu_context.rs: the registers that a context switch saves and loads.
use pimento.Base.{ℕ}

pub record Registers : Type 0 where
  pub x19 : ℕ
  pub x20 : ℕ
  pub x21 : ℕ
  pub x22 : ℕ
  pub x23 : ℕ
  pub x24 : ℕ
  pub x25 : ℕ
  pub x26 : ℕ
  pub x27 : ℕ
  pub x28 : ℕ
  pub fp : ℕ
  pub lr : ℕ
  pub sp : ℕ

-- `CpuContext` is a cell around the registers.
unfoldable pub new : Registers
new = record {
  x19 = 0;
  x20 = 0;
  x21 = 0;
  x22 = 0;
  x23 = 0;
  x24 = 0;
  x25 = 0;
  x26 = 0;
  x27 = 0;
  x28 = 0;
  fp = 0;
  lr = 0;
  sp = 0;
}

unfoldable pub set_stack_pointer : ℕ → Registers → Registers
set_stack_pointer sp r = record r { sp = sp }

unfoldable pub set_link_register : (lr x19 x20 : ℕ) → Registers → Registers
set_link_register lr x19 x20 r = record r { x19 = x19; x20 = x20; lr = lr }
