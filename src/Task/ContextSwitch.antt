-- ===== src/Task/ContextSwitch.antt =====
-- kernel/src/task/aarch64/context.rs, with `memory_context_switch` of
-- kernel/src/memory/aarch64/memory_context.rs and the routine of
-- kernel/src/cpu/aarch64/cpu_context.s. What runs behind the switch, `after_func`, is not part of
-- it.
use pimento.Base.{ℕ, ◌≡◌, refl}
use pimento.Memory.MemoryContext.{MemoryContext, ttbr}
use pimento.Task.CpuContext.{Registers}

-- What a switch changes of the processor.
pub record Processor : Type 0 where
  pub ttbr0_el1 : ℕ
  pub registers : Registers

unfoldable pub memory_context_switch : MemoryContext → Processor → Processor
memory_context_switch next cpu = record cpu { ttbr0_el1 = ttbr next }

-- The registers of the processor are saved to `prev`, and loaded from `next`.
unfoldable pub cpu_context_switch : (next : Registers) → Processor → Registers × Processor
cpu_context_switch next cpu = (cpu.registers, record cpu { registers = next })

-- The registers that `prev` has from then on, and the processor.
unfoldable pub context_switch : MemoryContext → Registers → Processor → Registers × Processor
unfolding memory_context_switch cpu_context_switch
context_switch memory registers cpu =
    cpu_context_switch registers (memory_context_switch memory cpu)

-- A task that is switched away from and, whatever the processor did in between, switched back to
-- finds the registers and the translation table of before, if the table was that of its context.
pub context_switch-back :
    (mine theirs : MemoryContext) (registers : Registers) (cpu other : Processor)
    → cpu.ttbr0_el1 ≡ ttbr mine
    → (context_switch mine (context_switch theirs registers cpu).0 other).1 ≡ cpu
unfolding context_switch memory_context_switch cpu_context_switch
context_switch-back mine theirs registers cpu other own = rw own refl
