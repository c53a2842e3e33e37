-- ===== src/Device/InterruptController.antt =====
-- kernel/src/device/interrupt_controller.rs, and its one implementation in
-- kernel/src/device/driver/bcm2837_interrupt.rs.
use pimento.Base.{ℕ, ◌-◌, ◌%◌, ◌^◌, Bool, not, ◌==◌}
use pimento.Base.Bits.{bit_and, bit_or}
use pimento.Device.Registers.{Registers}

-- The trait, over what the hardware keeps.
pub record InterruptController (W : Type 0) : Type 0 where
  pub enable : ℕ → W → W
  pub is_pending : ℕ → W → Bool × W
  pub clear : ℕ → W → W

abbrev pub core0_timer_irqcntl : ℕ
core0_timer_irqcntl = 0xFFFF_0000_4000_0040

abbrev pub core0_irq : ℕ
core0_irq = 0xFFFF_0000_4000_0060

abbrev pub cntpnsirq : ℕ
cntpnsirq = 1

-- `0b1 << number as u32`, on 32 bits: a release build takes the amount modulo 32.
abbrev pub bit : ℕ → ℕ
bit number = 2 ^ (number % 2 ^ 32 % 32)

-- `!x` on 32 bits.
abbrev pub bit_not32 : ℕ → ℕ
bit_not32 x = 2 ^ 32 - 1 - x

module _ {W : Type 0} (registers : Registers W) where
  abbrev changed : ℕ → (ℕ → ℕ) → W → W
  changed address change w =
      let (value, w') = registers.read address w in registers.write address (change value) w'

  abbrev pub enable : ℕ → W → W
  enable number = changed core0_timer_irqcntl (λ value. bit_or value (bit number))

  abbrev pub is_pending : ℕ → W → Bool × W
  is_pending number w =
      let (value, w') = registers.read core0_irq w in (not (bit_and value (bit number) == 0), w')

  abbrev pub clear : ℕ → W → W
  clear number = changed core0_irq (λ value. bit_and value (bit_not32 (bit number)))

  abbrev pub bcm2837 : InterruptController W
  bcm2837 = record { enable = enable; is_pending = is_pending; clear = clear }
