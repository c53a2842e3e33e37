-- ===== src/Abi/InterruptRouter/Runs.antt =====
-- Two interrupts of the controller, over registers that keep what is written to them.
use pimento.Base.{ℕ, List, [], ◌∷◌, ◌≡◌, ◌⊎◌, refl, ◌==◌, if◌then◌else◌}
use pimento.Device.Registers.{Registers}
use pimento.Device.InterruptController.{bcm2837, core0_irq, core0_timer_irqcntl, cntpnsirq}
use pimento.Abi.InterruptRouter.{Interrupt, InterruptRouter, HandlerFn, new, enable, handle}
use pimento.Abi.InterruptRouter.Handling.{Quiet, Handles, enable_all, handle_lem}

abbrev Plain : Type 0
Plain = ℕ → ℕ

abbrev plain : Registers Plain
plain = record {
  read = λ address w. (w address, w);
  write = λ address value w a. if address == a then value else w a;
}

-- A handler leaves its mark at address 0.
abbrev leave : HandlerFn Plain
leave mark w a = if a == 0 then mark else w a

-- Number 3 is pending, and so is number 5, which nothing was enabled for.
abbrev raised : Plain
raised a = if a == core0_irq then 0b10_1000 else 0

abbrev enabled : InterruptRouter Plain × Plain
enabled =
    enable (bcm2837 plain) 3 leave 33
      (enable (bcm2837 plain) cntpnsirq leave 11 (new Plain, raised))

enabled_bits : enabled.1 core0_timer_irqcntl ≡ 0b1010
unfolding enable
enabled_bits = refl

-- The handler of number 3 runs, and its bit is cleared.
handled : (handle enabled.0 enabled.1 0 ≡ 33) × (handle enabled.0 enabled.1 core0_irq ≡ 0b10_0000)
unfolding enable handle
handled = (refl, refl)

abbrev given : List (Interrupt Plain)
given =
    record {
      controller = bcm2837 plain;
      number = cntpnsirq;
      handler_func = leave;
      handler_data = 11;
    }
    ∷ record { controller = bcm2837 plain; number = 3; handler_func = leave; handler_data = 33 }
    ∷ []

handle_lem_example :
    Quiet given enabled.1 (handle (enable_all given (new Plain, raised)).0 enabled.1)
    ⊎ Handles given enabled.1 (handle (enable_all given (new Plain, raised)).0 enabled.1)
handle_lem_example = handle_lem given raised enabled.1
