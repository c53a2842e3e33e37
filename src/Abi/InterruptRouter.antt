-- ===== src/Abi/InterruptRouter.antt =====
-- kernel/src/abi/interrupt_router.rs: which handler an interrupt goes to. The mutex is the grain of
-- the steps; it is free again when a handler runs.
pub mod Handling
mod Runs
use pimento.Base.{ℕ, Bool, true, false, Option, none, some, List, [], ◌∷◌, ◌++◌}
use pimento.Device.InterruptController.{InterruptController}

-- What is done with the data of a handler. The pointer that is cast away from its type is a number.
abbrev pub HandlerFn : Type 0 → Type 0
HandlerFn W = ℕ → W → W

pub record Interrupt (W : Type 0) : Type 0 where
  pub controller : InterruptController W
  pub number : ℕ
  pub handler_func : HandlerFn W
  pub handler_data : ℕ

abbrev pub InterruptRouter : Type 0 → Type 0
InterruptRouter W = List (Interrupt W)

abbrev pub Handler : Type 0 → Type 0
Handler W = HandlerFn W × ℕ

abbrev pub new : (W : Type 0) → InterruptRouter W
new W = []

module _ {W : Type 0} where
  unfoldable pub enable :
      InterruptController W → ℕ → HandlerFn W → ℕ → InterruptRouter W × W → InterruptRouter W × W
  enable interrupt_controller number handler_func handler_data (interrupts, w) = (
    interrupts
        ++ record {
          controller = interrupt_controller;
          number = number;
          handler_func = handler_func;
          handler_data = handler_data;
        }
          ∷ [],
    interrupt_controller.enable number w,
  )

  -- The loop: the first interrupt that is pending is cleared.
  unfoldable pub find_handler : InterruptRouter W → W → Option (Handler W) × W
  find_handler [] w = (none, w)
  find_handler (interrupt ∷ interrupts) w =
      let (pending, w') = interrupt.controller.is_pending interrupt.number w in
      let rest = find_handler interrupts w' in
      elim pending [
        | true ↦ (
          some (interrupt.handler_func, interrupt.handler_data),
          interrupt.controller.clear interrupt.number w',
        )
        | false ↦ rest
      ]

  abbrev pub call_handler : Option (Handler W) × W → W
  call_handler (some handler, w) = handler.0 handler.1 w
  call_handler (none, w) = w

  unfoldable pub handle : InterruptRouter W → W → W
  unfolding find_handler
  handle interrupts w = call_handler (find_handler interrupts w)
