-- ===== src/Abi/InterruptRouter/Handling.antt =====
-- One handler runs for one call, that of the first pending interrupt.
use mathlib.Core.Path.{subst}
use pimento.Base.{
  ◌≡◌, refl, sym, ap, ◌∙◌, ◌⊎◌, inl, inr, true, false, Bool-cases, List, [], ◌∷◌, ◌++◌,
}
use pimento.Abi.InterruptRouter.{Interrupt, InterruptRouter, new, enable, find_handler, handle}

module _ {W : Type 0} where
  -- The interrupts are asked in order, and none is pending.
  pub data Quiet : List (Interrupt W) → W → W → Type 0 where
    asked_none : {w : W} → Quiet [] w w
    asked :
        {interrupt : Interrupt W} {interrupts : List (Interrupt W)} {w w' w'' : W}
        → interrupt.controller.is_pending interrupt.number w ≡ (false, w')
        → Quiet interrupts w' w''
        → Quiet (interrupt ∷ interrupts) w w''

  -- The handler of `interrupt` runs, behind `before`.
  pub record Handles (interrupts : List (Interrupt W)) (w w' : W) : Type 0 where
    pub before : List (Interrupt W)
    pub interrupt : Interrupt W
    pub behind : List (Interrupt W)
    pub asked_state : W
    pub pending_state : W
    pub split : interrupts ≡ before ++ interrupt ∷ behind
    pub quiet : Quiet before w asked_state
    pub pending :
        interrupt.controller.is_pending interrupt.number asked_state ≡ (true, pending_state)
    pub handled :
        w'
        ≡ interrupt.handler_func interrupt.handler_data
            (interrupt.controller.clear interrupt.number pending_state)

  find_handler_lem :
      (interrupts : List (Interrupt W)) (w : W)
      → Quiet interrupts w (handle interrupts w) ⊎ Handles interrupts w (handle interrupts w)
  unfolding handle find_handler
  find_handler_lem [] w = inl asked_none
  find_handler_lem (interrupt ∷ interrupts) w =
      elim (Bool-cases (interrupt.controller.is_pending interrupt.number w).0) [
        | inl raised ↦ inr (record {
          before = [];
          interrupt = interrupt;
          behind = interrupts;
          asked_state = w;
          pending_state = (interrupt.controller.is_pending interrupt.number w).1;
          split = refl;
          quiet = asked_none;
          pending = ap (λ b. (b, (interrupt.controller.is_pending interrupt.number w).1)) raised;
          handled = rw raised refl;
        })
        | inr silent ↦
            rw silent
              (elim (find_handler_lem interrupts
                (interrupt.controller.is_pending interrupt.number w).1) [
                  | inl quiet ↦ inl (
                      asked
                        (ap (λ b. (b, (interrupt.controller.is_pending interrupt.number w).1))
                          silent)
                        quiet)
                  | inr handles ↦ inr (record {
                    before = interrupt ∷ handles.before;
                    interrupt = handles.interrupt;
                    behind = handles.behind;
                    asked_state = handles.asked_state;
                    pending_state = handles.pending_state;
                    pending = handles.pending;
                    handled = handles.handled;
                    split = ap (λ t. interrupt ∷ t) handles.split;
                    quiet =
                        asked
                          (ap (λ b. (b, (interrupt.controller.is_pending interrupt.number w).1))
                            silent)
                          handles.quiet;
                  })
                ])
      ]

  -- The calls of `enable` for the interrupts, one after the other.
  abbrev pub enable_all : List (Interrupt W) → InterruptRouter W × W → InterruptRouter W × W
  enable_all [] r = r
  enable_all (i ∷ is) r =
      enable_all is (enable i.controller i.number i.handler_func i.handler_data r)

  append_one : (xs ys : List (Interrupt W)) (x : Interrupt W) → (xs ++ x ∷ []) ++ ys ≡ xs ++ x ∷ ys
  append_one [] ys x = refl
  append_one (y ∷ xs) ys x = ap (λ t. y ∷ t) (append_one xs ys x)

  append_empty : (xs : List (Interrupt W)) → xs ++ [] ≡ xs
  append_empty [] = refl
  append_empty (y ∷ xs) = ap (λ t. y ∷ t) (append_empty xs)

  enable_all-append :
      (is interrupts : List (Interrupt W)) (w : W)
      → (enable_all is (interrupts, w)).0 ≡ interrupts ++ is
  unfolding enable
  enable_all-append [] interrupts w = sym (append_empty interrupts)
  enable_all-append (i ∷ is) interrupts w =
      enable_all-append is (interrupts ++ i ∷ []) (i.controller.enable i.number w)
      ∙ append_one interrupts is i

  -- A new router, for which interrupts were enabled one after the other, asks them in that order
  -- when `handle` is called. At the first that is pending it clears that one and runs its handler,
  -- once and no other; if none is pending it runs no handler and clears nothing.
  pub handle_lem :
      (is : List (Interrupt W)) (booted w : W)
      → Quiet is w (handle (enable_all is (new W, booted)).0 w)
        ⊎ Handles is w (handle (enable_all is (new W, booted)).0 w)
  handle_lem is booted w =
      subst (λ (t : InterruptRouter W). Quiet is w (handle t w) ⊎ Handles is w (handle t w))
        (sym (enable_all-append is [] booted)) (find_handler_lem is w)
