-- ===== src/Sync/Mutex/Serial.antt =====
-- What the cores write is as if they had come one after the other.
use pimento.Base.{
  ℕ, ◌+◌, ◌≤◌, ◌≡◌, ◌≢◌, refl, sym, ap, ◌∙◌, ◌⊎◌, inl, inr, arith, Bool, true, false, some,
  Option-cases, Bool-cases, List, [], ◌∷◌, ◌++◌, get_elem?, set, get_elem?-set_ne,
  get_elem?-set_self, get_elem?-lt, if◌then◌else◌, ◌==◌, ==→≡,
}
use pimento.Sync.Counting.{total, total-set, total-some, total-two, total-replicate}
use pimento.Sync.Mutex.{
  Place, outside, spinning, guarded, read, written, released, Mutex, new, try_lock, step_at, step,
  steps,
}
use pimento.Sync.Mutex.Order.{
  inside, wrote, wrote_at, count, serial, serial-push, count-push, at_start,
}

module _ {T : Type 0} (change : ℕ → T → T) (value : T) where
  pub record IsSerial (m : Mutex T) (order : List ℕ) : Type 0 where
    pub held : total inside m.cores ≡ (if m.flag then 1 else 0)
    pub result : m.data_cell ≡ serial change order value
    pub current : (core : ℕ) (t : T) → get_elem? m.cores core ≡ some (read t) → t ≡ m.data_cell
    pub each_once : (core : ℕ) → count core order ≡ wrote_at (get_elem? m.cores core)

  module _ (core : ℕ) (m : Mutex T) (order : List ℕ) (valid : IsSerial m order) where
    -- A core moves on, and the others stay where they are.
    other_place :
        (p q : Place T) (c : ℕ)
        → get_elem? m.cores core ≡ some p
        → ((c ≡ core) × (get_elem? (set m.cores core q) c ≡ some q))
          ⊎ ((c ≢ core) × (get_elem? (set m.cores core q) c ≡ get_elem? m.cores c))
    other_place p q c e = elim (Bool-cases (c == core)) [
      | inl same ↦ inl (
        ==→≡ c core same,
        rw (==→≡ c core same) (get_elem?-set_self m.cores core q (get_elem?-lt m.cores core e)),
      )
      | inr other ↦
          let apart : core ≢ c = ground (arith, other) in
          inr (λ e. apart (sym e), get_elem?-set_ne m.cores q apart)
    ]

    each_once-set :
        (p q : Place T)
        → get_elem? m.cores core ≡ some p
        → wrote q ≡ wrote p
        → (c : ℕ) → count c order ≡ wrote_at (get_elem? (set m.cores core q) c)
    each_once-set p q e same c = elim (other_place p q c e) [
      | inl (here, moved) ↦
          valid.each_once c
          ∙ ap wrote_at (ap (get_elem? m.cores) here ∙ e)
          ∙ sym same
          ∙ ap wrote_at (sym moved)
      | inr (_, stays) ↦ valid.each_once c ∙ ap wrote_at (sym stays)
    ]

    -- Neither does a core that is not the one inside have a value that it read.
    current-set :
        (p q : Place T)
        → get_elem? m.cores core ≡ some p
        → ((t : T) → q ≡ read t → t ≡ m.data_cell)
        → (c : ℕ) (t : T) → get_elem? (set m.cores core q) c ≡ some (read t)
        → t ≡ m.data_cell
    current-set p q e mine c t f = elim (other_place p q c e) [
      | inl (here, moved) ↦ mine t (cc (moved, f))
      | inr (_, stays) ↦ valid.current c t (sym stays ∙ f)
    ]

    locked-IsSerial :
        get_elem? m.cores core ≡ some spinning
        → (flag : Bool) → m.flag ≡ flag
        → IsSerial (try_lock change core m flag) order
    locked-IsSerial e true taken = valid
    locked-IsSerial e false free = record {
      held = ground (arith, valid.held, free, total-set inside m.cores core spinning guarded e);
      result = valid.result;
      current = current-set spinning guarded e (λ t bad. absurd (cc bad));
      each_once = each_once-set spinning guarded e refl;
    }

    -- The one core inside writes: no other has read.
    written-IsSerial :
        (t : T)
        → get_elem? m.cores core ≡ some (read t)
        → IsSerial (step_at change core (read t) m) (order ++ core ∷ [])
    written-IsSerial t e = record {
      held = ground (arith, valid.held, total-set inside m.cores core (read t) written e);
      result =
          ap (change core) (valid.current core t e ∙ valid.result)
          ∙ sym (serial-push change order core value);
      current = λ c t' f. elim (other_place (read t) written c e) [
        | inl (here, moved) ↦ absurd (cc (moved, f))
        | inr (apart, stays) ↦ absurd (
            ground (
              arith,
              valid.held,
              total-two inside m.cores c core (read t') (read t) (sym stays ∙ f) e apart,
            ))
      ];
      each_once = λ c. count-push c core order ∙ once c;
    }
      where
        once :
            (c : ℕ)
            → count c order + (if core == c then 1 else 0)
              ≡ wrote_at (get_elem? (set m.cores core written) c)
        once c = elim (other_place (read t) written c e) [
          | inl (here, moved) ↦
              let before : count c order ≡ 0 =
                valid.each_once c ∙ ap wrote_at (ap (get_elem? m.cores) here ∙ e) in
              rw moved (ground (arith, here, before))
          | inr (apart, stays) ↦ rw stays (ground (arith, valid.each_once c, apart))
        ]

    step_at-IsSerial :
        (p : Place T)
        → get_elem? m.cores core ≡ some p
        → (order' : List ℕ) × IsSerial (step_at change core p m) order'
    step_at-IsSerial outside e = (
      order,
      record {
        held = ground (arith, valid.held, total-set inside m.cores core outside spinning e);
        result = valid.result;
        current = current-set outside spinning e (λ t bad. absurd (cc bad));
        each_once = each_once-set outside spinning e refl;
      },
    )
    step_at-IsSerial spinning e = (order, locked-IsSerial e m.flag refl)
    step_at-IsSerial guarded e = (
      order,
      record {
        held =
            ground (arith, valid.held, total-set inside m.cores core guarded (read m.data_cell) e);
        result = valid.result;
        current = current-set guarded (read m.data_cell) e (λ t same. cc same);
        each_once = each_once-set guarded (read m.data_cell) e refl;
      },
    )
    step_at-IsSerial (read t) e = (order ++ core ∷ [], written-IsSerial t e)
    step_at-IsSerial written e = (
      order,
      record {
        held = ground (
          arith,
          valid.held,
          total-set inside m.cores core written released e,
          total-some inside m.cores core written e,
        );
        result = valid.result;
        current = current-set written released e (λ t bad. absurd (cc bad));
        each_once = each_once-set written released e refl;
      },
    )
    step_at-IsSerial released e = (order, valid)

    step-IsSerial : (order' : List ℕ) × IsSerial (step change core m) order'
    unfolding step
    step-IsSerial = elim (Option-cases (get_elem? m.cores core)) [
      | inl nobody ↦ rw (nobody, step) (order, valid)
      | inr (p, e) ↦ rw (e, step) (step_at-IsSerial p e)
    ]

  steps-IsSerial :
      (turns : List ℕ) (m : Mutex T) (order : List ℕ)
      → IsSerial m order
      → (order' : List ℕ) × IsSerial (steps change turns m) order'
  unfolding steps
  steps-IsSerial [] m order valid = (order, valid)
  steps-IsSerial (core ∷ turns) m order valid =
      let (order', next) = step-IsSerial core m order valid in
      steps-IsSerial turns (step change core m) order' next

  new-IsSerial : (n : ℕ) → IsSerial (new n value) []
  unfolding new
  new-IsSerial n = record {
    held = total-replicate inside n outside refl;
    result = refl;
    current = λ core t e. elim (at_start {T = T} n core) [
      | inl nobody ↦ absurd (cc (nobody, e))
      | inr first ↦ absurd (cc (first, e))
    ];
    each_once = λ core. elim (at_start {T = T} n core) [
      | inl nobody ↦ rw nobody refl
      | inr first ↦ rw first refl
    ];
  }

  -- Whatever turns the cores take, at most one has the guard, and the data of the mutex is what the
  -- changes of the cores that have written make of the first value, one after the other in some
  -- order in which each of those cores comes once and no other core: no change is lost.
  pub mutex_lem :
      (n : ℕ) (turns : List ℕ)
      → (total inside (steps change turns (new n value)).cores ≤ 1)
        × ((order : List ℕ) × ((steps change turns (new n value)).data_cell
              ≡ serial change order value)
            × ((core : ℕ)
                → count core order
                  ≡ wrote_at (get_elem? (steps change turns (new n value)).cores core)))
  mutex_lem n turns =
      let (order, valid) = steps-IsSerial turns (new n value) [] (new-IsSerial n) in
      (ground (arith, valid.held), (order, valid.result, valid.each_once))
