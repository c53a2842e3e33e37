-- ===== src/Sync/Once/Exclusion.antt =====
-- One core at a time is behind the lock, and the routine is run once.
use pimento.Base.{
  ℕ, ◌+◌, ◌≤◌, ◌≡◌, refl, ◌⊎◌, inl, inr, arith, Bool, true, false, some, Option-cases, List, [],
  ◌∷◌, get_elem?, if◌then◌else◌,
}
use pimento.Sync.Once.{
  Once, Place, outside, spinning, locked, ran, marked, finished, new, step, steps, step_at, tried,
  checked, compare_exchange,
}
use pimento.Sync.Counting.{total, total-set, total-some, total-replicate}

-- How many cores are behind the lock, behind the routine, and behind `completed`.
abbrev pub inside : Place → ℕ
inside locked = 1
inside ran = 1
inside marked = 1
inside _ = 0

abbrev just_ran : Place → ℕ
just_ran ran = 1
just_ran _ = 0

abbrev pub done : Place → ℕ
done marked = 1
done finished = 1
done _ = 0

just_ran-le : (p : Place) → just_ran p ≤ inside p
just_ran-le outside = omega arith
just_ran-le spinning = omega arith
just_ran-le locked = omega arith
just_ran-le ran = omega arith
just_ran-le marked = omega arith
just_ran-le finished = omega arith

total-le : (ps : List Place) → total just_ran ps ≤ total inside ps
total-le [] = omega arith
total-le (p ∷ ps) = omega (arith, just_ran-le p, total-le ps)

record IsValid (o : Once) : Type 0 where
  held : total inside o.cores ≡ (if o.flag then 1 else 0)
  counted : o.runs ≡ (if o.completed then 1 else 0) + total just_ran o.cores
  once : (total just_ran o.cores ≡ 0) ⊎ (o.completed ≡ false)
  marked_after : (total done o.cores ≡ 0) ⊎ (o.completed ≡ true)

module _ (core : ℕ) (o : Once) (valid : IsValid o) where
  tried-IsValid :
      get_elem? o.cores core ≡ some spinning
      → (flag : Bool) → o.flag ≡ flag
      → IsValid (tried core o (compare_exchange flag))
  tried-IsValid e true taken = record {
    held = ground (arith, valid.held);
    counted = valid.counted;
    once = valid.once;
    marked_after = valid.marked_after;
  }
  tried-IsValid e false free =
      let i = total-set inside o.cores core spinning locked e in
      let r = total-set just_ran o.cores core spinning locked e in
      let d = total-set done o.cores core spinning locked e in
      record {
        held = ground (arith, valid.held);
        counted = ground (arith, valid.counted);
        once = ground (arith, valid.once);
        marked_after = ground (arith, valid.marked_after);
      }

  checked-IsValid :
      get_elem? o.cores core ≡ some locked
      → (completed : Bool) → o.completed ≡ completed
      → IsValid (checked core o completed)
  checked-IsValid e true before =
      let i = total-set inside o.cores core locked marked e in
      let r = total-set just_ran o.cores core locked marked e in
      let d = total-set done o.cores core locked marked e in
      record {
        held = ground (arith, valid.held);
        counted = ground (arith, valid.counted);
        once = ground (arith, valid.once);
        marked_after = inr before;
      }
  checked-IsValid e false first =
      let i = total-set inside o.cores core locked ran e in
      let r = total-set just_ran o.cores core locked ran e in
      let d = total-set done o.cores core locked ran e in
      record {
        held = ground (arith, valid.held);
        counted = ground (arith, valid.counted);
        once = inr first;
        marked_after = ground (arith, valid.marked_after);
      }

  step_at-IsValid : (p : Place) → get_elem? o.cores core ≡ some p → IsValid (step_at core p o)
  step_at-IsValid outside e =
      let i = total-set inside o.cores core outside spinning e in
      let r = total-set just_ran o.cores core outside spinning e in
      let d = total-set done o.cores core outside spinning e in
      record {
        held = ground (arith, valid.held);
        counted = ground (arith, valid.counted);
        once = ground (arith, valid.once);
        marked_after = ground (arith, valid.marked_after);
      }
  step_at-IsValid spinning e = tried-IsValid e o.flag refl
  step_at-IsValid locked e = checked-IsValid e o.completed refl
  step_at-IsValid ran e =
      let i = total-set inside o.cores core ran marked e in
      let r = total-set just_ran o.cores core ran marked e in
      let d = total-set done o.cores core ran marked e in
      record {
        held = ground (arith, valid.held);
        counted = ground (
          arith,
          valid.counted,
          valid.once,
          valid.held,
          total-le o.cores,
          total-some just_ran o.cores core ran e,
        );
        once =
            inl (
              ground (arith, valid.held, total-le o.cores, total-some just_ran o.cores core ran e));
        marked_after = inr refl;
      }
  step_at-IsValid marked e =
      let i = total-set inside o.cores core marked finished e in
      let r = total-set just_ran o.cores core marked finished e in
      let d = total-set done o.cores core marked finished e in
      record {
        held = ground (arith, valid.held, total-some inside o.cores core marked e);
        counted = ground (arith, valid.counted);
        once = ground (arith, valid.once);
        marked_after = ground (arith, valid.marked_after, total-some done o.cores core marked e);
      }
  step_at-IsValid finished e = valid

  step-IsValid : IsValid (step core o)
  unfolding step
  step-IsValid = elim (Option-cases (get_elem? o.cores core)) [
    | inl nobody ↦ rw (nobody, step) valid
    | inr (p, e) ↦ rw (e, step) (step_at-IsValid p e)
  ]

steps-IsValid : (turns : List ℕ) (o : Once) → IsValid o → IsValid (steps turns o)
unfolding steps
steps-IsValid [] o valid = valid
steps-IsValid (core ∷ turns) o valid = steps-IsValid turns (step core o) (step-IsValid core o valid)

new-IsValid : (n : ℕ) → IsValid (new n)
unfolding new
new-IsValid n = record {
  held = total-replicate inside n outside refl;
  counted = omega (arith, total-replicate just_ran n outside refl);
  once = inl (total-replicate just_ran n outside refl);
  marked_after = inl (total-replicate done n outside refl);
}

-- Whatever turns the callers of `call_once` take, at most one is behind the lock, the routine was
-- run at most once, and it was run, unless no caller has got behind it.
pub call_once_lem :
    (n : ℕ) (turns : List ℕ)
    → (total inside (steps turns (new n)).cores ≤ 1)
      × ((steps turns (new n)).runs ≤ 1)
      × ((total done (steps turns (new n)).cores ≡ 0) ⊎ ((steps turns (new n)).runs ≡ 1))
call_once_lem n turns =
    let o : Once = steps turns (new n) in
    let valid : IsValid o = steps-IsValid turns (new n) (new-IsValid n) in
    (
      ground (arith, valid.held),
      ground (arith, valid.counted, valid.once, valid.held, total-le o.cores),
      ground (arith, valid.counted, valid.once, valid.marked_after),
    )
