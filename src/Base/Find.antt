-- ===== src/Base/Find.antt =====
-- `iter().find(…)`, and predicates of all elements.
use mathlib.Core.Path.{◌≡◌, refl, ap, subst}
use mathlib.Core.Bool.{Bool, true, false}
use mathlib.Core.Option.{Option, none, some}
use mathlib.Core.List.{List, [], ◌∷◌, ◌++◌}
use mathlib.Core.Logic.{inl, inr}
use native.Mathlib.Omega.{arith}
use Prim.Native.Nat.{ℕ, zero, suc, ◌<◌}
use pimento.Base.Lists.{get_elem?, set, replicate, length}
use pimento.Base.Tests.{if◌then◌else◌, Bool-cases}

module _ {A : Type 0} where
  abbrev pub find : (A → Bool) → List A → Option A
  find p [] = none
  find p (x ∷ xs) = if p x then some x else find p xs

  abbrev pub All : (A → Type 0) → List A → Type 0
  All P [] = Unit
  All P (x ∷ xs) = P x × All P xs

  pub All-map : {P Q : A → Type 0} → ((x : A) → P x → Q x) → (xs : List A) → All P xs → All Q xs
  All-map f [] all = tt
  All-map f (x ∷ xs) (p, all) = (f x p, All-map f xs all)

  pub All-push : (P : A → Type 0) (xs : List A) (x : A) → All P xs → P x → All P (xs ++ (x ∷ []))
  All-push P [] x all p = (p, tt)
  All-push P (y ∷ xs) x (q, all) p = (q, All-push P xs x all p)

  module _ (p : A → Bool) where
    pub find-All :
        (P : A → Type 0) (xs : List A) (x : A) → find p xs ≡ some x → All P xs → P x × (p x ≡ true)
    find-All P [] x e all = cc
    find-All P (y ∷ xs) x e (q, all) = elim (Bool-cases (p y)) [
      | inl here ↦ subst (λ x. P x × (p x ≡ true)) (ground arith) (q, here)
      | inr there ↦ find-All P xs x (ground arith) all
    ]

    pub find-none : (xs : List A) → find p xs ≡ none → All (λ x. p x ≡ false) xs
    find-none [] e = tt
    find-none (y ∷ xs) e = elim (Bool-cases (p y)) [
      | inl here ↦ ground arith
      | inr there ↦ (there, find-none xs (ground arith))
    ]

    pub find-push_some :
        (xs : List A) (x y : A) → find p xs ≡ some y → find p (xs ++ (x ∷ [])) ≡ some y
    find-push_some [] x y e = cc
    find-push_some (z ∷ xs) x y e = elim (Bool-cases (p z)) [
      | inl here ↦ ground arith
      | inr there ↦ rw there (find-push_some xs x y (ground arith))
    ]

    pub find-push_none :
        (xs : List A) (x : A) → find p xs ≡ none → p x ≡ true → find p (xs ++ (x ∷ [])) ≡ some x
    find-push_none [] x e h = rw h
    find-push_none (z ∷ xs) x e h = elim (Bool-cases (p z)) [
      | inl here ↦ ground arith
      | inr there ↦ rw there (find-push_none xs x (ground arith) h)
    ]

    pub find-push_other : (xs : List A) (x : A) → p x ≡ false → find p (xs ++ (x ∷ [])) ≡ find p xs
    find-push_other [] x h = rw h
    find-push_other (z ∷ xs) x h = ap (λ o. if p z then some z else o) (find-push_other xs x h)

  pub All-get :
      (P : A → Type 0) (xs : List A) (i : ℕ) (x : A) → All P xs → get_elem? xs i ≡ some x → P x
  All-get P [] i x all e = cc
  All-get P (y ∷ xs) zero x (p, all) e = subst P (ground arith) p
  All-get P (y ∷ xs) (suc i) x (p, all) e = All-get P xs i x all e

  pub All-set : (P : A → Type 0) (xs : List A) (i : ℕ) (v : A) → All P xs → P v → All P (set xs i v)
  All-set P [] i v all p = tt
  All-set P (x ∷ xs) zero v (q, all) p = (p, all)
  All-set P (x ∷ xs) (suc i) v (q, all) p = (q, All-set P xs i v all p)

  pub get_elem?-set-some :
      (xs : List A) (i : ℕ) (v : A) {a : A}
      → get_elem? xs i ≡ some a
      → get_elem? (set xs i v) i ≡ some v
  get_elem?-set-some [] i v e = cc
  get_elem?-set-some (x ∷ xs) zero v e = refl
  get_elem?-set-some (x ∷ xs) (suc i) v e = get_elem?-set-some xs i v e

  pub get_elem?-lt : (xs : List A) (i : ℕ) {a : A} → get_elem? xs i ≡ some a → i < length xs
  get_elem?-lt [] i e = cc
  get_elem?-lt (x ∷ xs) zero e = omega arith
  get_elem?-lt (x ∷ xs) (suc i) e = omega (arith, get_elem?-lt xs i e)

  -- A list with an element behind it has a first one.
  pub push-cons : (xs : List A) (x : A) → (y : A) × (ys : List A) × (xs ++ (x ∷ []) ≡ y ∷ ys)
  push-cons [] x = (x, [], refl)
  push-cons (y ∷ xs) x = (y, xs ++ (x ∷ []), refl)

  pub All-replicate : (P : A → Type 0) (n : ℕ) (v : A) → P v → All P (replicate n v)
  All-replicate P zero v p = tt
  All-replicate P (suc n) v p = (p, All-replicate P n v p)
