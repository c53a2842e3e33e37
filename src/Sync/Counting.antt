-- ===== src/Sync/Counting.antt =====
-- Sums over the places of all cores.
use pimento.Base.{
  ℕ, zero, suc, ◌+◌, ◌≤◌, ◌≡◌, ◌≢◌, refl, ap, arith, Option, some, List, [], ◌∷◌, get_elem?, set,
  replicate,
}

module _ {P : Type 0} where
  abbrev pub total : (P → ℕ) → List P → ℕ
  total w [] = 0
  total w (p ∷ ps) = w p + total w ps

  some_same : {x p : P} → Path (Option P) (some x) (some p) → x ≡ p
  some_same e = cc

  pub total-set :
      (w : P → ℕ) (ps : List P) (i : ℕ) (p q : P)
      → get_elem? ps i ≡ some p
      → total w (set ps i q) + w p ≡ total w ps + w q
  total-set w [] i p q e = cc
  total-set w (x ∷ ps) zero p q e = omega (arith, ap w (some_same e))
  total-set w (x ∷ ps) (suc i) p q e = omega (arith, total-set w ps i p q e)

  pub total-some :
      (w : P → ℕ) (ps : List P) (i : ℕ) (p : P) → get_elem? ps i ≡ some p → w p ≤ total w ps
  total-some w [] i p e = cc
  total-some w (x ∷ ps) zero p e = omega (arith, ap w (some_same e))
  total-some w (x ∷ ps) (suc i) p e = omega (arith, total-some w ps i p e)

  -- Two cores count twice.
  pub total-two :
      (w : P → ℕ) (ps : List P) (i j : ℕ) (p q : P)
      → get_elem? ps i ≡ some p
      → get_elem? ps j ≡ some q
      → i ≢ j
      → w p + w q ≤ total w ps
  total-two w [] i j p q e f other = cc
  total-two w (x ∷ ps) zero zero p q e f other = absurd (other refl)
  total-two w (x ∷ ps) zero (suc j) p q e f other =
      omega (arith, ap w (some_same e), total-some w ps j q f)
  total-two w (x ∷ ps) (suc i) zero p q e f other =
      omega (arith, ap w (some_same f), total-some w ps i p e)
  total-two w (x ∷ ps) (suc i) (suc j) p q e f other =
      omega (arith, total-two w ps i j p q e f (λ same. other (ap suc same)))

  pub total-replicate : (w : P → ℕ) (n : ℕ) (p : P) → w p ≡ 0 → total w (replicate n p) ≡ 0
  total-replicate w zero p e = refl
  total-replicate w (suc n) p e = omega (arith, total-replicate w n p e, e)
