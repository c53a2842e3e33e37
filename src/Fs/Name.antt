-- ===== src/Fs/Name.antt =====
-- The names of links as lists of code points, and the two names that every directory holds.
use pimento.Base.{ℕ, ◌≡◌, ◌↔◌, refl, arith, Bool, true, false, ◌&&◌, List, [], ◌∷◌, ◌==◌}

abbrev pub Name : Type 0
Name = List ℕ

unfoldable pub name_eq : Name → Name → Bool
name_eq [] [] = true
name_eq (x ∷ xs) (y ∷ ys) = (x == y) && name_eq xs ys
name_eq _ _ = false

pub name_eq_iff : (a b : Name) → (name_eq a b ≡ true) ↔ (a ≡ b)
unfolding name_eq
name_eq_iff [] [] = (λ _. refl, λ _. refl)
name_eq_iff [] (y ∷ ys) = (λ h. cc, λ h. cc)
name_eq_iff (x ∷ xs) [] = (λ h. cc, λ h. cc)
name_eq_iff (x ∷ xs) (y ∷ ys) =
    (λ h. ground (arith, name_eq_iff xs ys), λ h. ground (arith, name_eq_iff xs ys))

-- `CURRENT` and `PARENT` of kernel/src/fs/file_system.rs.
abbrev pub current : Name
current = b'.' ∷ []

abbrev pub parent : Name
parent = b'.' ∷ b'.' ∷ []
