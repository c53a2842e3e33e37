-- ===== src/Fs/FileManager/Paths.antt =====
-- Printing a path's tokens and reading them back.
use pimento.Base.{
  ℕ, ◌≡◌, ◌≢◌, refl, ap, ◌∙◌, inl, inr, arith, false, List, [], ◌∷◌, ◌++◌, ◌==◌, Bool-cases, map,
  All,
}
use pimento.Fs.Name.{Name, name_eq, name_eq_iff, current, parent}
use pimento.Fs.FileManager.{
  slash, PathToken, current_token, parent_token, literal, to_str, from_str, split, to_tokens,
  path_str_to_tokens,
}

-- A slash in front of every token.
abbrev pub print : List PathToken → Name
print [] = []
print (t ∷ ts) = slash ∷ (to_str t ++ print ts)

abbrev pub NoSlash : Name → Type 0
NoSlash [] = Unit
NoSlash (c ∷ s) = (c ≢ slash) × NoSlash s

-- A token that a path can hold: the name of a literal is not empty, has no slash, and is neither
-- `.` nor `..`.
abbrev pub Writable : PathToken → Type 0
Writable (literal s) = (s ≢ []) × NoSlash s × (s ≢ current) × (s ≢ parent)
Writable _ = Unit

split-piece :
    (s rest piece : Name) (pieces : List Name)
    → NoSlash s
    → split rest ≡ piece ∷ pieces
    → split (s ++ rest) ≡ (s ++ piece) ∷ pieces
unfolding split
split-piece [] rest piece pieces free e = e
split-piece (c ∷ s) rest piece pieces (h, free) e =
    rw (other, split-piece s rest piece pieces free e)
  where
    other : (c == slash) ≡ false
    other = ground arith

append_nil : (s : Name) → s ++ [] ≡ s
append_nil [] = refl
append_nil (c ∷ s) = ap (λ t. c ∷ t) (append_nil s)

to_str-NoSlash : (t : PathToken) → Writable t → NoSlash (to_str t)
unfolding to_str
to_str-NoSlash current_token w = (λ e. ground arith, tt)
to_str-NoSlash parent_token w = (λ e. ground arith, (λ e. ground arith, tt))
to_str-NoSlash (literal s) (full, free, no_dot, no_dots) = free

split-print : (ts : List PathToken) → All Writable ts → split (print ts) ≡ [] ∷ map to_str ts
unfolding split
split-print [] all = refl
split-print (t ∷ ts) (w, all) =
    ap (λ p. [] ∷ p)
      (split-piece (to_str t) (print ts) [] (map to_str ts) (to_str-NoSlash t w)
          (split-print ts all)
        ∙ ap (λ s. s ∷ map to_str ts) (append_nil (to_str t)))

from_str-to_str : (t : PathToken) → Writable t → from_str (to_str t) ≡ t
unfolding from_str to_str name_eq
from_str-to_str current_token w = refl
from_str-to_str parent_token w = refl
from_str-to_str (literal s) (full, free, no_dot, no_dots) =
    rw (from_str, other current no_dot, other parent no_dots) refl
  where
    other : (n : Name) → s ≢ n → name_eq s n ≡ false
    other n apart = elim (Bool-cases (name_eq s n)) [
      | inl same ↦ absurd (apart ((name_eq_iff s n).0 same))
      | inr no_match ↦ no_match
    ]

to_str-full : (t : PathToken) → Writable t → (c : ℕ) × (s : Name) × (to_str t ≡ c ∷ s)
unfolding to_str
to_str-full current_token w = (_, _, refl)
to_str-full parent_token w = (_, _, refl)
to_str-full (literal []) (full, free, no_dot, no_dots) = absurd (full refl)
to_str-full (literal (c ∷ s)) w = (c, s, refl)

to_tokens-piece :
    (s : Name) (pieces : List Name) {c : ℕ} {s' : Name}
    → s ≡ c ∷ s'
    → to_tokens (s ∷ pieces) ≡ from_str s ∷ to_tokens pieces
unfolding to_tokens
to_tokens-piece [] pieces e = cc
to_tokens-piece (c ∷ s) pieces e = refl

to_tokens-map : (ts : List PathToken) → All Writable ts → to_tokens (map to_str ts) ≡ ts
unfolding to_tokens
to_tokens-map [] all = refl
to_tokens-map (t ∷ ts) (w, all) =
    let (c, s, e) = to_str-full t w in
    to_tokens-piece (to_str t) (map to_str ts) e
    ∙ ap (λ u. u ∷ to_tokens (map to_str ts)) (from_str-to_str t w)
    ∙ ap (λ us. t ∷ us) (to_tokens-map ts all)

-- Tokens that a path can hold, printed with a slash in front of each, are read back as they were.
pub path_str_to_tokens-print :
    (ts : List PathToken) → All Writable ts → path_str_to_tokens (print ts) ≡ ts
unfolding path_str_to_tokens to_tokens
path_str_to_tokens-print ts all = ap to_tokens (split-print ts all) ∙ to_tokens-map ts all
