-- ===== src/Memory/UserMemory/Bytes.antt =====
-- One byte of user memory is written.
use pimento.Base.{
  ℕ, ◌+◌, ◌*◌, ◌/◌, ◌%◌, ◌^◌, ◌≤◌, ◌<◌, ◌≡◌, ◌≢◌, refl, ap, ◌∙◌, ◌⊎◌, inl, inr, arith, Option-cases,
  none, some, ok, lt→ltb, Bool-cases, ==→≡, ◌==◌,
}
use pimento.Memory.Mapper.{virtual_address, va_start, virtual_address-add}
use pimento.Memory.Ram.{Ram, write}
use pimento.Memory.PageAllocator
use pimento.Memory.MemoryContext.Regions.{
  Owned, region, region-inj, Tree, Taken, translate, walk-Region,
}
use pimento.Memory.MemoryContext.SameRows.{SameRows, same-Tree, same-translate}
use pimento.Memory.UserMemory.{user_ptr, user_byte, put_byte}

pub user_ptr-mapped :
    (ram : Ram) (root a p : ℕ)
    → a < 2 ^ 48
    → translate ram root a ≡ some p
    → user_ptr ram root a ≡ some (virtual_address p + a % 4096)
user_ptr-mapped ram root a p low e = rw (user_ptr, lt→ltb a (2 ^ 48) low, e) refl

user_ptr-unmapped :
    (ram : Ram) (root a : ℕ) → a < 2 ^ 48 → translate ram root a ≡ none → user_ptr ram root a ≡ none
user_ptr-unmapped ram root a low e = rw (user_ptr, lt→ltb a (2 ^ 48) low, e) refl

module _ (root : ℕ) (owned : Owned) (pages : PageAllocator.State) (tree : Tree root owned pages)
    (a byte p : ℕ) (low : a < 2 ^ 48) (e : translate pages.ram root a ≡ some p) where
  abbrev pub put : PageAllocator.State
  put = record pages { ram = write (virtual_address p + a % 4096) byte pages.ram }

  mine : owned p ≡ region 4 (a / 4096)
  mine = walk-Region root owned pages tree a 4 p (omega arith) low e

  known : Taken pages p
  known = tree.taken p (λ e'. cc (e', mine))

  window : (x : ℕ) → x < 2 ^ 48 → virtual_address x ≡ va_start + x
  window x small = virtual_address-add x small

  other_pages : (x : ℕ) → x ≢ p → Taken pages x → (x + 4096 ≤ p) ⊎ (p + 4096 ≤ x)
  other_pages x other there = omega (arith, known, there, other)

  -- The byte lies in no table.
  put-SameRows : SameRows owned pages.ram put.ram
  put-SameRows x level number index own deep small =
      let other : x ≢ p = (λ same.
        let both : region level number ≡ region 4 (a / 4096) = cc (own, mine, same) in
        omega (arith, deep, (region-inj level number 4 (a / 4096) both).0)) in
      let there : Taken pages x = tree.taken x (λ e'. cc (e', own)) in
      let far : virtual_address p + a % 4096 ≢ virtual_address x + 8 * index = (λ same.
        omega
          (arith, same, other_pages x other there, small, window p known.2, window x there.2)) in
      ground (arith, far)

  pub put-Tree : Tree root owned put
  put-Tree = same-Tree root owned pages put tree put-SameRows (omega arith) tree.aligned

  pub put-translate : (b : ℕ) → b < 2 ^ 48 → translate put.ram root b ≡ translate pages.ram root b
  put-translate = same-translate root owned pages put tree put-SameRows

  pub put_byte-put : put_byte root a byte pages.ram ≡ ok put.ram
  put_byte-put = rw (put_byte, user_ptr-mapped pages.ram root a p low e) refl

  pub put-user_byte : user_byte put.ram root a ≡ some byte
  put-user_byte =
      rw (user_byte, user_ptr-mapped put.ram root a p low (put-translate a low ∙ e)) (ground arith)

  pub put-others :
      (b : ℕ) → b < 2 ^ 48 → b ≢ a → user_byte put.ram root b ≡ user_byte pages.ram root b
  put-others b small other = elim (Option-cases (translate pages.ram root b)) [
    | inl unmapped ↦
        rw
          (
            user_byte,
            user_ptr-unmapped put.ram root b small (put-translate b small ∙ unmapped),
            user_ptr-unmapped pages.ram root b small unmapped,
          )
          refl
    | inr (q, mapped) ↦
        rw
          (
            user_byte,
            user_ptr-mapped put.ram root b q small (put-translate b small ∙ mapped),
            user_ptr-mapped pages.ram root b q small mapped,
          )
          (ap some (ground (arith, apart q mapped)))
  ]
    where
      apart :
          (q : ℕ)
          → translate pages.ram root b ≡ some q
          → virtual_address p + a % 4096 ≢ virtual_address q + b % 4096
      apart q mapped same = elim (Bool-cases (q == p)) [
        | inl one ↦
            let here : q ≡ p = ==→≡ q p one in
            let both : region 4 (b / 4096) ≡ region 4 (a / 4096) = cc (theirs, mine, here) in
            other (
              omega (
                arith,
                same,
                ap virtual_address here,
                (region-inj 4 (b / 4096) 4 (a / 4096) both).1,
              ))
        | inr two ↦
            let distinct : q ≢ p = ground (arith, two) in
            omega (arith, same, other_pages q distinct there, window p known.2, window q there.2)
      ]
        where
          theirs : owned q ≡ region 4 (b / 4096)
          theirs = walk-Region root owned pages tree b 4 q (omega arith) small mapped

          there : Taken pages q
          there = tree.taken q (λ e'. cc (e', theirs))
