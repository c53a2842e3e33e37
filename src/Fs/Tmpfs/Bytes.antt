-- ===== src/Fs/Tmpfs/Bytes.antt =====
-- The bytes of a file behind a write.
use Prim.Native.Nat.{max}
use pimento.Base.{
  ℕ, ◌+◌, ◌-◌, ◌≤◌, ◌≡◌, inl, inr, arith, Option, none, some, List, ◌++◌, ok, length, get_elem?,
  take, drop, replicate, ltb, if◌then◌else◌, length-append, length-take, length-drop,
  length-replicate, get_elem?-none, Bool-cases, not_ltb,
}
use pimento.Fs.Tmpfs.{grow, overwrite}
use pimento.Fs.Tmpfs.Slices.{
  get_elem?-take, get_elem?-drop, get_elem?-append_if, get_elem?-replicate,
}

grow-byte :
    (end : ℕ) (v : List ℕ) (i : ℕ)
    → get_elem? (grow end v) i
      ≡ (if ltb i (length v) then get_elem? v i else if ltb i end then some 0 else none)
unfolding grow
grow-byte end v i = elim (Bool-cases (ltb (length v) end)) [
  | inl shorter ↦
      rw
        (
          shorter,
          get_elem?-append_if v (replicate (end - length v) 0) i,
          get_elem?-replicate {A = ℕ} (end - length v) 0 (i - length v),
        )
        (ground arith)
  | inr fits ↦ rw fits (ground (arith, get_elem?-none v i))
]

pub length-grow : (end : ℕ) (v : List ℕ) → length (grow end v) ≡ max (length v) end
unfolding grow
length-grow end v = ground (
  arith,
  length-append v (replicate (end - length v) 0),
  length-replicate {A = ℕ} (end - length v) 0,
)

-- The file after a write.
abbrev pub stored : ℕ → List ℕ → List ℕ → List ℕ
stored position buf v =
    let grown = grow (position + length buf) v in
    take position grown ++ (buf ++ drop (position + length buf) grown)

pub overwrite-stored :
    (position : ℕ) (buf v : List ℕ)
    → overwrite position (position + length buf) buf (grow (position + length buf) v)
      ≡ ok (stored position buf v)
unfolding overwrite
overwrite-stored position buf v = ground (arith, length-grow (position + length buf) v)

pub length-stored :
    (position : ℕ) (buf v : List ℕ)
    → length (stored position buf v) ≡ max (length v) (position + length buf)
length-stored position buf v =
    let grown = grow (position + length buf) v in
    omega (
      arith,
      length-append (take position grown) (buf ++ drop (position + length buf) grown),
      length-append buf (drop (position + length buf) grown),
      length-take position grown,
      length-drop (position + length buf) grown,
      length-grow (position + length buf) v,
    )

-- Byte `i` after a write of `buf` at `position`: the buffer's there, the old one elsewhere, and
-- zero between the old end and a position beyond it.
abbrev pub written : ℕ → List ℕ → List ℕ → ℕ → Option ℕ
written position buf v i =
    if ltb i position
    then (if ltb i (length v) then get_elem? v i else some 0)
    else if ltb i (position + length buf)
    then get_elem? buf (i - position)
    else get_elem? v i

pub stored-byte :
    (position : ℕ) (buf v : List ℕ) (i : ℕ)
    → get_elem? (stored position buf v) i ≡ written position buf v i
stored-byte position buf v i =
    rw (get_elem?-append_if (take position grown) (buf ++ drop end grown) i, front)
      (elim (Bool-cases (ltb i position)) [
        | inl before ↦
            rw before
              (rw (get_elem?-take position grown i, before, grow-byte end v i) (ground arith))
        | inr from ↦ rw from (
            rw (get_elem?-append_if buf (drop end grown) (i - position))
              (elim (Bool-cases (ltb i end)) [
                | inl inside ↦ ground arith
                | inr behind ↦
                    rw
                      (
                        behind,
                        get_elem?-drop end grown (i - position - length buf),
                        back (not_ltb _ _ behind),
                      )
                      (ground (arith, grow-byte end v i, get_elem?-none v i))
              ]))
      ])
  where
    end : ℕ
    end = position + length buf

    grown : List ℕ
    grown = grow end v

    front : length (take position grown) ≡ position
    front = omega (arith, length-take position grown, length-grow end v)

    back : end ≤ i → end + (i - position - length buf) ≡ i
    back h = omega arith
