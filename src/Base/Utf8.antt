-- ===== src/Base/Utf8.antt =====
-- `String::from_utf8_lossy`: what is not UTF-8 is replaced by U+FFFD, once for each longest
-- beginning of a character.
use pimento.Base.{
  ℕ, zero, suc, ◌≡◌, ◌<◌, refl, Bool, List, [], ◌∷◌, ◌++◌, ltb, leb, ◌==◌, ◌&&◌, if◌then◌else◌, ap,
  lt→ltb,
}

abbrev pub replacement : List ℕ
replacement = 0xEF ∷ 0xBF ∷ 0xBD ∷ []

-- Within a character: the bytes so far, how many follow the next one, and the bounds of that one.
pub record Partial : Type 0 where
  pub seen : List ℕ
  pub more : ℕ
  pub low : ℕ
  pub high : ℕ

pub data Decoding : Type 0 where
  between : Decoding
  within : Partial → Decoding

abbrev pub between_bytes : ℕ → ℕ → ℕ → Bool
between_bytes low high byte = leb low byte && leb byte high

abbrev pub begin : ℕ → ℕ → ℕ → ℕ → Decoding
begin byte more low high = within (record { seen = byte ∷ []; more = more; low = low; high = high })

-- What a first byte prints at once, and what it begins.
unfoldable pub first_byte : ℕ → List ℕ × Decoding
first_byte byte =
    if ltb byte 0x80
    then (byte ∷ [], between)
    else if between_bytes 0xC2 0xDF byte
    then ([], begin byte 0 0x80 0xBF)
    else if byte == 0xE0
    then ([], begin byte 1 0xA0 0xBF)
    else if byte == 0xED
    then ([], begin byte 1 0x80 0x9F)
    else if between_bytes 0xE1 0xEF byte
    then ([], begin byte 1 0x80 0xBF)
    else if byte == 0xF0
    then ([], begin byte 2 0x90 0xBF)
    else if between_bytes 0xF1 0xF3 byte
    then ([], begin byte 2 0x80 0xBF)
    else if byte == 0xF4
    then ([], begin byte 2 0x80 0x8F)
    else (replacement, between)

abbrev continue : Partial → ℕ → List ℕ × Decoding
continue p byte = elim p.more [
  | zero ↦ (p.seen ++ byte ∷ [], between)
  | suc more ↦
      ([], within (record { seen = p.seen ++ byte ∷ []; more = more; low = 0x80; high = 0xBF }))
]

abbrev restart : ℕ → List ℕ × Decoding
restart byte = (replacement ++ (first_byte byte).0, (first_byte byte).1)

abbrev pub next_byte : Decoding → ℕ → List ℕ × Decoding
next_byte between byte = first_byte byte
next_byte (within p) byte =
    if between_bytes p.low p.high byte then continue p byte else restart byte

unfoldable pub decode : Decoding → List ℕ → List ℕ
decode between [] = []
decode (within p) [] = replacement
decode state (byte ∷ bytes) = (next_byte state byte).0 ++ decode (next_byte state byte).1 bytes

abbrev pub from_utf8_lossy : List ℕ → List ℕ
from_utf8_lossy bytes = decode between bytes

abbrev pub Ascii : List ℕ → Type 0
Ascii [] = Unit
Ascii (byte ∷ bytes) = (byte < 0x80) × Ascii bytes

-- ASCII stays as it is.
pub from_utf8_lossy-Ascii : (bytes : List ℕ) → Ascii bytes → from_utf8_lossy bytes ≡ bytes
unfolding decode first_byte
from_utf8_lossy-Ascii [] ascii = refl
from_utf8_lossy-Ascii (byte ∷ bytes) (small, ascii) =
    rw (lt→ltb byte 0x80 small)
      (ap (λ (rest : List ℕ). byte ∷ rest) (from_utf8_lossy-Ascii bytes ascii))

-- An accent, a lone byte, and a character that ends too soon.
runs :
    from_utf8_lossy (0xC3 ∷ 0xA9 ∷ 0x80 ∷ 0xE2 ∷ 0x82 ∷ 0x21 ∷ [])
    ≡ 0xC3 ∷ 0xA9 ∷ (replacement ++ replacement ++ 0x21 ∷ [])
unfolding decode first_byte
runs = refl
