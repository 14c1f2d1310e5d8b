-- ===== src/CodePoint/Utf8.antt =====
-- The bytes that `codePointToUtf8` of include/jsonifier-incl/utilities/string_utils.hpp stores.
use Prim.Native.Nat.{bit_and, bit_or}
use native.Mathlib.Decide.{dec_lt}
use jsonifier.Prelude.{
  ℕ, ◌+◌, ◌-◌, ◌*◌, ◌/◌, ◌%◌, ◌^◌, ◌≤◌, ◌<◌, ◌≡◌, ◌∙◌, ap, Bool, ◌&&◌, [], ◌∷◌, ◌++◌, ◌⊎◌, ◌||◌,
  lt→ltb, le→ltb, ltb, leb, Option, none, some, if◌then◌else◌, Bytes, arith,
}
use jsonifier.Prelude.Bits.{bit_and_mask, bit_or_fields}
use jsonifier.CodePoint.{code_point_to_utf8}

-- The UTF-8 form of a code point, by arithmetic.
abbrev pub utf8 : ℕ → Bytes
utf8 cp =
    if ltb cp 0x80
    then cp ∷ []
    else if ltb cp 0x800
    then (192 + cp / 64) ∷ (128 + cp % 64) ∷ []
    else if ltb cp 0x10000
    then (224 + cp / 4096) ∷ (128 + cp / 64 % 64) ∷ (128 + cp % 64) ∷ []
    else (240 + cp / 262144) ∷ (128 + cp / 4096 % 64) ∷ (128 + cp / 64 % 64) ∷ (128 + cp % 64) ∷ []

cont : (x : ℕ) → bit_or 0x80 (bit_and x 0x3F) ≡ 128 + x % 64
cont x =
    omega (arith, ap (bit_or 0x80) (bit_and_mask 6 x), bit_or_fields 6 2 (x % 64) (omega arith))

lead_2 : (x : ℕ) → bit_or 0xC0 (bit_and x 0x1F) ≡ 192 + x % 32
lead_2 x =
    omega (arith, ap (bit_or 0xC0) (bit_and_mask 5 x), bit_or_fields 5 6 (x % 32) (omega arith))

lead_3 : (x : ℕ) → bit_or 0xE0 (bit_and x 0x0F) ≡ 224 + x % 16
lead_3 x =
    omega (arith, ap (bit_or 0xE0) (bit_and_mask 4 x), bit_or_fields 4 14 (x % 16) (omega arith))

lead_4 : (x : ℕ) → bit_or 0xF0 (bit_and x 0x07) ≡ 240 + x % 8
lead_4 x =
    omega (arith, ap (bit_or 0xF0) (bit_and_mask 3 x), bit_or_fields 3 30 (x % 8) (omega arith))

-- `codePointToUtf8` stores the UTF-8 form of every code point, and nothing beyond U+10FFFF.
pub code_point_to_utf8_lem :
    (cp : ℕ) → code_point_to_utf8 cp ≡ (if leb cp 0x10FFFF then utf8 cp else [])
unfolding code_point_to_utf8
code_point_to_utf8_lem cp =
    rw
      (
        lead_2 (cp / 2 ^ 6),
        lead_3 (cp / 2 ^ 12),
        lead_4 (cp / 2 ^ 18),
        cont cp,
        cont (cp / 2 ^ 6),
        cont (cp / 2 ^ 12),
      )
      (ground arith)

abbrev is_cont : ℕ → Bool
is_cont c = leb 128 c && ltb c 192

-- A code point that is no surrogate.
abbrev pub IsScalar : ℕ → Type 0
IsScalar cp = (cp ≤ 0x10FFFF) × ((cp < 0xD800) ⊎ (0xDFFF < cp))

-- The strict decoder of RFC 3629: it takes neither a surrogate nor a form that is too long.
abbrev accept : ℕ → ℕ → Bytes → Option (ℕ × Bytes)
accept least cp rest =
    if leb least cp && leb cp 0x10FFFF && (ltb cp 0xD800 || ltb 0xDFFF cp)
    then some (cp, rest)
    else none

abbrev decode_2 : ℕ → Bytes → Option (ℕ × Bytes)
decode_2 a (b ∷ rest) = if is_cont b then accept 0x80 ((a - 192) * 64 + (b - 128)) rest else none
decode_2 a _ = none

abbrev decode_3 : ℕ → Bytes → Option (ℕ × Bytes)
decode_3 a (b ∷ c ∷ rest) =
    if is_cont b && is_cont c
    then accept 0x800 ((a - 224) * 4096 + (b - 128) * 64 + (c - 128)) rest
    else none
decode_3 a _ = none

abbrev decode_4 : ℕ → Bytes → Option (ℕ × Bytes)
decode_4 a (b ∷ c ∷ d ∷ rest) =
    if is_cont b && is_cont c && is_cont d
    then accept 0x10000 ((a - 240) * 262144 + (b - 128) * 4096 + (c - 128) * 64 + (d - 128)) rest
    else none
decode_4 a _ = none

unfoldable pub utf8_decode : Bytes → Option (ℕ × Bytes)
utf8_decode [] = none
utf8_decode (a ∷ rest) =
    if ltb a 128
    then some (a, rest)
    else if leb 192 a && ltb a 224
    then decode_2 a rest
    else if leb 224 a && ltb a 240
    then decode_3 a rest
    else if leb 240 a && ltb a 248
    then decode_4 a rest
    else none

utf8_decode-utf8 :
    (cp : ℕ) (rest : Bytes) → IsScalar cp → utf8_decode (utf8 cp ++ rest) ≡ some (cp, rest)
utf8_decode-utf8 cp rest h = elim (dec_lt cp 0x80) [
  | yes a ↦ rw (lt→ltb cp 0x80 a) (unfold utf8_decode in ground arith)
  | no a ↦ rw (le→ltb cp 0x80 (omega arith)) (elim (dec_lt cp 0x800) [
    | yes b ↦ rw (lt→ltb cp 0x800 b) (unfold utf8_decode in ground arith)
    | no b ↦ rw (le→ltb cp 0x800 (omega arith)) (elim (dec_lt cp 0x10000) [
      | yes c ↦ rw (lt→ltb cp 0x10000 c) (unfold utf8_decode in ground arith)
      | no c ↦ rw (le→ltb cp 0x10000 (omega arith)) (unfold utf8_decode in ground arith)
    ])
  ])
]

-- A strict decoder reads every scalar value back from the bytes that `codePointToUtf8` stores.
pub utf8_decode-code_point_to_utf8 :
    (cp : ℕ) (rest : Bytes)
    → IsScalar cp
    → utf8_decode (code_point_to_utf8 cp ++ rest) ≡ some (cp, rest)
utf8_decode-code_point_to_utf8 cp rest h =
    ap (λ t. utf8_decode (t ++ rest)) (code_point_to_utf8_lem cp ∙ ground arith)
    ∙ utf8_decode-utf8 cp rest h
