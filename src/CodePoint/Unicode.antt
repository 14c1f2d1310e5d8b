-- ===== src/CodePoint/Unicode.antt =====
-- `handleUnicodeCodePoint` of include/jsonifier-incl/utilities/string_utils.hpp on the escapes of
-- RFC 8259, single and paired.
use jsonifier.Prelude.{
  ℕ, ◌+◌, ◌-◌, ◌*◌, ◌/◌, ◌%◌, ◌≤◌, ◌<◌, ◌≡◌, ◌≢◌, ◌∙◌, ap, [], ◌∷◌, ◌++◌, some, Bytes, arith, peek,
  append_assoc,
}
use jsonifier.Prelude.Bits.{bit_or_fields}
use jsonifier.CodePoint.{
  hex_value, hex_to_u32, wrote, refused, store_code_point, low_surrogate, handle_unicode_code_point,
}
use jsonifier.CodePoint.Hex.{hex_to_u32_lem}
use jsonifier.CodePoint.Utf8.{utf8, IsScalar, code_point_to_utf8_lem}

-- Four hexadecimal digits of `n`, in upper or lower case.
pub data Spells : ℕ → Bytes → Type 0 where
  spells :
      (a b c d : ℕ) {va vb vc vd n : ℕ}
      → hex_value a ≡ some va
      → hex_value b ≡ some vb
      → hex_value c ≡ some vc
      → hex_value d ≡ some vd
      → n ≡ va * 4096 + vb * 256 + vc * 16 + vd
      → Spells n (a ∷ b ∷ c ∷ d ∷ [])

-- The escape of a code point: `\uXXXX`, or two of them beyond U+FFFF.
pub data Escapes (cp : ℕ) : Bytes → Type 0 where
  single : {t : Bytes} → cp < 0x10000 → Spells cp t → Escapes cp (b'\\' ∷ b'u' ∷ t)
  paired :
      {s t : Bytes}
      → 0x10000 ≤ cp
      → Spells (0xD800 + (cp - 0x10000) / 0x400) s
      → Spells (0xDC00 + cp % 0x400) t
      → Escapes cp (b'\\' ∷ b'u' ∷ (s ++ b'\\' ∷ b'u' ∷ t))

store_code_point_lem :
    (cp : ℕ) (rest : Bytes) → cp ≤ 0x10FFFF → store_code_point cp rest ≡ wrote (utf8 cp) rest
unfolding store_code_point
store_code_point_lem cp rest h = ground (arith, code_point_to_utf8_lem cp)

hex_to_u32-Spells :
    {n : ℕ} {t : Bytes} (rest : Bytes) → Spells n t → hex_to_u32 (t ++ rest) ≡ some n
hex_to_u32-Spells rest (spells a b c d ha hb hc hd e) = hex_to_u32_lem a b c d rest ha hb hc hd ∙ cc

handle_single :
    (cp : ℕ) (t rest : Bytes)
    → IsScalar cp
    → cp < 0x10000
    → Spells cp t
    → handle_unicode_code_point (b'\\' ∷ b'u' ∷ (t ++ rest)) ≡ wrote (utf8 cp) rest
unfolding handle_unicode_code_point
handle_single cp t rest s h (spells a b c d ha hb hc hd e) =
    ground (arith, hex_to_u32_lem a b c d rest ha hb hc hd, store_code_point_lem cp rest s.0)

low_surrogate_lem :
    (cp : ℕ) (t rest : Bytes)
    → 0x10000 ≤ cp
    → cp ≤ 0x10FFFF
    → Spells (0xDC00 + cp % 0x400) t
    → low_surrogate (0xD800 + (cp - 0x10000) / 0x400) (b'\\' ∷ b'u' ∷ (t ++ rest))
      ≡ wrote (utf8 cp) rest
unfolding low_surrogate
low_surrogate_lem cp t rest l h (spells a b c d ha hb hc hd e) = ground (
  arith,
  hex_to_u32_lem a b c d rest ha hb hc hd,
  store_code_point_lem cp rest h,
  bit_or_fields 10 ((cp - 0x10000) / 0x400) (cp % 0x400) (omega arith),
)

handle_paired :
    (cp : ℕ) (s t rest : Bytes)
    → 0x10000 ≤ cp
    → cp ≤ 0x10FFFF
    → Spells (0xD800 + (cp - 0x10000) / 0x400) s
    → Spells (0xDC00 + cp % 0x400) t
    → handle_unicode_code_point (b'\\' ∷ b'u' ∷ (s ++ (b'\\' ∷ b'u' ∷ (t ++ rest))))
      ≡ wrote (utf8 cp) rest
unfolding handle_unicode_code_point
handle_paired cp s t rest l h (spells a b c d ha hb hc hd e) low = ground (
  arith,
  hex_to_u32_lem a b c d (b'\\' ∷ b'u' ∷ (t ++ rest)) ha hb hc hd,
  low_surrogate_lem cp t rest l h low,
)

-- An escaped scalar value becomes its UTF-8 bytes, and the memory behind the escape is left.
pub handle_unicode_code_point-Escapes :
    (cp : ℕ) {t : Bytes} (rest : Bytes)
    → IsScalar cp
    → Escapes cp t
    → handle_unicode_code_point (t ++ rest) ≡ wrote (utf8 cp) rest
handle_unicode_code_point-Escapes cp rest s (single {t} h p) = handle_single cp t rest s h p
handle_unicode_code_point-Escapes cp rest s (paired {s = hi} {t = lo} l p q) =
    ap (λ x. handle_unicode_code_point (b'\\' ∷ b'u' ∷ x)) (append_assoc hi _ rest)
    ∙ handle_paired cp hi lo rest l s.0 p q

-- An escaped surrogate that no `\` follows is refused.
pub handle_unicode_code_point_lone :
    (n : ℕ) {t : Bytes} (rest : Bytes)
    → 0xD800 ≤ n
    → n ≤ 0xDFFF
    → Spells n t
    → peek rest ≢ b'\\'
    → handle_unicode_code_point (b'\\' ∷ b'u' ∷ (t ++ rest)) ≡ refused
unfolding handle_unicode_code_point low_surrogate
handle_unicode_code_point_lone n rest l h (spells a b c d ha hb hc hd e) ne =
    ground (arith, hex_to_u32_lem a b c d rest ha hb hc hd)
