-- ===== src/CodePoint/Hex.antt =====
-- `hexToU32NoCheck` of include/jsonifier-incl/utilities/string_utils.hpp on four hexadecimal digits,
-- and on four ASCII bytes of which one is no such digit.
use Prim.Native.Nat.{bit_or}
use jsonifier.Prelude.{
  refl, ◌⊎◌, inl, inr, ltb, if_both, ◌-◌, ℕ, ◌+◌, ◌*◌, ◌^◌, ◌≤◌, ◌<◌, ◌≡◌, ◌∙◌, ap, ◌∷◌, some, none,
  Option, Bytes, arith,
}
use native.Mathlib.Nat.{mul-le-mul_right}
use jsonifier.Prelude.Bits.{bit_or_fields, bit_or_bounds}
use jsonifier.CodePoint.{
  hex_value, scaled_digit, digit_to_val32, table_index, or_entries, hex_to_u32,
}

pub hex_value_bounds : (c : ℕ) {v : ℕ} → hex_value c ≡ some v → (48 ≤ c) × (c ≤ 102) × (v < 16)
unfolding hex_value
hex_value_bounds c h = ground arith

module _ (c : ℕ) {v : ℕ} (h : hex_value c ≡ some v) where
  at_630 : digit_to_val32 (table_index 630 c) ≡ some (v * 4096)
  unfolding digit_to_val32
  at_630 = ground (arith, hex_value_bounds c h)

  at_420 : digit_to_val32 (table_index 420 c) ≡ some (v * 256)
  unfolding digit_to_val32
  at_420 = ground (arith, hex_value_bounds c h)

  at_210 : digit_to_val32 (table_index 210 c) ≡ some (v * 16)
  unfolding digit_to_val32
  at_210 = ground (arith, hex_value_bounds c h)

  at_zero : digit_to_val32 (table_index 0 c) ≡ some v
  unfolding digit_to_val32
  at_zero = ground (arith, hex_value_bounds c h)

joined :
    (a b c d : ℕ)
    → a < 16
    → b < 16
    → c < 16
    → d < 16
    → bit_or (bit_or (bit_or (a * 4096) (b * 256)) (c * 16)) d ≡ a * 4096 + b * 256 + c * 16 + d
joined a b c d ha hb hc hd =
    ap (λ t. bit_or (bit_or t (c * 16)) d) (bit_or_fields 12 a (b * 256) (omega arith) ∙ (first))
    ∙ ap (λ t. bit_or t d) (bit_or_fields 8 (a * 16 + b) (c * 16) (omega arith) ∙ second)
    ∙ bit_or_fields 4 (a * 256 + b * 16 + c) d hd
    ∙ omega arith
  where
    first : a * 2 ^ 12 + b * 256 ≡ (a * 16 + b) * 2 ^ 8
    first = omega arith

    second : (a * 16 + b) * 2 ^ 8 + c * 16 ≡ (a * 256 + b * 16 + c) * 2 ^ 4
    second = omega arith

-- Four hexadecimal digits give their number.
pub hex_to_u32_lem :
    (a b c d : ℕ) {va vb vc vd : ℕ} (rest : Bytes)
    → hex_value a ≡ some va
    → hex_value b ≡ some vb
    → hex_value c ≡ some vc
    → hex_value d ≡ some vd
    → hex_to_u32 (a ∷ b ∷ c ∷ d ∷ rest) ≡ some (va * 4096 + vb * 256 + vc * 16 + vd)
unfolding hex_to_u32
hex_to_u32_lem a b c d {va} {vb} {vc} {vd} rest ha hb hc hd =
    rw (at_630 a ha, hex_to_u32, at_420 b hb, at_210 c hc, at_zero d hd)
      (ap some (
        joined va vb vc vd (hex_value_bounds a ha).2 (hex_value_bounds b hb).2
          (hex_value_bounds c hc).2 (hex_value_bounds d hd).2))

-- The entry of a byte that is no digit.
abbrev pub no_digit : ℕ
no_digit = 0xFFFFFFFF

module _ (c : ℕ) (l : c < 128) (h : hex_value c ≡ none) where
  none_at_630 : digit_to_val32 (table_index 630 c) ≡ some no_digit
  unfolding digit_to_val32
  none_at_630 = ground arith

  none_at_420 : digit_to_val32 (table_index 420 c) ≡ some no_digit
  unfolding digit_to_val32
  none_at_420 = ground arith

  none_at_210 : digit_to_val32 (table_index 210 c) ≡ some no_digit
  unfolding digit_to_val32
  none_at_210 = ground arith

  none_at_zero : digit_to_val32 (table_index 0 c) ≡ some no_digit
  unfolding digit_to_val32
  none_at_zero = ground arith

le_fifteen : (v : ℕ) → v < 16 → v ≤ 15
le_fifteen v h = omega arith

scaled_digit-lt : (c s : ℕ) → s ≤ 4096 → scaled_digit c s < 2 ^ 32
scaled_digit-lt c s h = go (hex_value c) refl
  where
    go : (x : Option ℕ) → hex_value c ≡ x → (elim x [ none ↦ no_digit | some v ↦ v * s ]) < 2 ^ 32
    go none e = omega arith
    go (some v) e = omega (arith, mul-le-mul_right s (le_fifteen v (hex_value_bounds c e).2))

-- An entry of the table has 32 bits.
abbrev IsEntry : Option ℕ → Type 0
IsEntry none = Unit
IsEntry (some v) = v < 2 ^ 32

digit_to_val32-IsEntry : (i : ℕ) → IsEntry (digit_to_val32 i)
unfolding digit_to_val32
digit_to_val32-IsEntry i = if_both IsEntry (ltb i 210) (scaled_digit-lt i 1 (omega arith)) (
    if_both IsEntry (ltb i 420) (scaled_digit-lt (i - 210) 16 (omega arith)) (
      if_both IsEntry (ltb i 630) (scaled_digit-lt (i - 420) 256 (omega arith))
        (if_both IsEntry (ltb i 886) (scaled_digit-lt (i - 630) 4096 (omega arith)) tt)))

or_entries-none :
    (x y z w : Option ℕ) (v : ℕ)
    → IsEntry x
    → IsEntry y
    → IsEntry z
    → IsEntry w
    → (x ≡ some no_digit) ⊎ (y ≡ some no_digit) ⊎ (z ≡ some no_digit) ⊎ (w ≡ some no_digit)
    → or_entries x y z w ≡ some v
    → v ≡ no_digit
or_entries-none (some a) (some b) (some c) (some d) v ha hb hc hd h e =
    let p = bit_or_bounds 32 a b ha hb in
    let q = bit_or_bounds 32 (bit_or a b) c p.2 hc in
    let r = bit_or_bounds 32 (bit_or (bit_or a b) c) d q.2 hd in ground (arith, p, q, r)
or_entries-none none y z w v ha hb hc hd h e = absurd (ground arith)
or_entries-none (some a) none z w v ha hb hc hd h e = absurd (ground arith)
or_entries-none (some a) (some b) none w v ha hb hc hd h e = absurd (ground arith)
or_entries-none (some a) (some b) (some c) none v ha hb hc hd h e = absurd (ground arith)

-- A byte of ASCII that is no hexadecimal digit.
abbrev pub IsHexless : ℕ → Type 0
IsHexless c = (c < 128) × (hex_value c ≡ none)

-- Four bytes with one of them that is no digit give the entry of such a byte, if they give a number: the
-- other three may be digits, or read other parts of the table.
pub hex_to_u32_none :
    (a b c d v : ℕ) (rest : Bytes)
    → IsHexless a ⊎ IsHexless b ⊎ IsHexless c ⊎ IsHexless d
    → hex_to_u32 (a ∷ b ∷ c ∷ d ∷ rest) ≡ some v
    → v ≡ no_digit
unfolding hex_to_u32
hex_to_u32_none a b c d v rest h e =
    or_entries-none _ _ _ _ v (digit_to_val32-IsEntry (table_index 630 a))
      (digit_to_val32-IsEntry (table_index 420 b)) (digit_to_val32-IsEntry (table_index 210 c))
      (digit_to_val32-IsEntry (table_index 0 d)) (entry h) e
  where
    entry :
        IsHexless a ⊎ IsHexless b ⊎ IsHexless c ⊎ IsHexless d
        → (digit_to_val32 (table_index 630 a) ≡ some no_digit)
          ⊎ (digit_to_val32 (table_index 420 b) ≡ some no_digit)
          ⊎ (digit_to_val32 (table_index 210 c) ≡ some no_digit)
          ⊎ (digit_to_val32 (table_index 0 d) ≡ some no_digit)
    entry (inl (l, k)) = inl (none_at_630 a l k)
    entry (inr (inl (l, k))) = inr (inl (none_at_420 b l k))
    entry (inr (inr (inl (l, k)))) = inr (inr (inl (none_at_210 c l k)))
    entry (inr (inr (inr (l, k)))) = inr (inr (inr (none_at_zero d l k)))
