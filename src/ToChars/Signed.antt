-- ===== src/ToChars/Signed.antt =====
-- include/jsonifier-incl/utilities/i_to_str.hpp: `to_chars<int64_t>`.
use Prim.Native.Nat.{bit_xor}
use jsonifier.Prelude.{
  ℕ, suc, ◌-◌, ◌^◌, ◌<◌, ◌≡◌, ◌∙◌, ap, ◌∷◌, arith, Bytes, sub64, ℤ, pos, negsuc,
}
use jsonifier.Prelude.Bits.{bit_xor_ones, bit_xor-zero}
use jsonifier.ToChars.{to_chars}

-- `static_cast<uint64_t>(value)`
abbrev pub to_unsigned : ℤ → ℕ
to_unsigned (pos n) = n
to_unsigned (negsuc n) = 2 ^ 64 - 1 - n

-- `static_cast<uint64_t>(value >> 63)`, a shift that keeps the sign
abbrev pub sign_mask : ℤ → ℕ
sign_mask (pos n) = 0
sign_mask (negsuc n) = 2 ^ 64 - 1

-- the argument of `to_chars<uint64_t>`
unfoldable pub magnitude : ℤ → ℕ
magnitude z = sub64 (bit_xor (to_unsigned z) (sign_mask z)) (sign_mask z)

unfoldable pub to_chars_signed : ℤ → Bytes
to_chars_signed (pos n) = to_chars (magnitude (pos n))
to_chars_signed (negsuc n) = b'-' ∷ to_chars (magnitude (negsuc n))

-- The values of `int64_t`.
abbrev pub IsInt64 : ℤ → Type 0
IsInt64 (pos n) = n < 2 ^ 63
IsInt64 (negsuc n) = n < 2 ^ 63

magnitude_pos : (n : ℕ) → n < 2 ^ 63 → magnitude (pos n) ≡ n
unfolding magnitude
magnitude_pos n h = ap (λ t. sub64 t 0) (bit_xor-zero n) ∙ omega arith

magnitude_negsuc : (n : ℕ) → n < 2 ^ 63 → magnitude (negsuc n) ≡ suc n
unfolding magnitude
magnitude_negsuc n h =
    ap (λ t. sub64 t (2 ^ 64 - 1)) (bit_xor_ones 64 (2 ^ 64 - 1 - n) (omega arith)) ∙ omega arith

abbrev pub absolute : ℤ → ℕ
absolute (pos n) = n
absolute (negsuc n) = suc n

-- The branch-free negation gives the absolute value, that of the least number of the type too.
pub magnitude-absolute : (z : ℤ) → IsInt64 z → magnitude z ≡ absolute z
magnitude-absolute (pos n) h = magnitude_pos n h
magnitude-absolute (negsuc n) h = magnitude_negsuc n h
