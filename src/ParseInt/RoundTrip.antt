-- ===== src/ParseInt/RoundTrip.antt =====
-- `integer_parser<int64_t>` of include/jsonifier-incl/utilities/str_to_i.hpp on the text of
-- `to_chars<int64_t>` of include/jsonifier-incl/utilities/i_to_str.hpp.
use native.Mathlib.Nat.{pow-le-pow_right}
use native.Mathlib.Decide.{dec_lt}
use jsonifier.Prelude.{
  ℕ, suc, ◌^◌, ◌≤◌, ◌≡◌, ◌⊎◌, inl, inr, ◌∙◌, true, false, ◌++◌, arith, Bytes, length, ℤ, pos,
  negsuc,
}
use jsonifier.Decimal.{length-digits_of}
use jsonifier.ToChars.{to_chars}
use jsonifier.ToChars.Exact.{to_chars-IsDecimal}
use jsonifier.ToChars.Signed.{to_chars_signed, IsInt64, magnitude-absolute}
use jsonifier.ParseUint.Number.{Ends}
use jsonifier.ParseUint.Exponent.{to_chars-IsNumber, value-to_chars}
use jsonifier.ParseInt.{done, parse_int}
use jsonifier.ParseInt.Exact.{parse_int-exact}

length-to_chars : (v : ℕ) → v ≤ 2 ^ 63 → length (to_chars v) ≤ 19
length-to_chars v h =
    let d = to_chars-IsDecimal v (omega arith) in
    rw (d.digits, length-digits_of) (nineteen d.k d.shortest)
  where
    nineteen : (k : ℕ) → (k ≡ 0) ⊎ (10 ^ k ≤ v) → suc k ≤ 19
    nineteen k (inl e) = omega arith
    nineteen k (inr l) = elim (dec_lt k 19) [
      | yes b ↦ omega arith
      | no b ↦
          absurd
            (omega (arith, pow-le-pow_right {n = 10} (omega arith) {i = 19} {j = k} (omega arith)))
    ]

-- The reader reads back what the writer writes, for every number of 64 bits with a sign, where no
-- digit, no fraction and no exponent is behind it.
pub parse_int-to_chars_signed :
    (z : ℤ) (rest : Bytes)
    → IsInt64 z
    → Ends rest
    → parse_int (to_chars_signed z ++ rest) ≡ done z rest
unfolding to_chars_signed
parse_int-to_chars_signed (pos n) rest h e = rw (magnitude-absolute (pos n) h) (
    parse_int-exact false (to_chars n) rest (to_chars-IsNumber n (omega arith))
      (length-to_chars n (omega arith)) (inr e)
    ∙ rw (value-to_chars n (omega arith)) (ground arith))
parse_int-to_chars_signed (negsuc n) rest h e = rw (magnitude-absolute (negsuc n) h) (
    parse_int-exact true (to_chars (suc n)) rest (to_chars-IsNumber (suc n) (omega arith))
      (length-to_chars (suc n) (omega arith)) (inr e)
    ∙ rw (value-to_chars (suc n) (omega arith)) (ground arith))
