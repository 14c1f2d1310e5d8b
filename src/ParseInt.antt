-- ===== src/ParseInt.antt =====
-- include/jsonifier-incl/utilities/str_to_i.hpp: `integer_parser<int64_t>`.
-- The value is never negative before the sign is put to it, and is a number here. `null` is
-- `nullptr` (`parseInt` then stores 0), and `undefined` is the overflow of a signed number or an
-- index out of a table's range.
pub mod Exact
pub mod RoundTrip
use jsonifier.Prelude.{
  ℕ, zero, suc, ◌+◌, ◌-◌, ◌*◌, ◌/◌, ◌%◌, ◌^◌, Bool, true, false, ◌||◌, [], ◌∷◌, Option, none, some,
  ltb, leb, ◌==◌, if◌then◌else◌, Bytes, peek, next, ℤ, pos, neg,
}
use jsonifier.ParseUint.{is_digit, exp_table, exp_frac_table, push_digit, exponent_sign}

pub data SignedResult (A : Type 0) : Type 0 where
  done : A → Bytes → SignedResult A
  null : SignedResult A
  undefined : SignedResult A

abbrev pub max_i64 : ℕ
max_i64 = 2 ^ 63 - 1

-- `compVals<int64_t, negative>[numTmp]` at a digit
abbrev pub comp_vals : Bool → ℕ → ℕ
comp_vals negative c = ((if negative then 2 ^ 63 else max_i64) - (c - 48)) / 10

-- `powerOfTenInt[i]`, which has 19 entries
abbrev pub power_of_ten : ℕ → Option ℕ
power_of_ten i = if ltb i 19 then some (10 ^ i) else none

-- the digits of an exponent or of a fraction, in `int64_t`, with their count in `int8_t`
unfoldable pub scan_digits : Bytes → ℕ → ℕ → Option (ℕ × ℕ × Bytes)
scan_digits [] e count = some (e, count, [])
scan_digits (c ∷ cs) e count =
    let rest = scan_digits cs (e * 10 + c - 48) ((count + 1) % 256) in
    if is_digit c
    then (if leb (e * 10 + c - 48) max_i64 then rest else none)
    else some (e, count, c ∷ cs)

-- `value * 10^e` or `value / 10^e`, for an exponent below 19; the flag is `expSign < 0`. A quotient
-- is never below the least number of the type.
unfoldable pub apply_exponent : ℕ → Bytes → Bool → ℕ → SignedResult ℕ
apply_exponent v iter negative e =
    let power = 10 ^ e in
    if negative
    then done (v / power) iter
    else if leb v (max_i64 / power)
    then done (v * power) iter
    else null

unfoldable pub parse_exponent : ℕ → Bytes → Bool → SignedResult ℕ
parse_exponent v iter negative =
    if is_digit (peek iter)
    then elim (scan_digits (next iter) (peek iter - 48) 0) [
      | none ↦ undefined
      | some (e, _, rest) ↦ if ltb e 19 then apply_exponent v rest negative e else null
    ]
    else null

-- `fracDigits`, an `int8_t`, and the exponent with its sign, both with 256 added
abbrev pub shifted_digits : ℕ → ℕ
shifted_digits count = if ltb count 128 then 256 + count else count

abbrev pub shifted_exponent : Bool → ℕ → ℕ
shifted_exponent negative e = if negative then 256 - e else 256 + e

-- `fracValue * powerOfTenInt[…]` or `fracValue / powerOfTenInt[…]`
unfoldable pub fractional_correction : ℕ → ℕ → Bool → ℕ → Option ℕ
fractional_correction frac count negative e =
    let digits = shifted_digits count in
    let exponent = shifted_exponent negative e in
    if ltb digits exponent
    then elim (power_of_ten (exponent - digits)) [
      | none ↦ none
      | some p ↦ if leb (frac * p) max_i64 then some (frac * p) else none
    ]
    else elim (power_of_ten (digits - exponent)) [ none ↦ none | some p ↦ some (frac / p) ]

unfoldable pub add_correction : SignedResult ℕ → Option ℕ → SignedResult ℕ
add_correction (done v iter) (some c) = if leb (v + c) max_i64 then done (v + c) iter else undefined
add_correction _ none = undefined
add_correction r _ = r

unfoldable pub parse_exponent_post_frac : ℕ → Bytes → Bool → ℕ → ℕ → SignedResult ℕ
parse_exponent_post_frac v iter negative frac count =
    if is_digit (peek iter)
    then elim (scan_digits (next iter) (peek iter - 48) 0) [
      | none ↦ undefined
      | some (e, _, rest) ↦
          if ltb e 19
          then if leb 256 (shifted_digits count + e)
            then add_correction (apply_exponent v rest negative e)
                (fractional_correction frac count negative e)
            else apply_exponent v rest negative e
          else null
    ]
    else null

unfoldable pub parse_fraction : ℕ → Bytes → SignedResult ℕ
parse_fraction v iter =
    if is_digit (peek iter)
    then elim (scan_digits (next iter) (peek iter - 48) 1) [
      | none ↦ undefined
      | some (frac, count, rest) ↦
          let (negative, exponent) = exponent_sign (next rest) in
          if exp_table (peek rest)
          then parse_exponent_post_frac v exponent negative frac count
          else if exp_frac_table (peek rest)
          then null
          else done v rest
    ]
    else if exp_frac_table (peek iter)
    then null
    else done v iter

unfoldable pub finish_parse : ℕ → Bytes → SignedResult ℕ
finish_parse v iter =
    let (negative, exponent) = exponent_sign (next iter) in
    if peek iter == b'.'
    then parse_fraction v (next iter)
    else if exp_table (peek iter)
    then parse_exponent v exponent negative
    else null

-- the branch of a block at a byte that is no digit
unfoldable pub stop : ℕ → Bytes → SignedResult ℕ
stop v iter = if exp_frac_table (peek iter) then finish_parse v iter else done v iter

-- the block of the nineteenth digit, which tests for an overflow
unfoldable pub last_block : Bool → ℕ → Bytes → SignedResult ℕ
last_block negative v iter =
    if is_digit (peek iter)
    then if ltb (comp_vals negative (peek iter)) v
      then null
      else done (push_digit v (peek iter)) (next iter)
    else stop v iter

-- the equal blocks of the digits before it, so many as are left
unfoldable pub blocks : Bool → ℕ → ℕ → Bytes → SignedResult ℕ
blocks negative zero v iter = last_block negative v iter
blocks negative (suc n) v iter = elim (is_digit (peek iter)) [
  | true ↦ blocks negative n (push_digit v (peek iter)) (next iter)
  | false ↦ stop v iter
]

-- `parseInteger<negative>` up to the sign
unfoldable pub parse_magnitude : Bool → Bytes → SignedResult ℕ
parse_magnitude negative iter =
    let v = peek iter - 48 in
    let second = peek (next iter) in
    if is_digit (peek iter)
    then if is_digit second
      then if peek iter == b'0'
        then null
        else blocks negative 16 (push_digit v second) (next (next iter))
      else stop v (next iter)
    else null

-- `value *= -1` on every path of `parseInteger<true>`
unfoldable pub put_sign : Bool → SignedResult ℕ → SignedResult ℤ
put_sign negative (done v rest) = done (if negative then neg v else pos v) rest
put_sign negative null = null
put_sign negative undefined = undefined

unfoldable pub parse_integer : Bool → Bytes → SignedResult ℤ
parse_integer negative iter = put_sign negative (parse_magnitude negative iter)

-- `parseInt` on the memory from `iter` on, which ends at `end`
unfoldable pub parse_int : Bytes → SignedResult ℤ
parse_int [] = null
parse_int (c ∷ cs) = if c == b'-' then parse_integer true cs else parse_integer false (c ∷ cs)
