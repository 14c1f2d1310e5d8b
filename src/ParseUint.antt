-- ===== src/ParseUint.antt =====
-- include/jsonifier-incl/utilities/str_to_i.hpp: `integer_parser<uint64_t>`.
-- `value_type& value` and the returned pointer are a result: `done` with the value and the
-- rest of the memory, `null` for `nullptr` (`parseInt` then stores 0), and `undefined` where
-- the source indexes a table out of its range or overflows a signed number.
pub mod Run
pub mod Number
pub mod Exponent
use jsonifier.Prelude.{
  ℕ, zero, suc, ◌+◌, ◌-◌, ◌*◌, ◌/◌, ◌%◌, ◌^◌, Bool, true, false, ◌||◌, [], ◌∷◌, Option, none, some,
  ltb, leb, ◌==◌, if◌then◌else◌, Bytes, peek, next, add64, mul64,
}

pub data ParseResult : Type 0 where
  done : ℕ → Bytes → ParseResult
  null : ParseResult
  undefined : ParseResult

-- `static_cast<uint8_t>(x - '0') < 10`
abbrev pub is_digit : ℕ → Bool
is_digit c = ltb ((c + 256 - 48) % 256) 10

abbrev pub exp_table : ℕ → Bool
exp_table c = c == b'E' || c == b'e'

abbrev pub exp_frac_table : ℕ → Bool
exp_frac_table c = c == b'.' || exp_table c

abbrev pub max_u64 : ℕ
max_u64 = 2 ^ 64 - 1

-- `compVals<uint64_t, false>[numTmp]` at a digit
abbrev pub comp_vals : ℕ → ℕ
comp_vals c = (max_u64 - (c - 48)) / 10

-- `powerOfTenUint[i]`, which has 20 entries
abbrev pub power_of_ten : ℕ → Option ℕ
power_of_ten i = if ltb i 20 then some (10 ^ i) else none

-- `value * 10 + (numTmp - zero)` in 64 bits, at a digit
abbrev pub push_digit : ℕ → ℕ → ℕ
push_digit v c = add64 (mul64 v 10) (c - 48)

-- the loop over the digits of an exponent, in `parseExponent`
unfoldable pub scan_exponent : Bytes → ℕ → ℕ × Bytes
scan_exponent [] e = (e, [])
scan_exponent (c ∷ cs) e =
    let rest = scan_exponent cs (push_digit e c) in if is_digit c then rest else (e, c ∷ cs)

-- the arithmetic of `parseExponent` once the exponent is read; the flag is `expSign < 0`
unfoldable pub apply_exponent : ℕ → Bytes → Bool → ℕ → ParseResult
apply_exponent v iter negative e =
    let power = 10 ^ e in
    if leb e 19
    then if negative
      then done (v / power) iter
      else if leb v (max_u64 / power)
      then done (mul64 v power) iter
      else null
    else null

unfoldable pub parse_exponent : ℕ → Bytes → Bool → ParseResult
parse_exponent v iter negative =
    let (e, rest) = scan_exponent (next iter) (peek iter - 48) in
    if is_digit (peek iter) then apply_exponent v rest negative e else null

-- the loop over the digits of an exponent in `parseExponentPostFrac`, in `int64_t`
unfoldable pub scan_exponent_signed : Bytes → ℕ → Option (ℕ × Bytes)
scan_exponent_signed [] e = some (e, [])
scan_exponent_signed (c ∷ cs) e =
    let rest = scan_exponent_signed cs (e * 10 + c - 48) in
    if is_digit c then (if ltb (e * 10 + c) (2 ^ 63) then rest else none) else some (e, c ∷ cs)

-- `fracValue * powerOfTenUint[…]` or `fracValue / powerOfTenUint[…]`
unfoldable pub fractional_correction : ℕ → ℕ → Bool → ℕ → Option ℕ
fractional_correction frac digits negative e =
    if negative
    then elim (power_of_ten (digits + e)) [ none ↦ none | some p ↦ some (frac / p) ]
    else if ltb digits e
    then elim (power_of_ten (e - digits)) [ none ↦ none | some p ↦ some (mul64 frac p) ]
    else elim (power_of_ten (digits - e)) [ none ↦ none | some p ↦ some (frac / p) ]

unfoldable pub add_correction : ParseResult → Option ℕ → ParseResult
add_correction (done v iter) (some c) = done (add64 v c) iter
add_correction _ none = undefined
add_correction r _ = r

unfoldable pub parse_exponent_post_frac : ℕ → Bytes → Bool → ℕ → ℕ → ParseResult
parse_exponent_post_frac v iter negative frac digits =
    if is_digit (peek iter)
    then elim (scan_exponent_signed (next iter) (peek iter - 48)) [
      | none ↦ undefined
      | some (e, rest) ↦
          if leb e 19
          then add_correction (apply_exponent v rest negative e)
              (fractional_correction frac digits negative e)
          else null
    ]
    else null

-- the loop over the digits of a fraction; `fracDigits` is a `uint8_t`
unfoldable pub scan_fraction : Bytes → ℕ → ℕ → ℕ × ℕ × Bytes
scan_fraction [] frac digits = (frac, digits, [])
scan_fraction (c ∷ cs) frac digits =
    let rest = scan_fraction cs (push_digit frac c) ((digits + 1) % 256) in
    if is_digit c then rest else (frac, digits, c ∷ cs)

-- the sign of an exponent: whether it is `-`, and the memory behind it
abbrev pub exponent_sign : Bytes → Bool × Bytes
exponent_sign iter =
    if peek iter == b'-'
    then (true, next iter)
    else if peek iter == b'+'
    then (false, next iter)
    else (false, iter)

unfoldable pub parse_fraction : ℕ → Bytes → ParseResult
parse_fraction v iter =
    let (frac, digits, rest) = scan_fraction (next iter) (peek iter - 48) 1 in
    let (negative, exponent) = exponent_sign (next rest) in
    if is_digit (peek iter)
    then if exp_table (peek rest)
      then parse_exponent_post_frac v exponent negative frac digits
      else if exp_frac_table (peek rest)
      then null
      else done v rest
    else if exp_frac_table (peek iter)
    then null
    else done v iter

unfoldable pub finish_parse : ℕ → Bytes → ParseResult
finish_parse v iter =
    let (negative, exponent) = exponent_sign (next iter) in
    if peek iter == b'.'
    then parse_fraction v (next iter)
    else if exp_table (peek iter)
    then parse_exponent v exponent negative
    else if exp_frac_table (peek iter)
    then null
    else done v iter

-- the branch of a block at a byte that is no digit
unfoldable pub stop : ℕ → Bytes → ParseResult
stop v iter = if exp_frac_table (peek iter) then finish_parse v iter else done v iter

-- behind the twentieth digit
unfoldable pub after_last : ℕ → Bytes → ParseResult
after_last v iter =
    if is_digit (peek iter) then null else if exp_frac_table (peek iter) then null else done v iter

-- the block of the twentieth digit, which tests for an overflow
unfoldable pub last_block : ℕ → Bytes → ParseResult
last_block v iter =
    if is_digit (peek iter)
    then if ltb (comp_vals (peek iter)) v
      then null
      else after_last (push_digit v (peek iter)) (next iter)
    else stop v iter

-- the equal blocks of the digits before it, so many as are left
unfoldable pub blocks : ℕ → ℕ → Bytes → ParseResult
blocks zero v iter = last_block v iter
blocks (suc n) v iter = elim (is_digit (peek iter)) [
  | true ↦ blocks n (push_digit v (peek iter)) (next iter)
  | false ↦ stop v iter
]

unfoldable pub parse_integer : Bytes → ParseResult
parse_integer iter =
    let v = peek iter - 48 in
    let second = peek (next iter) in
    if is_digit (peek iter)
    then if is_digit second
      then if peek iter == b'0' then null else blocks 17 (push_digit v second) (next (next iter))
      else stop v (next iter)
    else null

-- `parseInt` on the memory from `iter` on; `end` is where the text ends
unfoldable pub parse_int : Bytes → ParseResult
parse_int [] = null
parse_int (c ∷ cs) = parse_integer (c ∷ cs)
