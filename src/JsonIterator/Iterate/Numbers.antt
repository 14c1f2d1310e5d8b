-- ===== src/JsonIterator/Iterate/Numbers.antt =====
-- include/jsonifier-incl/utilities/json_iterator.hpp: `iterateNumber` on numbers with white space before.
use jsonifier.Prelude.{
  ℕ, ◌^◌, ◌≡◌, refl, ap, ◌∙◌, true, false, [], ◌∷◌, ◌++◌, ltb, if◌then◌else◌, Bytes, arith, peek,
}
use jsonifier.Decimal.{value, IsDigit}
use jsonifier.ParseUint.{done, null, parse_int}
use jsonifier.ParseUint.Number.{IsNumber, Ends, parse_int-IsNumber}
use jsonifier.Minifier.{whitespace_table}
use jsonifier.JsonIterator.{ParseOptions, JsonIterator, move_to, invalid_number_value}
use jsonifier.JsonIterator.White.{IsBlank, white-IsBlank}
use jsonifier.JsonIterator.Iterate.{parsed, refuse, narrow, after_int, iterate_number}

pub no_white-IsDigit : (c : ℕ) → IsDigit c → whitespace_table c ≡ false
unfolding whitespace_table
no_white-IsDigit c h = ground arith

pub no_white-IsNumber :
    (ds rest : Bytes) → IsNumber ds → whitespace_table (peek (ds ++ rest)) ≡ false
no_white-IsNumber [] rest h = elim h [ ]
no_white-IsNumber (c ∷ []) rest h = no_white-IsDigit c h
no_white-IsNumber (c ∷ d ∷ ds) rest (h, n, hs) = no_white-IsDigit c h

after_int-value :
    (w : ℕ) (st : JsonIterator) (v : ℕ) (rest : Bytes)
    → after_int w st (if ltb v (2 ^ 64) then done v rest else null) ≡ (
        if ltb v (2 ^ 64)
        then parsed (narrow w v) (move_to st rest)
        else refuse invalid_number_value st)
unfolding after_int
after_int-value w st v rest =
    elim (ltb v (2 ^ 64))
      as (λ b.
        after_int w st (if b then done v rest else null)
        ≡ (if b then parsed (narrow w v) (move_to st rest) else refuse invalid_number_value st)) [
          | true ↦ refl
          | false ↦ refl
        ]

-- `iterateNumber` for an unsigned type of `w` bits, on white space and the text of a number with neither
-- fraction nor exponent: below 2 ^ 64 the value is stored, cut to its low `w` bits, and the iterator
-- stands behind the number; from 2 ^ 64 on it is refused with `invalid_number_value`.
pub iterate_number-IsNumber :
    (o : ParseOptions) (w : ℕ) (st : JsonIterator) (blank ds rest : Bytes)
    → IsBlank o blank
    → IsNumber ds
    → Ends rest
    → iterate_number o w (move_to st (blank ++ (ds ++ rest))) ≡ (
        if ltb (value 0 ds) (2 ^ 64)
        then parsed (narrow w (value 0 ds)) (move_to st rest)
        else refuse invalid_number_value (move_to st (ds ++ rest)))
unfolding iterate_number
iterate_number-IsNumber o w st blank ds rest hb hn e =
    ap (λ st'. after_int w st' (parse_int st'.iter))
      (white-IsBlank o st blank (ds ++ rest) hb (no_white-IsNumber ds rest hn))
    ∙ ap (after_int w (move_to st (ds ++ rest))) (parse_int-IsNumber ds rest hn e)
    ∙ after_int-value w (move_to st (ds ++ rest)) (value 0 ds) rest
