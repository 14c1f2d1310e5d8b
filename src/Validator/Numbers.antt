-- ===== src/Validator/Numbers.antt =====
-- include/jsonifier-incl/parsing/validate_impl.hpp: the check of a number, on an integer and what follows.
use jsonifier.Prelude.{
  ℕ, suc, ◌<◌, ◌≡◌, refl, ap, ◌∙◌, Bool, true, false, not, ◌||◌, List, [], ◌∷◌, ◌++◌, leb, ◌==◌,
  if◌then◌else◌, Bytes, All, peek, next, drop, arith,
}
use jsonifier.Decimal.{IsDigit}
use jsonifier.ParseUint.{is_digit}
use jsonifier.ParseUint.Run.{is_digit-IsDigit}
use jsonifier.ParseUint.Number.{IsNumber}
use jsonifier.TapeIterator.{TapeIterator, tape_move}
use jsonifier.Validator.{
  validated, number_table, consume_char, digits_loop, at_least, consume_digits, consume_sign,
  validate_fraction, validate_digits, needless_zero, validate_number,
}

digits_loop-All :
    (n : ℕ) (ds rest : Bytes)
    → All IsDigit ds
    → is_digit (peek rest) ≡ false
    → (digits_loop n (ds ++ rest)).1 ≡ rest
unfolding digits_loop
digits_loop-All n [] [] h e = refl
digits_loop-All n [] (c ∷ cs) h e = rw e refl
digits_loop-All n (d ∷ ds) rest (h, hs) e =
    rw (is_digit-IsDigit d h) (digits_loop-All (suc n) ds rest hs e)

digits_loop_positive : (n : ℕ) (s : Bytes) → leb 1 (digits_loop (suc n) s).0 ≡ true
unfolding digits_loop
digits_loop_positive n [] = ground arith
digits_loop_positive n (c ∷ cs) =
    elim (is_digit c)
      as (λ b. leb 1 (if b then digits_loop (suc (suc n)) cs else (suc n, c ∷ cs)).0 ≡ true) [
        | true ↦ digits_loop_positive (suc n) cs
        | false ↦ ground arith
      ]

-- A fraction has a digit.
consume_digits_first : (s : Bytes) → (consume_digits 1 s).0 ≡ is_digit (peek s)
unfolding consume_digits at_least digits_loop
consume_digits_first [] = refl
consume_digits_first (c ∷ cs) =
    elim (is_digit c) as (λ b. (at_least 1 (if b then digits_loop 1 cs else (0, c ∷ cs))).0 ≡ b) [
      | true ↦ digits_loop_positive 0 cs
      | false ↦ refl
    ]

consume_digits-rest :
    (ds rest : Bytes)
    → All IsDigit ds
    → is_digit (peek rest) ≡ false
    → (consume_digits 1 (ds ++ rest)).1 ≡ rest
unfolding consume_digits at_least
consume_digits-rest ds rest h e = digits_loop-All 0 ds rest h e

fraction_at :
    (rest : Bytes)
    → validate_fraction true (consume_char b'.' rest)
      ≡ (not (peek rest == b'.') || is_digit (peek (next rest)))
unfolding validate_fraction consume_char
fraction_at rest =
    elim (peek rest == b'.')
      as (λ b.
        validate_fraction true (if b then (true, next rest) else (false, rest))
        ≡ (not b || is_digit (peek (next rest)))) [
          | true ↦ rw (consume_digits_first (next rest)) (double_not (is_digit (peek (next rest))))
          | false ↦ refl
        ]
  where
    double_not : (b : Bool) → not (not b) ≡ b
    double_not true = refl
    double_not false = refl

number-All : (ds : Bytes) → IsNumber ds → All IsDigit ds
number-All [] h = elim h [ ]
number-All (c ∷ []) h = (h, tt)
number-All (c ∷ d ∷ ds) (h, n, hs) = (h, hs)

-- the text of an integer, with its sign
abbrev pub signed_text : Bool → Bytes → Bytes
signed_text true s = b'-' ∷ s
signed_text false s = s

consume_sign-signed :
    (negative : Bool) (ds rest : Bytes)
    → IsNumber ds
    → consume_sign (signed_text negative (ds ++ rest)) ≡ ds ++ rest
unfolding consume_sign
consume_sign-signed true ds rest h = refl
consume_sign-signed false [] rest h = elim h [ ]
consume_sign-signed false (c ∷ []) rest h = ground arith
consume_sign-signed false (c ∷ d ∷ ds) rest (h, n, hs) = ground arith

needless_zero-signed :
    (negative : Bool) (ds rest : Bytes) (st : TapeIterator)
    → IsNumber ds
    → number_table (peek rest) ≡ false
    → peek rest < 128
    → needless_zero (signed_text negative (ds ++ rest)) st
      ≡ validated (validate_digits true (signed_text negative (ds ++ rest))) st
unfolding needless_zero
needless_zero-signed true ds rest st h e l = refl
needless_zero-signed false [] rest st h e l = elim h [ ]
needless_zero-signed false (c ∷ []) rest st h e l = ground arith
needless_zero-signed false (c ∷ d ∷ ds) rest st (h, n, hs) e l = ground arith

table_digit : (c : ℕ) → number_table c ≡ false → is_digit c ≡ false
unfolding number_table
table_digit c h = ground arith

validate_digits-signed :
    (negative : Bool) (ds rest : Bytes)
    → IsNumber ds
    → number_table (peek rest) ≡ false
    → validate_digits true (signed_text negative (ds ++ rest))
      ≡ (not (peek rest == b'.') || is_digit (peek (next rest)))
unfolding validate_digits
validate_digits-signed negative ds rest h e =
    ap (λ s. validate_fraction true (consume_char b'.' (consume_digits 1 s).1))
      (consume_sign-signed negative ds rest h)
    ∙ ap (λ s. validate_fraction true (consume_char b'.' s))
        (consume_digits-rest ds rest (number-All ds h) (table_digit (peek rest) e))
    ∙ fraction_at rest

pub dot_no_table : number_table b'.' ≡ false
unfolding number_table
dot_no_table = refl

-- An integer with its sign and no table byte behind.
pub validate_number-signed :
    (st : TapeIterator) (i j : ℕ) (is : List ℕ) (negative : Bool) (ds rest : Bytes)
    → drop i st.string_root_iter ≡ signed_text negative (ds ++ rest)
    → IsNumber ds
    → number_table (peek rest) ≡ false
    → peek rest < 128
    → validate_number (tape_move st (i ∷ j ∷ is))
      ≡ validated (not (peek rest == b'.') || is_digit (peek (next rest))) (tape_move st (j ∷ is))
unfolding validate_number
validate_number-signed st i j is negative ds rest t h e l =
    ap (λ s. needless_zero s (tape_move st (j ∷ is))) t
    ∙ needless_zero-signed negative ds rest (tape_move st (j ∷ is)) h e l
    ∙ ap (λ b. validated b (tape_move st (j ∷ is))) (validate_digits-signed negative ds rest h e)
