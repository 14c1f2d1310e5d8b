-- ===== src/Validator/Grammar.antt =====
-- include/jsonifier-incl/parsing/validate_impl.hpp: the check of a number, on the numbers of RFC 8259.
use jsonifier.Prelude.{
  ℕ, ◌<◌, ◌≡◌, ◌⊎◌, ap, ◌∙◌, Bool, true, false, not, ◌||◌, List, ◌∷◌, ◌++◌, ◌==◌, Bytes, All, peek,
  next, drop, arith,
}
use jsonifier.Decimal.{IsDigit}
use jsonifier.ParseUint.{is_digit}
use jsonifier.Minifier.{whitespace_table}
use jsonifier.ParseUint.Run.{is_digit-IsDigit}
use jsonifier.ParseUint.Number.{IsNumber}
use jsonifier.TapeIterator.{TapeIterator, tape_move}
use jsonifier.Validator.{validated, number_table, needless_zero, validate_number}
use jsonifier.Validator.Numbers.{signed_text, dot_no_table, validate_number-signed}

-- What stands behind a number inside a document.
abbrev pub Delimits : Bytes → Type 0
Delimits rest =
    (whitespace_table (peek rest) ≡ true)
    ⊎ (peek rest ≡ b',')
    ⊎ (peek rest ≡ b']')
    ⊎ (peek rest ≡ b'}')

-- An exponent of RFC 8259 in front of `rest`, or none.
pub data IsExponent (rest : Bytes) : Bytes → Type 0 where
  no_exponent : IsExponent rest rest
  exponent :
      (e s d : ℕ) (ds : Bytes)
      → (e ≡ b'e') ⊎ (e ≡ b'E')
      → (s ≡ b'+') ⊎ (s ≡ b'-')
      → All IsDigit (d ∷ ds)
      → IsExponent rest (e ∷ s ∷ d ∷ (ds ++ rest))
  unsigned_exponent :
      (e d : ℕ) (ds : Bytes)
      → (e ≡ b'e') ⊎ (e ≡ b'E')
      → All IsDigit (d ∷ ds)
      → IsExponent rest (e ∷ d ∷ (ds ++ rest))

-- The texts on which the answer is stated, with the answer of the grammar of RFC 8259.
pub data Judged : Bytes → Bool → Type 0 where
  integer :
      (negative : Bool) (ds s rest : Bytes)
      → IsNumber ds
      → IsExponent rest s
      → Delimits rest
      → Judged (signed_text negative (ds ++ s)) true
  decimal :
      (negative : Bool) (ds : Bytes) (d : ℕ) (fs s rest : Bytes)
      → IsNumber ds
      → All IsDigit (d ∷ fs)
      → IsExponent rest s
      → Delimits rest
      → Judged (signed_text negative (ds ++ b'.' ∷ d ∷ (fs ++ s))) true
  empty_fraction :
      (negative : Bool) (ds rest : Bytes)
      → IsNumber ds
      → is_digit (peek rest) ≡ false
      → Judged (signed_text negative (ds ++ b'.' ∷ rest)) false
  needless : (d : ℕ) (rest : Bytes) → IsDigit d → Judged (b'0' ∷ d ∷ rest) false

-- Neither a table byte nor a dot starts what follows the digits.
record Stops (s : Bytes) : Type 0 where
  table : number_table (peek s) ≡ false
  ascii : peek s < 128
  no_dot : (not (peek s == b'.') || is_digit (peek (next s))) ≡ true

Delimits-Stops : (rest : Bytes) → Delimits rest → Stops rest
unfolding number_table whitespace_table
Delimits-Stops rest h = record { table = ground arith; ascii = ground arith; no_dot = ground arith }

IsExponent-Stops : {rest s : Bytes} → IsExponent rest s → Delimits rest → Stops s
unfolding number_table
IsExponent-Stops {rest} no_exponent h = Delimits-Stops rest h
IsExponent-Stops (exponent e s d ds p q k) h = record {
  table = ground arith;
  ascii = ground arith;
  no_dot = ground arith;
}
IsExponent-Stops (unsigned_exponent e d ds p k) h = record {
  table = ground arith;
  ascii = ground arith;
  no_dot = ground arith;
}

needless_zero-digit :
    (d : ℕ) (rest : Bytes) (st : TapeIterator)
    → IsDigit d
    → needless_zero (b'0' ∷ d ∷ rest) st ≡ validated false st
unfolding needless_zero number_table
needless_zero-digit d rest st h = ground arith

-- The validator of a number, at an entry `i` with another entry behind it: it is true on every number of
-- RFC 8259, with or without a sign, a fraction and an exponent, that has white space, a comma or a closing
-- bracket behind it; it is false where a dot has no digit behind it, and where a zero with no sign before it
-- has a digit behind it. It steps over one entry either way.
pub validate_number-Judged :
    (st : TapeIterator) (i j : ℕ) (is : List ℕ) (s : Bytes) (valid : Bool)
    → drop i st.string_root_iter ≡ s
    → Judged s valid
    → validate_number (tape_move st (i ∷ j ∷ is)) ≡ validated valid (tape_move st (j ∷ is))
unfolding validate_number
validate_number-Judged st i j is _ _ t (integer negative ds s rest h e k) =
    let p = IsExponent-Stops e k in
    validate_number-signed st i j is negative ds s t h p.table p.ascii
    ∙ ap (λ b. validated b (tape_move st (j ∷ is))) p.no_dot
validate_number-Judged st i j is _ _ t (decimal negative ds d fs s rest h (k, ks) e l) =
    validate_number-signed st i j is negative ds (b'.' ∷ d ∷ (fs ++ s)) t h dot_no_table
      (omega arith)
    ∙ ap (λ b. validated b (tape_move st (j ∷ is))) (is_digit-IsDigit d k)
validate_number-Judged st i j is _ _ t (empty_fraction negative ds rest h e) =
    validate_number-signed st i j is negative ds (b'.' ∷ rest) t h dot_no_table (omega arith)
    ∙ ap (λ b. validated b (tape_move st (j ∷ is))) e
validate_number-Judged st i j is _ _ t (needless d rest h) =
    ap (λ s. needless_zero s (tape_move st (j ∷ is))) t
    ∙ needless_zero-digit d rest (tape_move st (j ∷ is)) h
