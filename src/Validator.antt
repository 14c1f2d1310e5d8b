-- ===== src/Validator.antt =====
-- include/jsonifier-incl/parsing/validate_impl.hpp: the check of a number on a tape of structural indices.
-- A pointer into the text is the list of the bytes from it on.
pub mod Numbers
pub mod Grammar
use jsonifier.Prelude.{
  ℕ, zero, suc, Bool, true, false, not, ◌&&◌, ◌||◌, [], ◌∷◌, ltb, leb, ◌==◌, if◌then◌else◌, Bytes,
  peek, next, drop,
}
use jsonifier.ParseUint.{is_digit}
use jsonifier.JsonTypes.{tape_at}
use jsonifier.TapeIterator.{TapeIterator, tape_move, tape_next, tape_not_at_end_pre}

-- `numberTable`
unfoldable pub number_table : ℕ → Bool
number_table c = (c == b'-') || is_digit c

-- a `bool` and the state, or a read outside `numberTable`
pub data Validated : Type 0 where
  validated : Bool → TapeIterator → Validated
  out_of_table : Validated

-- `consumeChar`
unfoldable pub consume_char : ℕ → Bytes → Bool × Bytes
consume_char expected s = if peek s == expected then (true, next s) else (false, s)

-- `consumeDigits`: the loop, with `count` digits before, and its test of the count
unfoldable pub digits_loop : ℕ → Bytes → ℕ × Bytes
digits_loop count [] = (count, [])
digits_loop count (c ∷ cs) =
    let rest = digits_loop (suc count) cs in if is_digit c then rest else (count, c ∷ cs)

unfoldable pub at_least : ℕ → ℕ × Bytes → Bool × Bytes
at_least min_count (count, s) = (leb min_count count, s)

unfoldable pub consume_digits : ℕ → Bytes → Bool × Bytes
consume_digits min_count s = at_least min_count (digits_loop 0 s)

-- `consumeSign`
unfoldable pub consume_sign : Bytes → Bytes
consume_sign s = if (peek s == b'-') || (peek s == b'+') then next s else s

-- the digits of a fraction, where there is a dot; the result of what follows is not used
unfoldable pub validate_fraction : Bool → Bool × Bytes → Bool
validate_fraction more (true, s) = not (not more || not (consume_digits 1 s).0)
validate_fraction more (false, s) = true

-- the part behind the test for a needless zero
unfoldable pub validate_digits : Bool → Bytes → Bool
validate_digits more s =
    validate_fraction more (consume_char b'.' (consume_digits 1 (consume_sign s)).1)

-- the test for a needless zero; a `char` from 128 on is negative, and no index of `numberTable`
unfoldable pub needless_zero : Bytes → TapeIterator → Validated
needless_zero s st =
    if not (peek s == b'0')
    then validated (validate_digits true s) st
    else if not (ltb (peek (next s)) 128)
    then out_of_table
    else if number_table (peek (next s))
    then validated false st
    else validated (validate_digits true s) st

-- `validate_impl<json_structural_type::number>::impl`
unfoldable pub validate_number : TapeIterator → Validated
validate_number st =
    let s = drop (tape_at st.string_root_iter st.iter) st.string_root_iter in
    let st' = tape_move st (tape_next st.iter) in
    if tape_not_at_end_pre st'.iter then needless_zero s st' else validated false st'
