-- ===== src/JsonIterator/Iterate.antt =====
-- include/jsonifier-incl/utilities/json_iterator.hpp: the scalar values. A number is an integer here.
pub mod Numbers
pub mod Reports
use jsonifier.Prelude.{
  ℕ, ◌^◌, ◌%◌, Bool, true, false, ◌&&◌, List, [], ◌∷◌, ◌==◌, if◌then◌else◌, Bytes, codes, peek,
  next, drop, length, leb,
}
use jsonifier.ParseUint.{ParseResult, done, null, undefined, parse_int}
use jsonifier.StringReader.{ReadResult, ended, more, failed, starved, string_parser}
use jsonifier.JsonIterator.{
  ParseOptions, ParseStatus, JsonIterator, Outcome, move_to, reject, is_before_end,
  invalid_number_value, invalid_null_value, invalid_bool_value, unexpected_end_of_input,
  invalid_string_characters,
}
use jsonifier.JsonIterator.Marks.{white, advance}

-- The value stored and the state behind it; a state with the errors; or nothing defined.
pub data Parsed (V : Type 0) : Type 0 where
  parsed : V → JsonIterator → Parsed V
  unparsed : JsonIterator → Parsed V
  unknown : Parsed V

unfoldable pub refuse : {V : Type 0} → ParseStatus → JsonIterator → Parsed V
refuse status st = unparsed (reject status st).1

-- `value = static_cast<value_type>(i)` for a type of `w` bits
unfoldable pub narrow : ℕ → ℕ → ℕ
narrow w v = if w == 64 then v else v % 2 ^ w

unfoldable pub after_int : ℕ → JsonIterator → ParseResult → Parsed ℕ
after_int w st (done v rest) = parsed (narrow w v) (move_to st rest)
after_int w st null = refuse invalid_number_value st
after_int w st undefined = unknown

-- `iterateNumber` for an unsigned type of `w` bits
unfoldable pub iterate_number : ParseOptions → ℕ → JsonIterator → Parsed ℕ
iterate_number o w st = let st' = white o st in after_int w st' (parse_int st'.iter)

-- what `iterateRootNumber` returns: a false outcome may come with no error, and the value is stored
pub data RootNumber : Type 0 where
  stored : ℕ → Bool → JsonIterator → RootNumber
  not_stored : JsonIterator → RootNumber
  unknown_root : RootNumber

-- `iterNew == valueEnd` is a test of the pointer before the white space; 64 bits have no test
unfoldable pub after_root_int : ParseOptions → ℕ → JsonIterator → ParseResult → RootNumber
after_root_int o w st (done v rest) =
    stored (narrow w v) (if w == 64 then true else if is_before_end rest then false else true)
      (white o (move_to st rest))
after_root_int o w st null = not_stored (reject invalid_number_value st).1
after_root_int o w st undefined = unknown_root

unfoldable pub iterate_root_number : ParseOptions → ℕ → JsonIterator → RootNumber
iterate_root_number o w st = after_root_int o w st (parse_int st.iter)

-- `compareStringAsInt` for the four bytes of the literal
unfoldable pub compare_string_as_int : Bytes → Bytes → Bool
compare_string_as_int [] s = true
compare_string_as_int (c ∷ cs) s = (peek s == c) && compare_string_as_int cs (next s)

unfoldable pub is_true : Bytes → Bool
is_true s = leb 4 (length s) && compare_string_as_int (codes "true") s

unfoldable pub is_false : Bytes → Bool
is_false s =
    leb 5 (length s) && (compare_string_as_int (codes "fals") s && (peek (drop 4 s) == b'e'))

unfoldable pub iterate_bool : ParseOptions → JsonIterator → Parsed Bool
iterate_bool o st =
    let st' = white o st in
    if is_true st'.iter
    then parsed true (move_to st' (drop 4 st'.iter))
    else if is_false st'.iter
    then parsed false (move_to st' (drop 5 st'.iter))
    else refuse invalid_bool_value st'

-- `iterateRootBool`
unfoldable pub iterate_root_bool : JsonIterator → Parsed Bool
iterate_root_bool st =
    if (length st.iter == 4) && compare_string_as_int (codes "true") st.iter
    then parsed true (move_to st (drop 4 st.iter))
    else if (length st.iter == 5)
        && (compare_string_as_int (codes "fals") st.iter && (peek (drop 4 st.iter) == b'e'))
    then parsed false (move_to st (drop 5 st.iter))
    else refuse invalid_bool_value st

unfoldable pub iterate_null : ParseOptions → JsonIterator → Outcome
iterate_null o st =
    let st' = white o st in
    if leb 4 (length st'.iter) && compare_string_as_int (codes "null") st'.iter
    then (true, move_to st' (drop 4 st'.iter))
    else reject invalid_null_value st'

-- what follows `string_parser::impl`, for the state behind the opening quote
unfoldable pub after_string : JsonIterator → ReadResult → Parsed Bytes
after_string st (ended out rest) =
    if is_before_end rest
    then parsed out (move_to st (next rest))
    else refuse unexpected_end_of_input (move_to st rest)
after_string st failed = refuse invalid_string_characters st
after_string st (more out rest) = unknown
after_string st jsonifier.StringReader.unknown = unknown
after_string st starved = unknown

-- `iterateString`, at the opening quote
unfoldable pub iterate_string : List ℕ → JsonIterator → Parsed Bytes
iterate_string sizes st =
    let st' = advance st in
    if is_before_end st'.iter
    then after_string st' (string_parser sizes st'.iter)
    else refuse unexpected_end_of_input st'
