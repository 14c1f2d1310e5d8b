-- ===== src/JsonIterator.antt =====
-- include/jsonifier-incl/utilities/json_iterator.hpp: `json_iterator` over a `string_view_ptr`, its state
-- and its tests of a byte. The two structs for this pointer type, with `parseOpts.minified` and without,
-- differ in the calls of `skipWhitespace`, which is no call in the first. The memory from `rootIter` and
-- from `iter` on, up to `endIter`, are lists, and a byte read at `endIter` is the NUL of the text.
pub mod Whitespace
pub mod Marks
pub mod White
pub mod Brackets
pub mod Braces
pub mod Members
pub mod Skip
pub mod Depth
pub mod Iterate
pub mod Session
use jsonifier.Prelude.{
  ℕ, zero, suc, ◌+◌, Bool, true, false, ◌||◌, List, [], ◌∷◌, ltb, ◌==◌, if◌then◌else◌, Bytes, peek,
  next, drop, length, leb, add64, sub64,
}
use jsonifier.Minifier.{whitespace_table}

-- `parse_options`, the fields the iterator reads
pub record ParseOptions : Type 0 where
  pub minified : Bool
  pub null_terminated : Bool
  pub max_depth : ℕ

-- `parse_statuses`
pub data ParseStatus : Type 0 where
  success missing_key_start missing_object_start missing_object_end missing_array_start
        missing_array_end invalid_string_characters missing_colon missing_comma invalid_number_value
        invalid_null_value invalid_bool_value no_input unfinished_input unexpected_string_end
        unexpected_end_of_input exceeded_max_depth unexpected_token illegal_control_character
        count :
      ParseStatus

-- what `constructError` is given: the status, and the memory from `iter` on
pub data ParseError : Type 0 where
  construct_error : ParseStatus → Bytes → ParseError

-- the last error first
pub record JsonIterator : Type 0 where
  pub root_iter : Bytes
  pub iter : Bytes
  pub current_object_depth : ℕ
  pub current_array_depth : ℕ
  pub errors : List ParseError

-- what a `bool` function of the iterator leaves
abbrev pub Outcome : Type 0
Outcome = Bool × JsonIterator

-- `json_iterator(stringBuffer, errors, rootIter, endIter)` with no error before
unfoldable pub json_iterator : Bytes → JsonIterator
json_iterator text = record {
  root_iter = text;
  iter = text;
  current_object_depth = 0;
  current_array_depth = 0;
  errors = [];
}

abbrev pub move_to : JsonIterator → Bytes → JsonIterator
move_to st s = record st { iter = s }

unfoldable pub reject : ParseStatus → JsonIterator → Outcome
reject status st = (false, record st { errors = construct_error status st.iter ∷ st.errors })

-- `iter < endIter`
abbrev pub is_before_end : Bytes → Bool
is_before_end [] = false
is_before_end (c ∷ cs) = true

abbrev pub not_at_end_pre : JsonIterator → Bool
not_at_end_pre st = is_before_end st.iter

-- `if (!call) return false;` before the rest
unfoldable pub if_ok : (JsonIterator → Outcome) → Outcome → Outcome
if_ok go (true, st) = go st
if_ok go (false, st) = (false, st)

-- `call ? true : reject<status>()`
unfoldable pub or_reject : ParseStatus → Outcome → Outcome
or_reject status (true, st) = (true, st)
or_reject status (false, st) = reject status st

-- `bool` and the pointer that is moved when it is true: `x ? (static_cast<void>(++iter), true) : false`
unfoldable pub then_advance : Outcome → Outcome
then_advance (true, st) = (true, move_to st (next st.iter))
then_advance (false, st) = (false, st)

unfoldable pub has_more_input : JsonIterator → Outcome
has_more_input st = if not_at_end_pre st then (true, st) else reject unexpected_end_of_input st

-- `rootIter` is not null
unfoldable pub any_input : JsonIterator → Outcome
any_input st = if is_before_end st.root_iter then (true, st) else reject no_input st

unfoldable pub check_current_depth : ParseOptions → JsonIterator → Outcome
check_current_depth o st =
    if ltb (add64 st.current_object_depth st.current_array_depth) o.max_depth
    then (true, st)
    else reject exceeded_max_depth st

-- `notAtEnd`
unfoldable pub not_at_end : ParseOptions → JsonIterator → Outcome
not_at_end o st = if_ok (λ st'. (not_at_end_pre st', st')) (check_current_depth o st)

-- the change of the depth at the byte `c`
unfoldable pub count_depth : ℕ → JsonIterator → JsonIterator
count_depth c st =
    if c == b']'
    then record st { current_array_depth = sub64 st.current_array_depth 1 }
    else if c == b'}'
    then record st { current_object_depth = sub64 st.current_object_depth 1 }
    else if c == b'{'
    then record st { current_object_depth = add64 st.current_object_depth 1 }
    else if c == b'['
    then record st { current_array_depth = add64 st.current_array_depth 1 }
    else st

-- `checkCharUnsafe<charToCheck>`
unfoldable pub check_char_unsafe : ℕ → JsonIterator → Outcome
check_char_unsafe c st = if peek st.iter == c then (true, count_depth c st) else (false, st)

-- `checkChar<charToCheck>`
unfoldable pub check_char : ParseOptions → ℕ → JsonIterator → Outcome
check_char o c st =
    if c == b'{' || c == b'['
    then (if o.null_terminated
        then if_ok (check_char_unsafe c) (check_current_depth o st)
        else if_ok (check_char_unsafe c) (not_at_end o st))
    else if o.null_terminated
    then check_char_unsafe c st
    else if not_at_end_pre st
    then check_char_unsafe c st
    else (false, st)
