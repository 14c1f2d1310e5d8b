-- ===== src/TapeIterator.antt =====
-- include/jsonifier-incl/utilities/json_iterator.hpp: `json_iterator` over a `structural_index_ptr`, its
-- state, its tests of a byte and the values that are read over. The structs for this pointer type are the
-- same code with `parseOpts.minified` and without. The entries from `iter` up to `endIter` are a list, and
-- the entry at `endIter` is the length of the text.
pub mod Skip
use jsonifier.Prelude.{
  ℕ, zero, suc, ◌+◌, Bool, true, false, not, ◌&&◌, ◌||◌, List, [], ◌∷◌, ltb, ◌==◌, if◌then◌else◌,
  Bytes, peek, drop, length, add64, sub64, Option, none, some,
}
use jsonifier.JsonTypes.{tape_at, byte_at}
use jsonifier.JsonIterator.{
  ParseStatus, missing_key_start, missing_colon, missing_comma, no_input, unfinished_input,
  unexpected_string_end, unexpected_end_of_input, exceeded_max_depth,
}

-- what `constructError` is given: the status, and `*iter`
pub data TapeError : Type 0 where
  tape_error : ParseStatus → ℕ → TapeError

-- the last error first
pub record TapeIterator : Type 0 where
  pub string_root_iter : Bytes
  pub iter : List ℕ
  pub current_array_depth : ℕ
  pub current_object_depth : ℕ
  pub errors : List TapeError

abbrev pub TapeOutcome : Type 0
TapeOutcome = Bool × TapeIterator

abbrev pub tape_move : TapeIterator → List ℕ → TapeIterator
tape_move st is = record st { iter = is }

-- `++iter`
abbrev pub tape_next : List ℕ → List ℕ
tape_next [] = []
tape_next (i ∷ is) = is

-- `*currentPtr()`
abbrev pub tape_byte : TapeIterator → ℕ
tape_byte st = byte_at st.string_root_iter st.iter

unfoldable pub tape_reject : ParseStatus → TapeIterator → TapeOutcome
tape_reject status st = (
  false,
  record st { errors = tape_error status (tape_at st.string_root_iter st.iter) ∷ st.errors },
)

-- `if (!call) return false;` before the rest
unfoldable pub tape_if_ok : (TapeIterator → TapeOutcome) → TapeOutcome → TapeOutcome
tape_if_ok go (true, st) = go st
tape_if_ok go (false, st) = (false, st)

-- `call ? true : reject<status>()`
unfoldable pub tape_or_reject : ParseStatus → TapeOutcome → TapeOutcome
tape_or_reject status (true, st) = (true, st)
tape_or_reject status (false, st) = tape_reject status st

-- `notAtEndPre`, `iter < endIter`
abbrev pub tape_not_at_end_pre : List ℕ → Bool
tape_not_at_end_pre [] = false
tape_not_at_end_pre (i ∷ is) = true

-- `anyInput`, where `stringRootIter` is not null
abbrev pub has_bytes : Bytes → Bool
has_bytes [] = false
has_bytes (c ∷ cs) = true

unfoldable pub tape_any_input : TapeIterator → TapeOutcome
tape_any_input st = if has_bytes st.string_root_iter then (true, st) else tape_reject no_input st

unfoldable pub tape_has_more_input : TapeIterator → TapeOutcome
tape_has_more_input st =
    if tape_not_at_end_pre st.iter then (true, st) else tape_reject unexpected_end_of_input st

-- `checkCurrentDepth`, for `parseOpts.maxDepth`
unfoldable pub tape_check_current_depth : ℕ → TapeIterator → TapeOutcome
tape_check_current_depth max_depth st =
    if ltb (add64 st.current_object_depth st.current_array_depth) max_depth
    then (true, st)
    else tape_reject exceeded_max_depth st

-- `notAtEnd`
unfoldable pub tape_not_at_end : ℕ → TapeIterator → TapeOutcome
tape_not_at_end max_depth st =
    tape_if_ok (λ st'. (tape_not_at_end_pre st'.iter, st')) (tape_check_current_depth max_depth st)

-- the change of the depth at the byte `c`
unfoldable pub tape_count_depth : ℕ → TapeIterator → TapeIterator
tape_count_depth c st =
    if c == b']'
    then record st { current_array_depth = sub64 st.current_array_depth 1 }
    else if c == b'}'
    then record st { current_object_depth = sub64 st.current_object_depth 1 }
    else if c == b'{'
    then record st { current_object_depth = add64 st.current_object_depth 1 }
    else if c == b'['
    then record st { current_array_depth = add64 st.current_array_depth 1 }
    else st

-- `checkCharUnsafe<c>`
unfoldable pub tape_check_char_unsafe : ℕ → TapeIterator → TapeOutcome
tape_check_char_unsafe c st =
    if tape_byte st == c then (true, tape_count_depth c st) else (false, st)

-- `checkChar<c>`
unfoldable pub tape_check_char : ℕ → ℕ → TapeIterator → TapeOutcome
tape_check_char max_depth c st =
    if c == b'{' || c == b'['
    then tape_if_ok (tape_check_char_unsafe c) (tape_not_at_end max_depth st)
    else if tape_not_at_end_pre st.iter
    then tape_check_char_unsafe c st
    else (false, st)

-- `incrementIfEquals<c>`
unfoldable pub tape_then_advance : TapeOutcome → TapeOutcome
tape_then_advance (true, st) = (true, tape_move st (tape_next st.iter))
tape_then_advance (false, st) = (false, st)

unfoldable pub tape_increment_if_equals : ℕ → ℕ → TapeIterator → TapeOutcome
tape_increment_if_equals max_depth c st = tape_then_advance (tape_check_char max_depth c st)

unfoldable pub tape_object_maybe_end : ℕ → TapeIterator → TapeOutcome
tape_object_maybe_end m st = tape_increment_if_equals m b'}' st

unfoldable pub tape_collect_object_comma : ℕ → TapeIterator → TapeOutcome
tape_collect_object_comma m st = tape_or_reject missing_comma (tape_increment_if_equals m b',' st)

unfoldable pub tape_collect_object_colon : ℕ → TapeIterator → TapeOutcome
tape_collect_object_colon m st = tape_or_reject missing_colon (tape_increment_if_equals m b':' st)

-- `checkIfDoneImpl`, where the pointers are not null
unfoldable pub tape_check_if_done_impl : TapeIterator → Bool
tape_check_if_done_impl st =
    let depths = (st.current_array_depth == 0) && (st.current_object_depth == 0) in
    if not (tape_not_at_end_pre st.iter)
    then depths
    else (tape_at st.string_root_iter st.iter == length st.string_root_iter) && depths

unfoldable pub tape_check_if_done : TapeIterator → TapeOutcome
tape_check_if_done st =
    if tape_check_if_done_impl st then (true, st) else tape_reject unfinished_input st
