-- ===== src/JsonIterator/Marks.antt =====
-- include/jsonifier-incl/utilities/json_iterator.hpp: the brackets, commas and colons.
use jsonifier.Prelude.{ℕ, true, false, ◌||◌, ◌==◌, if◌then◌else◌, peek, next}
use jsonifier.JsonIterator.{
  ParseOptions, JsonIterator, Outcome, move_to, reject, or_reject, then_advance, not_at_end_pre,
  count_depth, check_char, is_before_end, missing_comma, missing_colon, missing_object_start,
  missing_array_start, unfinished_input,
}
use jsonifier.JsonIterator.Whitespace.{skip_whitespace}

-- `skipWhitespace`, which is called where the text is not minified
unfoldable pub white : ParseOptions → JsonIterator → JsonIterator
white o st = if o.minified then st else move_to st (skip_whitespace st.iter)

-- `++iter`
abbrev pub advance : JsonIterator → JsonIterator
advance st = move_to st (next st.iter)

-- `incrementIfEquals<charToCheck>`
unfoldable pub increment_if_equals : ParseOptions → ℕ → JsonIterator → Outcome
increment_if_equals o c st = then_advance (check_char o c (white o st))

unfoldable pub array_maybe_end : ParseOptions → JsonIterator → Outcome
array_maybe_end o st = increment_if_equals o b']' st

unfoldable pub collect_array_comma : ParseOptions → JsonIterator → Outcome
collect_array_comma o st = or_reject missing_comma (increment_if_equals o b',' st)

unfoldable pub object_maybe_end : ParseOptions → JsonIterator → Outcome
object_maybe_end o st = increment_if_equals o b'}' st

unfoldable pub collect_object_comma : ParseOptions → JsonIterator → Outcome
collect_object_comma o st = or_reject missing_comma (increment_if_equals o b',' st)

unfoldable pub collect_object_colon : ParseOptions → JsonIterator → Outcome
collect_object_colon o st = or_reject missing_colon (increment_if_equals o b':' st)

unfoldable pub object_start : ParseOptions → JsonIterator → Outcome
object_start o st = or_reject missing_object_start (increment_if_equals o b'{' st)

unfoldable pub array_start : ParseOptions → JsonIterator → Outcome
array_start o st = or_reject missing_array_start (increment_if_equals o b'[' st)

-- `sep_result`
pub data SepResult : Type 0 where
  cont ended error : SepResult

-- a separator at the byte that the iterator stands at; `closing` is the bracket of the container
unfoldable pub separator_at : ParseOptions → ℕ → JsonIterator → SepResult × JsonIterator
separator_at o closing st =
    if o.null_terminated || not_at_end_pre st
    then if peek st.iter == b','
      then (cont, white o (advance st))
      else if peek st.iter == closing
      then (ended, advance (count_depth closing st))
      else (error, (reject missing_comma st).1)
    else (error, (reject missing_comma st).1)

unfoldable pub collect_object_separator : ParseOptions → JsonIterator → SepResult × JsonIterator
collect_object_separator o st = separator_at o b'}' (white o st)

unfoldable pub collect_array_separator : ParseOptions → JsonIterator → SepResult × JsonIterator
collect_array_separator o st = separator_at o b']' (white o st)

-- `checkIfDoneImpl` moves the iterator too
unfoldable pub check_if_done_impl : ParseOptions → JsonIterator → Outcome
check_if_done_impl o st =
    let st' = white o st in
    if st'.current_object_depth == 0
    then if st'.current_array_depth == 0
      then (if is_before_end st'.iter then (false, st') else (true, st'))
      else (false, st')
    else (false, st')

unfoldable pub check_if_done : ParseOptions → JsonIterator → Outcome
check_if_done o st = or_reject unfinished_input (check_if_done_impl o st)
