-- ===== src/JsonIterator/Skip.antt =====
-- include/jsonifier-incl/utilities/json_iterator.hpp: the values that are read over, with `skipStringImpl`
-- of include/jsonifier-incl/utilities/string_utils.hpp. A loop that ran out of fuel would give `false`
-- with no error.
pub mod Strings
pub mod Items
pub mod Escapes
pub mod Parsed
pub mod Loop
pub mod Reports
pub mod Grammar
pub mod Containers
pub mod Values
use jsonifier.Prelude.{
  ℕ, zero, suc, Bool, true, false, not, ◌&&◌, ◌||◌, ◌%◌, List, [], ◌∷◌, ◌==◌, if◌then◌else◌, Bytes,
  peek, next, length, add64, sub64, Option, none, some,
}
use jsonifier.Minifier.{whitespace_table}
use jsonifier.JsonIterator.{
  ParseOptions, JsonIterator, Outcome, move_to, reject, if_ok, is_before_end, unexpected_string_end,
  unexpected_end_of_input, missing_key_start,
}
use jsonifier.JsonIterator.Marks.{
  white, advance, SepResult, cont, ended, error, collect_object_colon, collect_object_comma,
  object_maybe_end, collect_object_separator,
}

-- `memchar` for a quote: the bytes before it and those from it on
abbrev cons_before : ℕ → Option (Bytes × Bytes) → Option (Bytes × Bytes)
cons_before c none = none
cons_before c (some (pre, s)) = some (c ∷ pre, s)

unfoldable pub find_quote : Bytes → Option (Bytes × Bytes)
find_quote [] = none
find_quote (c ∷ cs) =
    let found = cons_before c (find_quote cs) in if c == b'"' then some ([], c ∷ cs) else found

-- the backslashes at the end of the bytes, with `n` before them
unfoldable pub backslashes : ℕ → Bytes → ℕ
backslashes n [] = n
backslashes n (c ∷ cs) =
    let more = backslashes (suc n) cs in
    let other = backslashes 0 cs in if c == b'\\' then more else other

-- a quote with the bytes `pre` before it, back to a quote: `(string1 - prev) % 2` is their test
unfoldable pub after_quote : (Bytes → Bytes) → Bytes → Option (Bytes × Bytes) → Bytes
after_quote go s none = s
after_quote go s (some (pre, rest)) =
    if suc (backslashes 0 pre) % 2 == 0 then go (next rest) else rest

-- `skipStringImpl`, with fuel; a round takes a byte at least
unfoldable pub skip_string_loop : ℕ → Bytes → Bytes
skip_string_loop zero s = s
skip_string_loop (suc fuel) s = after_quote (λ rest. skip_string_loop fuel rest) s (find_quote s)

unfoldable pub skip_string_impl : Bytes → Bytes
skip_string_impl s = skip_string_loop (suc (length s)) s

-- what follows `skipStringImpl`
unfoldable pub close_string : ParseOptions → JsonIterator → Outcome
close_string o st =
    if (o.null_terminated || is_before_end st.iter) && (peek st.iter == b'"')
    then (true, advance st)
    else reject unexpected_string_end st

-- `skipString`, at the opening quote
unfoldable pub skip_string : ParseOptions → JsonIterator → Outcome
skip_string o st = close_string o (move_to st (skip_string_impl (next st.iter)))

-- `*iter != '\0'`, or `iter < endIter`
unfoldable pub has_byte : ParseOptions → Bytes → Bool
has_byte o s = if o.null_terminated then not (peek s == 0) else is_before_end s

-- a byte of structure in the loop over a container
unfoldable pub skip_mark : (ℕ → JsonIterator → Outcome) → ℕ → ℕ → JsonIterator → Outcome
skip_mark go depth c st =
    if c == b'{' || c == b'['
    then go (add64 depth 1) st
    else if c == b'}' || c == b']'
    then if sub64 depth 1 == 0 then (true, st) else go (sub64 depth 1) st
    else go depth st

-- the body of that loop, at the byte `c`
unfoldable pub skip_byte :
    ParseOptions → (ℕ → JsonIterator → Outcome) → ℕ → ℕ → JsonIterator → Outcome
skip_byte o go depth c st =
    if c == b'"'
    then if_ok (go depth) (skip_string o st)
    else if not o.minified && whitespace_table c
    then go depth (white o st)
    else skip_mark go depth c (advance st)

-- the loop, with fuel; a round takes a byte at least
unfoldable pub skip_container : ParseOptions → ℕ → ℕ → JsonIterator → Outcome
skip_container o zero depth st = (false, st)
skip_container o (suc fuel) depth st =
    if has_byte o st.iter
    then skip_byte o (λ depth' st'. skip_container o fuel depth' st') depth (peek st.iter) st
    else reject unexpected_string_end st

-- the bytes that end a number or a literal name; a NUL in the text does only where the text ends with one
unfoldable pub ends_plain : ParseOptions → ℕ → Bool
ends_plain o c =
    (c == b',')
    || ((c == b']') || ((c == b'}') || ((o.null_terminated && (c == 0)) || whitespace_table c)))

unfoldable pub skip_plain : ParseOptions → Bytes → Bytes
skip_plain o [] = []
skip_plain o (c ∷ cs) = let rest = skip_plain o cs in if ends_plain o c then c ∷ cs else rest

-- the switch of `skipValue`
unfoldable pub skip_value_at : ParseOptions → JsonIterator → Outcome
skip_value_at o st =
    if has_byte o st.iter
    then if peek st.iter == b'"'
      then skip_string o st
      else if peek st.iter == b'{' || peek st.iter == b'['
      then skip_container o (suc (length st.iter)) 0 st
      else (true, move_to st (skip_plain o st.iter))
    else reject unexpected_end_of_input st

unfoldable pub skip_value : ParseOptions → JsonIterator → Outcome
skip_value o st = skip_value_at o (white o st)

-- what follows a member of an object that is read over; `go` is the next round
unfoldable pub after_comma : (JsonIterator → Outcome) → SepResult × JsonIterator → Outcome
after_comma go (cont, st) = go st
after_comma go (ended, st) = (true, st)
after_comma go (error, st) = (false, st)

unfoldable pub unless_end : (JsonIterator → Outcome) → Outcome → Outcome
unless_end go (true, st) = (true, st)
unless_end go (false, st) = go st

unfoldable pub after_member : ParseOptions → (JsonIterator → Outcome) → JsonIterator → Outcome
after_member o go st =
    if o.minified
    then unless_end (λ st'. if_ok go (collect_object_comma o st')) (object_maybe_end o st)
    else after_comma go (collect_object_separator o st)

-- a member, from its key on
unfoldable pub skip_member : ParseOptions → (JsonIterator → Outcome) → JsonIterator → Outcome
skip_member o go st =
    if peek st.iter == b'"'
    then if_ok
        (λ st'.
          if_ok (λ st''. if_ok (after_member o go) (skip_value o st''))
            (collect_object_colon o st'))
        (skip_string o st)
    else reject missing_key_start st

-- `skipRemainingObject`, with fuel; a round takes a byte at least
unfoldable pub skip_members : ParseOptions → ℕ → JsonIterator → Outcome
skip_members o zero st = (false, st)
skip_members o (suc fuel) st = skip_member o (λ st'. skip_members o fuel st') (white o st)

unfoldable pub skip_remaining_object : ParseOptions → JsonIterator → Outcome
skip_remaining_object o st = skip_members o (suc (length st.iter)) st
