-- ===== src/JsonIterator/Iterate/Reports.antt =====
-- include/jsonifier-incl/utilities/json_iterator.hpp: what the scalar values leave of the iterator's state.
use jsonifier.Prelude.{
  ℕ, ◌≡◌, Bool, true, false, ◌&&◌, List, ◌∷◌, Bytes, codes, next, drop, length, leb, if_both,
}
use jsonifier.ParseUint.{ParseResult, done, null, undefined, parse_int}
use jsonifier.StringReader.{ReadResult, ended, more, failed, starved, string_parser}
use jsonifier.JsonIterator.{
  ParseOptions, ParseError, ParseStatus, JsonIterator, move_to, reject, is_before_end,
  invalid_number_value, invalid_null_value, invalid_bool_value, unexpected_end_of_input,
  invalid_string_characters,
}
use jsonifier.JsonIterator.Skip.Reports.{
  Keeps, Reports, reject-Reports, true-Reports, white-move_to,
}
use jsonifier.JsonIterator.Iterate.{
  Parsed, parsed, unparsed, unknown, refuse, narrow, after_int, iterate_number,
  compare_string_as_int, is_true, is_false, iterate_bool, iterate_null, after_string,
  iterate_string,
}

-- A value comes with no error, and one error more comes without; the depths and the text stay.
abbrev pub ParsedReports : {V : Type 0} → JsonIterator → Parsed V → Type 0
ParsedReports st (parsed v st') = Keeps st st' × (st'.errors ≡ st.errors)
ParsedReports st (unparsed st') = Keeps st st' × ((e : ParseError) × (st'.errors ≡ e ∷ st.errors))
ParsedReports st unknown = Unit

refuse-ParsedReports :
    (V : Type 0) (st : JsonIterator) (s : Bytes) (status : ParseStatus)
    → ParsedReports st (refuse {V = V} status (move_to st s))
unfolding refuse reject
refuse-ParsedReports V st s status = reject-Reports status st s

parsed-ParsedReports :
    {V : Type 0} (st : JsonIterator) (s : Bytes) (v : V)
    → ParsedReports st (parsed v (move_to st s))
parsed-ParsedReports st s v = true-Reports st s

after_int-ParsedReports :
    (w : ℕ) (st : JsonIterator) (s : Bytes) (x : ParseResult)
    → ParsedReports st (after_int w (move_to st s) x)
unfolding after_int
after_int-ParsedReports w st s (done v rest) = parsed-ParsedReports st rest (narrow w v)
after_int-ParsedReports w st s null = refuse-ParsedReports ℕ st s invalid_number_value
after_int-ParsedReports w st s undefined = tt

after_string-ParsedReports :
    (st : JsonIterator) (s : Bytes) (x : ReadResult)
    → ParsedReports st (after_string (move_to st s) x)
unfolding after_string
after_string-ParsedReports st s (ended out rest) =
    if_both (ParsedReports st) (is_before_end rest) (parsed-ParsedReports st (next rest) out)
      (refuse-ParsedReports Bytes st rest unexpected_end_of_input)
after_string-ParsedReports st s failed = refuse-ParsedReports Bytes st s invalid_string_characters
after_string-ParsedReports st s (more out rest) = tt
after_string-ParsedReports st s jsonifier.StringReader.unknown = tt
after_string-ParsedReports st s starved = tt

module _ (o : ParseOptions) (st : JsonIterator) where
  pub iterate_number-ParsedReports : (w : ℕ) → ParsedReports st (iterate_number o w st)
  unfolding iterate_number
  iterate_number-ParsedReports w =
      let (s, e) = white-move_to o st in rw e (after_int-ParsedReports w st s (parse_int s))

  pub iterate_bool-ParsedReports : ParsedReports st (iterate_bool o st)
  unfolding iterate_bool
  iterate_bool-ParsedReports =
      let (s, e) = white-move_to o st in
      rw e (
        if_both (ParsedReports st) (is_true s) (parsed-ParsedReports st (drop 4 s) true) (
          if_both (ParsedReports st) (is_false s) (parsed-ParsedReports st (drop 5 s) false)
            (refuse-ParsedReports Bool st s invalid_bool_value)))

  pub iterate_null-Reports : Reports st (iterate_null o st)
  unfolding iterate_null
  iterate_null-Reports =
      let (s, e) = white-move_to o st in
      rw e (
        if_both (Reports st) (leb 4 (length s) && compare_string_as_int (codes "null") s)
          (true-Reports st (drop 4 s)) (reject-Reports invalid_null_value st s))

  pub iterate_string-ParsedReports : (sizes : List ℕ) → ParsedReports st (iterate_string sizes st)
  unfolding iterate_string
  iterate_string-ParsedReports sizes =
      if_both (ParsedReports st) (is_before_end (next st.iter))
        (after_string-ParsedReports st (next st.iter) (string_parser sizes (next st.iter)))
        (refuse-ParsedReports Bytes st (next st.iter) unexpected_end_of_input)
