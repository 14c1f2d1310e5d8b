-- ===== src/IteratorTests.antt =====
-- The theorems on include/jsonifier-incl/utilities/json_iterator.hpp and its clients at concrete inputs.
use jsonifier.Prelude.{
  length, ◌<◌, ℕ, ◌^◌, ◌≡◌, refl, inl, inr, true, false, List, [], ◌∷◌, ◌++◌, Bytes, codes, arith,
  none, ltb, if◌then◌else◌, replicate, All, suc,
}
use jsonifier.Decimal.{value}
use jsonifier.ParseUint.Number.{Ends}
use jsonifier.Minifier.{whitespace_table}
use jsonifier.StringReader.{escape_map}
use jsonifier.StringReader.Items.{Item, IsItem, plain, letter, string_text, meaning}
use jsonifier.Serializer.{SerializeOptions, serialize_vector, serialize_map, blit_with_overflow}
use jsonifier.JsonIterator.Braces.{in_object}
use jsonifier.JsonIterator.Members.{
  Member, IsMember, members_text, skip_remaining_object-members_text,
}
use jsonifier.Parser.{parse_vector, parse_map, parse_string}
use jsonifier.StringWriter.{write_string}
use jsonifier.Codec.Maps.{puts, parse_map-serialize_map}
use jsonifier.JsonIterator.{
  ParseOptions, JsonIterator, json_iterator, move_to, invalid_number_value,
}
use jsonifier.JsonIterator.Whitespace.{
  skip_loop, skip_whitespace, trim_start, skip_whitespace-trim_start,
}
use jsonifier.JsonIterator.Marks.{white, array_start, object_start, check_if_done_impl}
use jsonifier.JsonIterator.White.{IsBlank}
use jsonifier.JsonIterator.Brackets.{HasRoom, array_start_lem, array_maybe_end_yes}
use jsonifier.JsonIterator.Skip.{skip_string, skip_string_impl, skip_value, skip_remaining_object}
use jsonifier.JsonIterator.Skip.Strings.{closing_quote, string_outcome, skip_string-closing_quote}
use jsonifier.JsonIterator.Skip.Parsed.{skip_string-string_parser}
use jsonifier.StringReader.Blocks.{string_parser-Items}
use jsonifier.JsonIterator.Skip.Grammar.{IsValue, container, nothing, other, quoted, nested}
use jsonifier.JsonIterator.Skip.Values.{skip_value-IsValue}
use jsonifier.JsonIterator.Skip.Reports.{Reports, skip_value-Reports}
use jsonifier.JsonIterator.Iterate.{parsed, refuse, narrow, iterate_number}
use jsonifier.JsonIterator.Iterate.Numbers.{iterate_number-IsNumber}
use jsonifier.JsonIterator.Session.{
  Container, Session, begins, opens_array, ends_array, array, Agrees, Session-Agrees,
}
use jsonifier.JsonIterator.Session.Done.{check_if_done_impl-Session, start_at_max_depth}
use jsonifier.Codec.{Fits, Codec}
use jsonifier.Codec.Scalars.{number_codec}
use jsonifier.Codec.Layout.{blit_with_overflow_lem}
use jsonifier.Codec.Vectors.{vector_codec, parse_vector-serialize_vector}

abbrev options : ParseOptions
options = record { minified = false; null_terminated = true; max_depth = 2 }

abbrev layout : SerializeOptions
layout = record { prettify = true; indent_size = 1; indent_char = b' ' }

abbrev at : Bytes → JsonIterator
at s = record {
  root_iter = s;
  iter = s;
  current_object_depth = 0;
  current_array_depth = 0;
  errors = [];
}

comma-Ends : Ends (codes ",")
comma-Ends = record { no_digit = refl; no_exp_frac = refl }

fits : Fits options layout
unfolding whitespace_table
fits = inr (refl, refl)

space-IsBlank : IsBlank options (codes " ")
unfolding whitespace_table
space-IsBlank = ((refl, tt), inl refl)

abbrev numbers : Codec options (List ℕ)
numbers = vector_codec options layout fits (number_codec options) 0 (λ st. 7 ∷ [])

abbrev vectors : List (List ℕ)
vectors = (1 ∷ 23 ∷ []) ∷ [] ∷ []

two_levels : HasRoom options (suc numbers.levels) (at [])
unfolding vector_codec number_codec
two_levels = record { narrow = omega arith; room = omega arith }

parse_vector-serialize_vector_example :
    parse_vector options numbers.parse []
      (λ st. (9 ∷ []) ∷ [])
      (move_to
        (at [])
        (codes " " ++ (serialize_vector layout numbers.serialize 0 vectors ++ codes ",")))
    ≡ parsed vectors (move_to (at []) (codes ","))
unfolding vector_codec number_codec
parse_vector-serialize_vector_example =
    parse_vector-serialize_vector options layout fits numbers [] (λ st. (9 ∷ []) ∷ []) 0 (at [])
      (codes ",") two_levels (codes " ") vectors space-IsBlank (omega arith)

-- `"}\""`, and the object `{"}\"" : [1]}`
abbrev key : List Item
key = plain b'}' ∷ letter b'"' ∷ []

key-AreItems : All IsItem key
unfolding escape_map
key-AreItems = omega arith

skip_string-string_parser_example :
    skip_string options (at (b'"' ∷ string_text key (codes ":1")))
    ≡ (true, move_to (at (b'"' ∷ string_text key (codes ":1"))) (codes ":1"))
skip_string-string_parser_example =
    skip_string-string_parser options (4 ∷ []) (at (b'"' ∷ string_text key (codes ":1")))
      (meaning key) (codes "\":1")
      (string_parser-Items (4 ∷ []) (omega arith) key (codes ":1") key-AreItems)

key_text : string_text key [] ≡ codes "}\\\"\""
key_text = refl

skip_string-closing_quote_example :
    skip_string options (at (codes "\"a\\\"b"))
    ≡ string_outcome
        (at (codes "\"a\\\"b"))
        (skip_string_impl (codes "a\\\"b"))
        (closing_quote false (codes "a\\\"b"))
skip_string-closing_quote_example = skip_string-closing_quote options (at (codes "\"a\\\"b"))

-- the only quote behind the first is escaped
never_closed : closing_quote false (codes "a\\\"b") ≡ none
unfolding closing_quote
never_closed = refl

abbrev object_text : Bytes
object_text =
    b'{' ∷ ((b'"' ∷ string_text key (b':' ∷ b'[' ∷ (codes "1" ++ b']' ∷ []))) ++ b'}' ∷ [])

object_text-IsValue : IsValue object_text
object_text-IsValue = container (inl refl) (inl refl) (
    quoted key key-AreItems (
      other (omega arith) (
        nested {i = codes "1"} {s = []} (inr refl) (inr refl) (other (omega arith) nothing)
          nothing)))

skip_value-IsValue_example :
    skip_value options (move_to (at []) (codes " " ++ (object_text ++ codes " , 2")))
    ≡ (true, move_to (at []) (codes " , 2"))
unfolding whitespace_table
skip_value-IsValue_example =
    skip_value-IsValue options (at []) (codes " ") object_text (codes " , 2") space-IsBlank
      object_text-IsValue (inr (inr (inr refl))) (omega arith)

skip_value-Reports_example : Reports (at (codes "[\"1]")) (skip_value options (at (codes "[\"1]")))
skip_value-Reports_example = skip_value-Reports options (at (codes "[\"1]"))

skip_whitespace-trim_start_example :
    skip_whitespace (codes "\n           1") ≡ trim_start (codes "\n           1")
skip_whitespace-trim_start_example = skip_whitespace-trim_start (codes "\n           1")

trimmed : trim_start (codes "\n           1") ≡ codes "1"
unfolding trim_start whitespace_table
trimmed = refl

iterate_number-IsNumber_example :
    iterate_number options 8 (move_to (at []) (codes " " ++ (codes "300" ++ codes ","))) ≡ (
      if ltb (value 0 (codes "300")) (2 ^ 64)
      then parsed (narrow 8 (value 0 (codes "300"))) (move_to (at []) (codes ","))
      else refuse invalid_number_value (move_to (at []) (codes "300" ++ codes ",")))
iterate_number-IsNumber_example =
    iterate_number-IsNumber options 8 (at []) (codes " ") (codes "300") (codes ",") space-IsBlank
      (omega arith) comma-Ends

-- 300 is stored as 44 in eight bits, with no error
narrowed : narrow 8 (value 0 (codes "300")) ≡ 44
unfolding narrow
narrowed = refl

blit_with_overflow_lem_example :
    blit_with_overflow layout (codes "\n") 11 ≡ codes "\n" ++ replicate 11 b' '
blit_with_overflow_lem_example = blit_with_overflow_lem layout (codes "\n") 11

-- two arrays inside each other, and the end of the inner one
abbrev brackets : Bytes
brackets = codes "[[]] \n"

abbrev inside : ℕ → Bytes → JsonIterator
inside n s = record {
  root_iter = brackets;
  iter = s;
  current_object_depth = 0;
  current_array_depth = n;
  errors = [];
}

no-IsBlank : IsBlank options []
no-IsBlank = (tt, inr refl)

outer_open : Session options brackets (array ∷ []) (inside 1 (codes "[]] \n"))
unfolding json_iterator
outer_open = opens_array begins (
    array_start_lem options (at brackets) [] (codes "[]] \n") no-IsBlank
      (record { narrow = omega arith; room = omega arith }))

inner_open : Session options brackets (array ∷ array ∷ []) (inside 2 (codes "]] \n"))
inner_open = opens_array outer_open (
    array_start_lem options (inside 1 (codes "[]] \n")) [] (codes "]] \n") no-IsBlank
      (record { narrow = omega arith; room = omega arith }))

Session-Agrees_example : Agrees options (array ∷ array ∷ []) (inside 2 (codes "]] \n"))
Session-Agrees_example = Session-Agrees options brackets (omega arith) inner_open

start_at_max_depth_example :
    ((object_start options (inside 2 (codes "]] \n"))).0 ≡ false)
    × ((array_start options (inside 2 (codes "]] \n"))).0 ≡ false)
start_at_max_depth_example =
    start_at_max_depth options brackets (array ∷ array ∷ []) (inside 2 (codes "]] \n"))
      (omega arith) inner_open refl

all_closed : Session options brackets [] (inside 0 (codes " \n"))
all_closed =
    ends_array
      (ends_array inner_open (
        array_maybe_end_yes options (inside 1 (codes "]] \n")) [] (codes "] \n") no-IsBlank
          (omega arith)))
      (array_maybe_end_yes options (inside 0 (codes "] \n")) [] (codes " \n") no-IsBlank
        (omega arith))

done : check_if_done_impl options (inside 0 (codes " \n")) ≡ (true, inside 0 [])
unfolding check_if_done_impl white skip_whitespace skip_loop whitespace_table
done = refl

abbrev no_containers : List Container
no_containers = []

check_if_done_impl-Session_example :
    (no_containers ≡ [])
    × IsBlank options (codes " \n")
    × (inside 0 [] ≡ move_to (inside 0 (codes " \n")) [])
check_if_done_impl-Session_example =
    check_if_done_impl-Session options brackets no_containers (inside 0 (codes " \n")) (inside 0 [])
      (omega arith) all_closed done

abbrev scores : List (Bytes × ℕ)
scores = (codes "a\"b", 7) ∷ (codes "", 12) ∷ []

abbrev store_last : List (Bytes × ℕ) → Bytes → ℕ → List (Bytes × ℕ)
store_last m k v = m ++ (k, v) ∷ []

abbrev value_at : List (Bytes × ℕ) → Bytes → ℕ
value_at m k = 0

one_level : HasRoom options (suc (number_codec options).levels) (at [])
unfolding number_codec
one_level = record { narrow = omega arith; room = omega arith }

parse_map-serialize_map_example :
    parse_map options
      (λ old st. parse_string options (4 ∷ []) st)
      (number_codec options).parse
      value_at
      store_last
      (λ st. codes "old")
      []
      (move_to (at []) (
        codes " "
        ++ (serialize_map layout
              (λ i k. write_string (8 ∷ []) k)
              (number_codec options).serialize
              0
              scores
            ++ codes ",")))
    ≡ parsed (puts store_last [] scores) (move_to (at []) (codes ","))
unfolding number_codec
parse_map-serialize_map_example =
    parse_map-serialize_map options layout fits (8 ∷ []) (4 ∷ []) (omega arith) (omega arith)
      (number_codec options) value_at store_last (λ st. codes "old") 0 (at []) (codes ",") one_level
      (codes " ") [] scores space-IsBlank (omega arith)

scores_put : puts store_last [] scores ≡ scores
scores_put = refl

abbrev member_of : Bytes → Member
member_of v = record {
  before = codes " ";
  key = key;
  before_colon = [];
  before_value = codes " ";
  value = v;
  behind = codes " ";
}

member_of-IsMember : (v : Bytes) → IsValue v → length v < 2 ^ 64 → IsMember options (member_of v)
member_of-IsMember v h l = record {
  before = space-IsBlank;
  key = key-AreItems;
  before_colon = no-IsBlank;
  before_value = space-IsBlank;
  value = h;
  short = l;
  behind = space-IsBlank;
}

skip_remaining_object-members_text_example :
    skip_remaining_object options (
      in_object (
        move_to (at []) (
          codes " "
          ++ members_text (member_of object_text) (member_of object_text ∷ []) (codes ", 3"))))
    ≡ (true, move_to (at []) (codes ", 3"))
skip_remaining_object-members_text_example =
    skip_remaining_object-members_text options (at []) (codes ", 3") (omega arith) (codes " ")
      (member_of object_text) (member_of object_text ∷ []) space-IsBlank
      (
        member_of-IsMember object_text object_text-IsValue (omega arith),
        (member_of-IsMember object_text object_text-IsValue (omega arith), tt),
      )
