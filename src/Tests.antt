-- ===== src/Tests.antt =====
-- The theorems at concrete inputs, and short runs of the definitions.
use jsonifier.StringReader.{starved}
use jsonifier.Prelude.{
  pos, ◌≢◌, ◌%◌, ◌^◌, ◌≡◌, refl, inl, inr, [], ◌∷◌, ◌++◌, Bytes, codes, arith, next, ltb,
  if◌then◌else◌, negsuc, some, true,
}
use jsonifier.Decimal.{IsDecimal, value}
use jsonifier.ToChars.{to_chars}
use jsonifier.ToChars.Exact.{to_chars-IsDecimal}
use jsonifier.ToChars.Signed.{to_chars_signed, magnitude, absolute, magnitude-absolute}
use jsonifier.ParseUint
use jsonifier.ParseUint.Number.{parse_int-IsNumber, Ends}
use jsonifier.ParseUint.Exponent.{parse_int-to_chars, parse_int-exponent, plus, sign_text, scaled}
use jsonifier.ParseInt
use jsonifier.ParseInt.Exact.{parse_int-exact, minus_text, exact_or_null}
use jsonifier.ParseInt.RoundTrip.{parse_int-to_chars_signed}
use jsonifier.CodePoint.{hex_value, handle_unicode_code_point, wrote, refused, code_point_to_utf8}
use jsonifier.CodePoint.Utf8.{utf8, utf8_decode, utf8_decode-code_point_to_utf8}
use jsonifier.CodePoint.Unicode.{
  spells, paired, handle_unicode_code_point-Escapes, handle_unicode_code_point_lone,
}
use jsonifier.StringWriter.{string_serializer, write_string, short_impl}
use jsonifier.StringWriter.Blocks.{string_serializer-short_impl}
use jsonifier.StringReader.{escape_map, string_parser, ended}
use jsonifier.StringReader.Items.{plain, letter, string_text, meaning}
use jsonifier.StringReader.Blocks.{string_parser-Items}
use jsonifier.StringReader.Total.{string_parser-total}
use jsonifier.Prettifier
use jsonifier.Minifier.{whitespace_table, minify_json, minify_loop, written}
use jsonifier.Minifier.Compact.{
  Spaced, IsSpaced, laid, compact, text, digits, literal, mark, minify_json-compact,
}
use jsonifier.Minifier.Layout.{HasTokens, ElementsHaveTokens, MembersHaveTokens}
use jsonifier.Minifier.Prettified.{pretty_tape, minify_json-impl}
use jsonifier.StringRoundTrip.{string_parser-write_string}
use jsonifier.JsonTypes.{json_types}
use jsonifier.JsonTypes.{byte_in, slice, slice_in}
use jsonifier.Prettifier.{
  round_at, emit_piece, open_before, PrettifyOptions, impl, returned, loop, round, open_container,
  open_sized, close_container, grow, after_round,
}
use jsonifier.Prettifier.Document.{
  Json, scalar, array, object, element, no_elements, member, no_members, IsDocument, AreElements,
  AreMembers, tokens, pretty,
}
use jsonifier.JsonTypes.Tape.{join, positions}
use jsonifier.Prettifier.Layout.{impl-pretty}

abbrev comma : Bytes
comma = codes ","

Ends-comma : Ends comma
Ends-comma = record { no_digit = refl; no_exp_frac = refl }

string_parser-write_string_example :
    string_parser (2 ∷ []) (next (write_string (4 ∷ 2 ∷ []) (codes "a\n\"b\\ccc") ++ comma))
    ≡ ended (codes "a\n\"b\\ccc") (b'"' ∷ comma)
string_parser-write_string_example =
    string_parser-write_string (4 ∷ 2 ∷ []) (2 ∷ []) (omega arith) (omega arith)
      (codes "a\n\"b\\ccc") comma (omega arith)

parse_int-to_chars_signed_example :
    ParseInt.parse_int (to_chars_signed (negsuc 9223372036854775807) ++ comma)
    ≡ ParseInt.done (negsuc 9223372036854775807) comma
parse_int-to_chars_signed_example =
    parse_int-to_chars_signed (negsuc 9223372036854775807) comma (omega arith) Ends-comma

parse_int-to_chars_example :
    ParseUint.parse_int (to_chars 18446744073709551615 ++ comma)
    ≡ ParseUint.done 18446744073709551615 comma
parse_int-to_chars_example = parse_int-to_chars 18446744073709551615 comma (omega arith) Ends-comma

abbrev options : PrettifyOptions
options = record { indent_size = 2; indent_char = b' ' }

-- {"a":[1,true,[]],"b":{"c":null}}
abbrev document : Json
document = object (
    member (codes "\"a\"")
      (array (
        element (scalar (codes "1"))
          (element (scalar (codes "true")) (element (array no_elements) no_elements))))
      (member (codes "\"b\"") (object (member (codes "\"c\"") (scalar (codes "null")) no_members))
        no_members))

impl-pretty_example :
    impl options (join (tokens document [])) (positions 0 (tokens document []))
    ≡ returned (pretty options 0 document)
unfolding json_types IsDocument AreElements AreMembers tokens
impl-pretty_example =
    impl-pretty options document
      (
        refl,
        (inl (inr refl), (inr (inr (inl refl)), (tt, tt))),
        (refl, (refl, inr (inl refl), tt), tt),
      )
      (omega arith)

-- its text
pretty_text :
    pretty options 0 document
    ≡ codes "{\n  \"a\": [\n    1,\n    true,\n    []\n  ],\n  \"b\": {\n    \"c\": null\n  }\n}"
unfolding pretty
pretty_text = refl

string_parser-Items_example :
    string_parser (4 ∷ []) (string_text (plain b'a' ∷ letter b'n' ∷ plain b'b' ∷ []) comma)
    ≡ ended (meaning (plain b'a' ∷ letter b'n' ∷ plain b'b' ∷ [])) (b'"' ∷ comma)
unfolding escape_map
string_parser-Items_example =
    string_parser-Items (4 ∷ []) (omega arith) (plain b'a' ∷ letter b'n' ∷ plain b'b' ∷ []) comma
      (omega arith)

string_serializer-short_impl_example :
    string_serializer (4 ∷ 2 ∷ []) (codes "ab\"cdef") ≡ short_impl (codes "ab\"cdef")
string_serializer-short_impl_example =
    string_serializer-short_impl (4 ∷ 2 ∷ []) (omega arith) (codes "ab\"cdef") (omega arith)

parse_int-IsNumber_example : ParseUint.parse_int (codes "18446744073709551616" ++ comma) ≡ (
    if ltb (value 0 (codes "18446744073709551616")) (2 ^ 64)
    then ParseUint.done (value 0 (codes "18446744073709551616")) comma
    else ParseUint.null)
parse_int-IsNumber_example =
    parse_int-IsNumber (codes "18446744073709551616") comma (omega arith) Ends-comma

parse_int-exact_example :
    ParseInt.parse_int (minus_text true ++ (codes "9223372036854775808" ++ comma))
    ≡ exact_or_null true (value 0 (codes "9223372036854775808")) comma
parse_int-exact_example =
    parse_int-exact true (codes "9223372036854775808") comma (omega arith) (omega arith) (inl refl)

parse_int-exponent_example :
    ParseUint.parse_int (codes "12" ++ b'e' ∷ (sign_text plus ++ b'0' ∷ (codes "3" ++ comma)))
    ≡ scaled plus (value 0 (codes "12")) (value 0 (b'0' ∷ codes "3") % 2 ^ 64) comma
parse_int-exponent_example =
    parse_int-exponent (codes "12") b'e' plus b'0' (codes "3") comma (omega arith) (omega arith)
      refl (omega arith) refl

to_chars-IsDecimal_example : IsDecimal 1234567890123 (to_chars 1234567890123)
to_chars-IsDecimal_example = to_chars-IsDecimal 1234567890123 (omega arith)

magnitude-absolute_example : magnitude (negsuc 41) ≡ absolute (negsuc 41)
magnitude-absolute_example = magnitude-absolute (negsuc 41) (omega arith)

-- U+1F600
handle_unicode_code_point-Escapes_example :
    handle_unicode_code_point (codes "\\uD83D\\uDE00" ++ comma) ≡ wrote (utf8 0x1F600) comma
unfolding hex_value
handle_unicode_code_point-Escapes_example =
    handle_unicode_code_point-Escapes 0x1F600 comma (omega arith, inr (omega arith))
      (paired (omega arith) (spells b'D' b'8' b'3' b'D' refl refl refl refl refl)
        (spells b'D' b'E' b'0' b'0' refl refl refl refl refl))

handle_unicode_code_point_lone_example :
    handle_unicode_code_point (b'\\' ∷ b'u' ∷ (codes "DC00" ++ comma)) ≡ refused
unfolding hex_value
handle_unicode_code_point_lone_example =
    handle_unicode_code_point_lone 0xDC00 comma (omega arith) (omega arith)
      (spells b'D' b'C' b'0' b'0' refl refl refl refl refl) (omega arith)

utf8_decode-code_point_to_utf8_example :
    utf8_decode (code_point_to_utf8 0x20AC ++ comma) ≡ some (0x20AC, comma)
utf8_decode-code_point_to_utf8_example =
    utf8_decode-code_point_to_utf8 0x20AC comma (omega arith, inl (omega arith))

-- an empty object leaves the indentation of the lines behind it too deep
empty_object :
    impl options (codes "[{},1]") (0 ∷ 1 ∷ 2 ∷ 3 ∷ 4 ∷ 5 ∷ [])
    ≡ returned (codes "[\n  {},\n    1\n  ]")
unfolding impl loop round round_at emit_piece open_before byte_in slice slice_in json_types
    open_container open_sized close_container grow after_round
empty_object = refl

-- `{ "a b" : 12, "c":[true ]}` behind a line break
abbrev spaced : Spaced
spaced =
    (codes "{", codes " ")
    ∷ (codes "\"a b\"", codes " ")
    ∷ (codes ":", codes " ")
    ∷ (codes "12", [])
    ∷ (codes ",", codes " ")
    ∷ (codes "\"c\"", [])
    ∷ (codes ":", [])
    ∷ (codes "[", [])
    ∷ (codes "true", codes " ")
    ∷ (codes "]", [])
    ∷ []

spaced-IsSpaced : IsSpaced spaced
unfolding whitespace_table json_types
spaced-IsSpaced = (
  (mark b'{' (omega arith), (refl, tt)),
  (
    (text (codes "a b"), (refl, tt)),
    (
      (mark b':' (omega arith), (refl, tt)),
      (
        (digits b'1' (codes "2") refl (refl, tt), tt),
        (
          (mark b',' (omega arith), (refl, tt)),
          (
            (text (codes "c"), tt),
            (
              (mark b':' (omega arith), tt),
              (
                (mark b'[' (omega arith), tt),
                (
                  (literal (codes "true") (inr (inl refl)), (refl, tt)),
                  ((mark b']' (omega arith), tt), tt),
                ),
              ),
            ),
          ),
        ),
      ),
    ),
  ),
)

minify_json-compact_example :
    minify_json 0
      (codes "\n" ++ join (laid spaced b'}' (codes "\n")))
      (positions 1 (laid spaced b'}' (codes "\n")))
    ≡ written (compact spaced ++ b'}' ∷ [])
minify_json-compact_example =
    minify_json-compact 0 (codes "\n") spaced b'}' (codes "\n") spaced-IsSpaced

compact_text : compact spaced ++ b'}' ∷ [] ≡ codes "{\"a b\":12,\"c\":[true]}"
compact_text = refl

-- a scalar by itself is cut to its first byte
minified_scalar : minify_json 0 (codes "123") (0 ∷ []) ≡ written (codes "1")
unfolding minify_json minify_loop
minified_scalar = refl

string_parser-total_example : string_parser (2 ∷ []) (codes "ab\\u00") ≢ starved
string_parser-total_example = string_parser-total (2 ∷ []) (omega arith) (codes "ab\\u00")

-- behind nineteen digits nothing is tested
twenty_digits :
    ParseInt.parse_int (codes "11111111111111111112")
    ≡ ParseInt.done (pos 1111111111111111111) (codes "2")
unfolding ParseInt.parse_int ParseInt.parse_integer ParseInt.put_sign ParseInt.parse_magnitude
    ParseInt.blocks ParseInt.last_block
twenty_digits = refl

-- `[1,[],{"k":true}]`
abbrev small_document : Json
small_document = array (
    element (scalar (codes "1")) (
      element (array no_elements)
        (element (object (member (codes "\"k\"") (scalar (codes "true")) no_members)) no_elements)))

small_document-HasTokens : HasTokens small_document
unfolding HasTokens ElementsHaveTokens MembersHaveTokens json_types
small_document-HasTokens = (
  digits b'1' [] refl tt,
  (tt, ((text (codes "k"), literal (codes "true") (inr (inl refl)), tt), tt)),
)

options-white : whitespace_table options.indent_char ≡ true
unfolding whitespace_table
options-white = refl

minify_json-impl_example :
    (impl options (join (tokens small_document [])) (positions 0 (tokens small_document []))
      ≡ returned (pretty options 0 small_document))
    × (minify_json 0
          (pretty options 0 small_document)
          (pretty_tape options options-white small_document)
        ≡ written (join (tokens small_document [])))
unfolding json_types IsDocument AreElements AreMembers tokens
minify_json-impl_example =
    minify_json-impl options options-white 0 small_document tt small_document-HasTokens
      (inl (inr refl), (tt, ((refl, inr (inr (inl refl)), tt), tt))) (omega arith)
