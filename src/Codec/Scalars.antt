-- ===== src/Codec/Scalars.antt =====
-- include/jsonifier-incl/serializing/serialize_impl.hpp and include/jsonifier-incl/parsing/parse_impl.hpp
-- for the unsigned numbers of 64 bits, the booleans and the strings.
use jsonifier.Prelude.{
  ℕ, suc, ◌^◌, ◌<◌, ◌≡◌, refl, ap, ◌∙◌, Bool, true, false, List, [], ◌∷◌, ◌++◌, leb, if◌then◌else◌,
  Bytes, codes, next, All, length, arith, if_both, lt→ltb,
}
use jsonifier.ToChars.{to_chars}
use jsonifier.ParseUint.Number.{IsNumber, Ends}
use jsonifier.ParseUint.Exponent.{to_chars-IsNumber, value-to_chars}
use jsonifier.Minifier.{whitespace_table}
use jsonifier.StringWriter.{write_string, string_serializer}
use jsonifier.StringWriter.Blocks.{Sizes}
use jsonifier.StringReader.{ended, string_parser}
use jsonifier.StringRoundTrip.{IsText, string_parser-write_string}
use jsonifier.Serializer.{serialize_bool, stored_bytes}
use jsonifier.JsonIterator.{
  ParseOptions, JsonIterator, move_to, is_before_end, check_char, check_char_unsafe, count_depth,
}
use jsonifier.JsonIterator.White.{IsBlank, white-IsBlank}
use jsonifier.JsonIterator.Skip.Grammar.{EndsValue}
use jsonifier.JsonIterator.Iterate.{
  parsed, narrow, iterate_number, iterate_bool, iterate_string, after_string, is_true, is_false,
  compare_string_as_int,
}
use jsonifier.JsonIterator.Iterate.Numbers.{iterate_number-IsNumber, no_white-IsDigit}
use jsonifier.Parser.{parse_string, after_check}
use jsonifier.Codec.{Codec, StartsValue}

EndsValue-Ends : (rest : Bytes) → EndsValue rest → Ends rest
unfolding whitespace_table
EndsValue-Ends [] e = record { no_digit = refl; no_exp_frac = refl }
EndsValue-Ends (c ∷ cs) e = record { no_digit = ground arith; no_exp_frac = ground arith }

pub number_starts : (ds rest : Bytes) → IsNumber ds → StartsValue (ds ++ rest)
number_starts [] rest h = elim h [ ]
number_starts (c ∷ []) rest h = (no_white-IsDigit c h, ground arith, ground arith, refl)
number_starts (c ∷ d ∷ ds) rest (h, n, hs) =
    (no_white-IsDigit c h, ground arith, ground arith, refl)

module _ (o : ParseOptions) where
  pub number_reads :
      (st : JsonIterator) (v : ℕ) (blank rest : Bytes)
      → IsBlank o blank
      → v < 2 ^ 64
      → EndsValue rest
      → iterate_number o 64 (move_to st (blank ++ (to_chars v ++ rest)))
        ≡ parsed v (move_to st rest)
  unfolding narrow
  number_reads st v blank rest hb h e =
      iterate_number-IsNumber o 64 st blank (to_chars v) rest hb (to_chars-IsNumber v h)
        (EndsValue-Ends rest e)
      ∙ rw (value-to_chars v h, lt→ltb v (2 ^ 64) h) refl

  unfoldable pub number_codec : Codec o ℕ
  number_codec = record {
    serialize = λ n v. to_chars v;
    parse = λ old st. iterate_number o 64 st;
    IsValid = λ v. v < 2 ^ 64;
    levels = 0;
    starts = λ n v rest h. number_starts (to_chars v) rest (to_chars-IsNumber v h);
    reads = λ st n v old blank rest hb h e room. number_reads st v blank rest hb h e;
  }

-- `serialize_bool` on both values: the constant and the difference hold the two literal names.
pub serialize_bool_lem : (b : Bool) → serialize_bool b ≡ (if b then codes "true" else codes "false")
unfolding serialize_bool stored_bytes
serialize_bool_lem true = refl
serialize_bool_lem false = refl

four : (n : ℕ) → leb 4 (suc (suc (suc (suc n)))) ≡ true
four n = ground arith

five : (n : ℕ) → leb 5 (suc (suc (suc (suc (suc n))))) ≡ true
five n = ground arith

is_true_lem : (rest : Bytes) → is_true (codes "true" ++ rest) ≡ true
unfolding is_true compare_string_as_int
is_true_lem rest = rw (four (length rest)) refl

no_true : (rest : Bytes) → is_true (codes "false" ++ rest) ≡ false
unfolding is_true compare_string_as_int
no_true rest = rw (four (suc (length rest))) refl

is_false_lem : (rest : Bytes) → is_false (codes "false" ++ rest) ≡ true
unfolding is_false compare_string_as_int
is_false_lem rest = rw (five (length rest)) refl

no_white_name :
    (b : Bool) (rest : Bytes) → StartsValue ((if b then codes "true" else codes "false") ++ rest)
unfolding whitespace_table
no_white_name true rest = (refl, refl, refl, refl)
no_white_name false rest = (refl, refl, refl, refl)

is_before_end_last :
    (s : Bytes) (c : ℕ) (rest : Bytes) → is_before_end ((s ++ c ∷ []) ++ rest) ≡ true
is_before_end_last [] c rest = refl
is_before_end_last (d ∷ s) c rest = refl

pub write_string_starts :
    (sizes : List ℕ) (s rest : Bytes)
    → write_string sizes s ++ rest ≡ b'"' ∷ next (write_string sizes s ++ rest)
unfolding write_string
write_string_starts sizes [] rest = refl
write_string_starts sizes (c ∷ cs) rest = refl

write_string_goes_on :
    (sizes : List ℕ) (s rest : Bytes) → is_before_end (next (write_string sizes s ++ rest)) ≡ true
unfolding write_string
write_string_goes_on sizes [] rest = refl
write_string_goes_on sizes (c ∷ cs) rest =
    is_before_end_last (string_serializer sizes (c ∷ cs)) b'"' rest

pub quote_starts : (s rest : Bytes) → s ≡ b'"' ∷ rest → StartsValue s
unfolding whitespace_table
quote_starts s rest e = rw e (refl, refl, refl, refl)

module _ (o : ParseOptions) where
  bool_reads :
      (st : JsonIterator) (b : Bool) (blank rest : Bytes)
      → IsBlank o blank
      → iterate_bool o (move_to st (blank ++ ((if b then codes "true" else codes "false") ++ rest)))
        ≡ parsed b (move_to st rest)
  unfolding iterate_bool
  bool_reads st true blank rest hb =
      rw (white-IsBlank o st blank (codes "true" ++ rest) hb (no_white_name true rest).0)
        (rw (is_true_lem rest) refl)
  bool_reads st false blank rest hb =
      rw (white-IsBlank o st blank (codes "false" ++ rest) hb (no_white_name false rest).0)
        (rw (no_true rest, is_false_lem rest) refl)

  pub bool_codec : Codec o Bool
  bool_codec = record {
    serialize = λ n b. serialize_bool b;
    parse = λ old st. iterate_bool o st;
    IsValid = λ b. Unit;
    levels = 0;
    starts = λ n b rest h. rw (serialize_bool_lem b) (no_white_name b rest);
    reads = λ st n b old blank rest hb h e room.
        rw (serialize_bool_lem b) (bool_reads st b blank rest hb);
  }

  check_char-quote :
      (st : JsonIterator) (s : Bytes)
      → check_char o b'"' (move_to st (b'"' ∷ s)) ≡ (true, move_to st (b'"' ∷ s))
  unfolding check_char check_char_unsafe count_depth
  check_char-quote st s =
      if_both (λ x. x ≡ (true, move_to st (b'"' ∷ s))) o.null_terminated refl refl

  iterate_string-ended :
      (reads : List ℕ) (st : JsonIterator) (s out rest : Bytes)
      → is_before_end s ≡ true
      → string_parser reads s ≡ ended out (b'"' ∷ rest)
      → iterate_string reads (move_to st (b'"' ∷ s)) ≡ parsed out (move_to st rest)
  unfolding iterate_string after_string
  iterate_string-ended reads st s out rest b e = rw (b, e) refl

  pub string_reads :
      (writes reads : List ℕ) (st : JsonIterator) (s blank rest : Bytes)
      → IsBlank o blank
      → Sizes writes
      → Sizes reads
      → All IsText s
      → parse_string o reads (move_to st (blank ++ (write_string writes s ++ rest)))
        ≡ parsed s (move_to st rest)
  unfolding parse_string after_check
  string_reads writes reads st s blank rest hb zw zr h =
      ap (λ t. parse_string o reads (move_to st (blank ++ t))) (write_string_starts writes s rest)
      ∙ ap (λ t. after_check reads (check_char o b'"' t))
          (white-IsBlank o st blank (b'"' ∷ text) hb (quote_starts (b'"' ∷ text) text refl).0)
      ∙ ap (after_check reads) (check_char-quote st text)
      ∙ iterate_string-ended reads st text s rest (write_string_goes_on writes s rest)
          (string_parser-write_string writes reads zw zr s rest h)
    where
      text : Bytes
      text = next (write_string writes s ++ rest)

  pub string_codec : (writes reads : List ℕ) → Sizes writes → Sizes reads → Codec o Bytes
  string_codec writes reads zw zr = record {
    serialize = λ n s. write_string writes s;
    parse = λ old st. parse_string o reads st;
    IsValid = All IsText;
    levels = 0;
    starts = λ n s rest h.
        quote_starts (write_string writes s ++ rest) (next (write_string writes s ++ rest))
          (write_string_starts writes s rest);
    reads =
        λ st n s old blank rest hb h e room. string_reads writes reads st s blank rest hb zw zr h;
  }
