-- ===== src/TapeTests.antt =====
-- The theorems on include/jsonifier-incl/utilities/json_iterator.hpp over a tape, and on
-- include/jsonifier-incl/parsing/validate_impl.hpp, at concrete inputs.
use jsonifier.Prelude.{inl, inr, ℕ, List, ◌≡◌, refl, true, [], ◌∷◌, Bytes, codes, arith}
use jsonifier.TapeIterator.{TapeIterator, tape_move}
use jsonifier.Validator.{validated, validate_number}
use jsonifier.Validator.Grammar.{Judged, decimal, no_exponent, validate_number-Judged}
use jsonifier.Minifier.{whitespace_table}
use jsonifier.TapeIterator.Skip.{opens, closes, tape_skip_value, tape_skip_remaining_object}
use jsonifier.TapeIterator.Skip.Values.{
  IsTapeValue, scalar, container, item, nothing, nested, tape_skip_value-IsTapeValue,
}
use jsonifier.TapeIterator.Skip.Members.{
  AreMembers, last, more, behind_object, tape_skip_remaining_object-AreMembers,
}
use jsonifier.TapeIterator.Skip.Reports.{TapeReports, tape_skip_remaining_object-TapeReports}

abbrev sample : Bytes
sample = codes "\"a\":[1,[2]],\"b\":3},4"

abbrev at_start : TapeIterator
at_start = record {
  string_root_iter = sample;
  iter = [];
  current_array_depth = 0;
  current_object_depth = 1;
  errors = [];
}

array-IsTapeValue : IsTapeValue sample (4 ∷ 5 ∷ 6 ∷ 7 ∷ 8 ∷ 9 ∷ 10 ∷ [])
unfolding opens closes
array-IsTapeValue =
    container 4 10 refl
      (item (refl, refl)
        (item (refl, refl) (nested 7 9 refl (item (refl, refl) nothing) (refl, refl) nothing)))
      (refl, refl)

number-IsTapeValue : IsTapeValue sample (16 ∷ [])
unfolding opens closes
number-IsTapeValue = scalar (refl, refl)

tape_skip_value-IsTapeValue_example :
    tape_skip_value (tape_move at_start (4 ∷ 5 ∷ 6 ∷ 7 ∷ 8 ∷ 9 ∷ 10 ∷ 11 ∷ []))
    ≡ (true, tape_move at_start (11 ∷ []))
tape_skip_value-IsTapeValue_example =
    tape_skip_value-IsTapeValue at_start (4 ∷ 5 ∷ 6 ∷ 7 ∷ 8 ∷ 9 ∷ 10 ∷ []) (11 ∷ [])
      array-IsTapeValue (omega arith)

abbrev members_tape : List ℕ
members_tape = 0 ∷ 3 ∷ 4 ∷ 5 ∷ 6 ∷ 7 ∷ 8 ∷ 9 ∷ 10 ∷ 11 ∷ 12 ∷ 15 ∷ 16 ∷ 17 ∷ []

sample-AreMembers : AreMembers sample members_tape
sample-AreMembers =
    more 0 3 11 refl refl array-IsTapeValue refl (last 12 15 17 refl refl number-IsTapeValue refl)

tape_skip_remaining_object-AreMembers_example :
    tape_skip_remaining_object 256 (
      tape_move at_start
        (0 ∷ 3 ∷ 4 ∷ 5 ∷ 6 ∷ 7 ∷ 8 ∷ 9 ∷ 10 ∷ 11 ∷ 12 ∷ 15 ∷ 16 ∷ 17 ∷ 18 ∷ 19 ∷ []))
    ≡ (true, behind_object at_start (18 ∷ 19 ∷ []))
tape_skip_remaining_object-AreMembers_example =
    tape_skip_remaining_object-AreMembers 256 at_start members_tape (18 ∷ 19 ∷ []) sample-AreMembers
      (omega arith)

abbrev number_sample : TapeIterator
number_sample = record {
  string_root_iter = codes "[-12.5]";
  iter = [];
  current_array_depth = 1;
  current_object_depth = 0;
  errors = [];
}

number_sample-Judged : Judged (codes "-12.5]") true
unfolding whitespace_table
number_sample-Judged =
    decimal true (codes "12") b'5' [] (codes "]") (codes "]")
      (omega arith, omega arith, (omega arith, tt)) ((omega arith, tt)) no_exponent
      (inr (inr (inl refl)))

validate_number-Judged_example :
    validate_number (tape_move number_sample (1 ∷ 6 ∷ []))
    ≡ validated true (tape_move number_sample (6 ∷ []))
validate_number-Judged_example =
    validate_number-Judged number_sample 1 6 [] (codes "-12.5]") true refl number_sample-Judged

tape_skip_remaining_object-TapeReports_example :
    TapeReports
      (tape_move at_start (0 ∷ 3 ∷ 4 ∷ []))
      (tape_skip_remaining_object 256 (tape_move at_start (0 ∷ 3 ∷ 4 ∷ [])))
tape_skip_remaining_object-TapeReports_example =
    tape_skip_remaining_object-TapeReports 256 (tape_move at_start (0 ∷ 3 ∷ 4 ∷ []))
