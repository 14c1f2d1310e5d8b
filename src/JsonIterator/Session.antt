-- ===== src/JsonIterator/Session.antt =====
-- include/jsonifier-incl/parsing/parse_impl.hpp calls include/jsonifier-incl/utilities/json_iterator.hpp:
-- the containers that a parse has open, and the two depths of the iterator.
pub mod Done
use mathlib.Core.Path.{subst}
use jsonifier.Prelude.{
  ℕ, zero, suc, ◌+◌, ◌^◌, ◌≤◌, ◌<◌, ◌≡◌, refl, sym, ap, ◌∙◌, Bool, true, false, List, [], ◌∷◌, ◌==◌,
  if◌then◌else◌, Bytes, peek, length, arith, Bool-cases, inl, inr, if_both, add64, sub64,
}
use jsonifier.ParseUint.{ParseResult, done, null, undefined, parse_int}
use jsonifier.StringReader.{ReadResult, ended, more, failed, starved, string_parser}
use jsonifier.JsonIterator.{
  ParseOptions, JsonIterator, Outcome, json_iterator, move_to, reject, count_depth, is_before_end,
  missing_object_start, missing_array_start, missing_comma, missing_colon,
}
use jsonifier.JsonIterator.Marks.{
  white, object_start, array_start, object_maybe_end, array_maybe_end, SepResult, cont, ended,
  error, collect_object_separator, collect_array_separator, collect_object_comma,
  collect_array_comma, collect_object_colon, check_if_done_impl,
}
use jsonifier.JsonIterator.Depth.{
  Counts, Effect, increment_if_equals-Effect, or_reject-Effect, SeparatorEffect,
  collect_object_separator-SeparatorEffect, collect_array_separator-SeparatorEffect,
}
use jsonifier.JsonIterator.Skip.{skip_value}
use jsonifier.JsonIterator.Skip.Reports.{Keeps, Reports, skip_value-Reports}
use jsonifier.JsonIterator.Iterate.Reports.{
  ParsedReports, iterate_number-ParsedReports, iterate_bool-ParsedReports, iterate_null-Reports,
  iterate_string-ParsedReports,
}
use jsonifier.JsonIterator.Iterate.{
  Parsed, parsed, iterate_number, iterate_bool, iterate_string, iterate_null,
}

-- An array or an object that is open.
pub data Container : Type 0 where
  array object : Container

abbrev pub objects : List Container → ℕ
objects [] = 0
objects (object ∷ cs) = suc (objects cs)
objects (array ∷ cs) = objects cs

abbrev pub arrays : List Container → ℕ
arrays [] = 0
arrays (object ∷ cs) = arrays cs
arrays (array ∷ cs) = suc (arrays cs)

-- The calls of a parse that goes on, with the containers open behind each, the innermost first: the
-- brackets and separators of a container are asked for only where it is the innermost.
pub data Session (o : ParseOptions) (text : Bytes) : List Container → JsonIterator → Type 0 where
  begins : Session o text [] (json_iterator text)
  opens_object :
      {cs : List Container} {st st' : JsonIterator}
      → Session o text cs st
      → object_start o st ≡ (true, st')
      → Session o text (object ∷ cs) st'
  opens_array :
      {cs : List Container} {st st' : JsonIterator}
      → Session o text cs st
      → array_start o st ≡ (true, st')
      → Session o text (array ∷ cs) st'
  ends_object :
      {cs : List Container} {st st' : JsonIterator}
      → Session o text (object ∷ cs) st
      → object_maybe_end o st ≡ (true, st')
      → Session o text cs st'
  ends_array :
      {cs : List Container} {st st' : JsonIterator}
      → Session o text (array ∷ cs) st
      → array_maybe_end o st ≡ (true, st')
      → Session o text cs st'
  stays_in_object :
      {cs : List Container} {st st' : JsonIterator}
      → Session o text (object ∷ cs) st
      → object_maybe_end o st ≡ (false, st')
      → Session o text (object ∷ cs) st'
  stays_in_array :
      {cs : List Container} {st st' : JsonIterator}
      → Session o text (array ∷ cs) st
      → array_maybe_end o st ≡ (false, st')
      → Session o text (array ∷ cs) st'
  separates_object :
      {cs : List Container} {st st' : JsonIterator}
      → Session o text (object ∷ cs) st
      → collect_object_separator o st ≡ (cont, st')
      → Session o text (object ∷ cs) st'
  closes_object :
      {cs : List Container} {st st' : JsonIterator}
      → Session o text (object ∷ cs) st
      → collect_object_separator o st ≡ (ended, st')
      → Session o text cs st'
  separates_array :
      {cs : List Container} {st st' : JsonIterator}
      → Session o text (array ∷ cs) st
      → collect_array_separator o st ≡ (cont, st')
      → Session o text (array ∷ cs) st'
  closes_array :
      {cs : List Container} {st st' : JsonIterator}
      → Session o text (array ∷ cs) st
      → collect_array_separator o st ≡ (ended, st')
      → Session o text cs st'
  colon :
      {cs : List Container} {st st' : JsonIterator}
      → Session o text cs st
      → collect_object_colon o st ≡ (true, st')
      → Session o text cs st'
  comma :
      {cs : List Container} {st st' : JsonIterator}
      → Session o text cs st
      → collect_array_comma o st ≡ (true, st')
      → Session o text cs st'
  skips :
      {cs : List Container} {st st' : JsonIterator}
      → Session o text cs st
      → skip_value o st ≡ (true, st')
      → Session o text cs st'
  reads_number :
      {cs : List Container} {st st' : JsonIterator} (w v : ℕ)
      → Session o text cs st
      → iterate_number o w st ≡ parsed v st'
      → Session o text cs st'
  reads_string :
      {cs : List Container} {st st' : JsonIterator} (sizes : List ℕ) (s : Bytes)
      → Session o text cs st
      → iterate_string sizes st ≡ parsed s st'
      → Session o text cs st'
  reads_bool :
      {cs : List Container} {st st' : JsonIterator} (b : Bool)
      → Session o text cs st
      → iterate_bool o st ≡ parsed b st'
      → Session o text cs st'
  reads_null :
      {cs : List Container} {st st' : JsonIterator}
      → Session o text cs st
      → iterate_null o st ≡ (true, st')
      → Session o text cs st'

-- The depths count the containers, and the greatest depth bounds them.
pub record Agrees (o : ParseOptions) (cs : List Container) (st : JsonIterator) : Type 0 where
  pub object_depth : st.current_object_depth ≡ objects cs
  pub array_depth : st.current_array_depth ≡ arrays cs
  pub bounded : objects cs + arrays cs ≤ o.max_depth

begins-Agrees : (o : ParseOptions) (text : Bytes) → Agrees o [] (json_iterator text)
unfolding json_iterator
begins-Agrees o text = record { object_depth = refl; array_depth = refl; bounded = omega arith }

abbrev SameDepths : JsonIterator → JsonIterator → Type 0
SameDepths st st' =
    (st'.current_object_depth ≡ st.current_object_depth)
    × (st'.current_array_depth ≡ st.current_array_depth)

Keeps-SameDepths : (st st' : JsonIterator) → Keeps st st' → SameDepths st st'
Keeps-SameDepths st st' k = (k.objects, k.arrays)

colon_keeps :
    (o : ParseOptions) (st st' : JsonIterator)
    → collect_object_colon o st ≡ (true, st')
    → SameDepths st st'
unfolding collect_object_colon count_depth
colon_keeps o st st' e =
    let k =
      subst (Effect o b':' st) e
        (or_reject-Effect o b':' missing_colon st _ (increment_if_equals-Effect o b':' st)) in
    (k.1.objects, k.1.arrays)

comma_keeps :
    (o : ParseOptions) (st st' : JsonIterator)
    → collect_array_comma o st ≡ (true, st')
    → SameDepths st st'
unfolding collect_array_comma count_depth
comma_keeps o st st' e =
    let k =
      subst (Effect o b',' st) e
        (or_reject-Effect o b',' missing_comma st _ (increment_if_equals-Effect o b',' st)) in
    (k.1.objects, k.1.arrays)

module _ (o : ParseOptions) (max : o.max_depth < 2 ^ 64) {cs : List Container}
    (st st' : JsonIterator) where
  keeps-Agrees : Agrees o cs st → SameDepths st st' → Agrees o cs st'
  keeps-Agrees a (p, q) = record {
    object_depth = p ∙ a.object_depth;
    array_depth = q ∙ a.array_depth;
    bounded = a.bounded;
  }

  opens_object-Agrees :
      Agrees o cs st → object_start o st ≡ (true, st') → Agrees o (object ∷ cs) st'
  unfolding object_start count_depth
  opens_object-Agrees a e =
      let (allowed, k) = subst (Effect o b'{' st) e (
        or_reject-Effect o b'{' missing_object_start st _ (increment_if_equals-Effect o b'{' st)) in
      record {
        object_depth =
            omega (arith, k.objects, a.object_depth, a.array_depth, a.bounded, allowed refl);
        array_depth = omega (arith, k.arrays, a.array_depth);
        bounded = omega (arith, a.object_depth, a.array_depth, a.bounded, allowed refl);
      }

  opens_array-Agrees : Agrees o cs st → array_start o st ≡ (true, st') → Agrees o (array ∷ cs) st'
  unfolding array_start count_depth
  opens_array-Agrees a e =
      let (allowed, k) =
        subst (Effect o b'[' st) e (
          or_reject-Effect o b'[' missing_array_start st _
            (increment_if_equals-Effect o b'[' st)) in
      record {
        object_depth = omega (arith, k.objects, a.object_depth);
        array_depth =
            omega (arith, k.arrays, a.object_depth, a.array_depth, a.bounded, allowed refl);
        bounded = omega (arith, a.object_depth, a.array_depth, a.bounded, allowed refl);
      }

  object-Counts-Agrees : Agrees o (object ∷ cs) st → Counts b'}' st st' → Agrees o cs st'
  unfolding count_depth
  object-Counts-Agrees a k = record {
    object_depth = omega (arith, k.objects, a.object_depth, a.bounded);
    array_depth = omega (arith, k.arrays, a.array_depth);
    bounded = omega (arith, a.bounded);
  }

  array-Counts-Agrees : Agrees o (array ∷ cs) st → Counts b']' st st' → Agrees o cs st'
  unfolding count_depth
  array-Counts-Agrees a k = record {
    object_depth = omega (arith, k.objects, a.object_depth);
    array_depth = omega (arith, k.arrays, a.array_depth, a.bounded);
    bounded = omega (arith, a.bounded);
  }

-- In every state of a parse that goes on, the object depth is the number of objects open and the array
-- depth that of the arrays open, so that neither counter has wrapped around, and the two together are
-- at most the greatest depth. It holds where that is a number of 64 bits.
pub Session-Agrees :
    (o : ParseOptions) (text : Bytes) {cs : List Container} {st : JsonIterator}
    → o.max_depth < 2 ^ 64
    → Session o text cs st
    → Agrees o cs st
unfolding object_maybe_end array_maybe_end
Session-Agrees o text m begins = begins-Agrees o text
Session-Agrees o text m (opens_object {st} {st'} s e) =
    opens_object-Agrees o m st st' (Session-Agrees o text m s) e
Session-Agrees o text m (opens_array {st} {st'} s e) =
    opens_array-Agrees o m st st' (Session-Agrees o text m s) e
Session-Agrees o text m (ends_object {st} {st'} s e) =
    object-Counts-Agrees o m st st' (Session-Agrees o text m s)
      (subst (Effect o b'}' st) e (increment_if_equals-Effect o b'}' st)).1
Session-Agrees o text m (ends_array {st} {st'} s e) =
    array-Counts-Agrees o m st st' (Session-Agrees o text m s)
      (subst (Effect o b']' st) e (increment_if_equals-Effect o b']' st)).1
Session-Agrees o text m (stays_in_object {st} {st'} s e) =
    keeps-Agrees o m st st' (Session-Agrees o text m s)
      (Keeps-SameDepths st st' (subst (Effect o b'}' st) e (increment_if_equals-Effect o b'}' st)))
Session-Agrees o text m (stays_in_array {st} {st'} s e) =
    keeps-Agrees o m st st' (Session-Agrees o text m s)
      (Keeps-SameDepths st st' (subst (Effect o b']' st) e (increment_if_equals-Effect o b']' st)))
Session-Agrees o text m (separates_object {st} {st'} s e) =
    keeps-Agrees o m st st' (Session-Agrees o text m s) (
      Keeps-SameDepths st st'
        (subst (SeparatorEffect b'}' st) e (collect_object_separator-SeparatorEffect o st)))
Session-Agrees o text m (closes_object {st} {st'} s e) =
    object-Counts-Agrees o m st st' (Session-Agrees o text m s)
      (subst (SeparatorEffect b'}' st) e (collect_object_separator-SeparatorEffect o st))
Session-Agrees o text m (separates_array {st} {st'} s e) =
    keeps-Agrees o m st st' (Session-Agrees o text m s) (
      Keeps-SameDepths st st'
        (subst (SeparatorEffect b']' st) e (collect_array_separator-SeparatorEffect o st)))
Session-Agrees o text m (closes_array {st} {st'} s e) =
    array-Counts-Agrees o m st st' (Session-Agrees o text m s)
      (subst (SeparatorEffect b']' st) e (collect_array_separator-SeparatorEffect o st))
Session-Agrees o text m (colon {st} {st'} s e) =
    keeps-Agrees o m st st' (Session-Agrees o text m s) (colon_keeps o st st' e)
Session-Agrees o text m (comma {st} {st'} s e) =
    keeps-Agrees o m st st' (Session-Agrees o text m s) (comma_keeps o st st' e)
Session-Agrees o text m (skips {st} {st'} s e) =
    keeps-Agrees o m st st' (Session-Agrees o text m s)
      (Keeps-SameDepths st st' (subst (Reports st) e (skip_value-Reports o st)).0)
Session-Agrees o text m (reads_number {st} {st'} w v s e) =
    keeps-Agrees o m st st' (Session-Agrees o text m s)
      (Keeps-SameDepths st st' (subst (ParsedReports st) e (iterate_number-ParsedReports o st w)).0)
Session-Agrees o text m (reads_string {st} {st'} sizes v s e) =
    keeps-Agrees o m st st' (Session-Agrees o text m s) (
      Keeps-SameDepths st st'
        (subst (ParsedReports st) e (iterate_string-ParsedReports o st sizes)).0)
Session-Agrees o text m (reads_bool {st} {st'} b s e) =
    keeps-Agrees o m st st' (Session-Agrees o text m s)
      (Keeps-SameDepths st st' (subst (ParsedReports st) e (iterate_bool-ParsedReports o st)).0)
Session-Agrees o text m (reads_null {st} {st'} s e) =
    keeps-Agrees o m st st' (Session-Agrees o text m s)
      (Keeps-SameDepths st st' (subst (Reports st) e (iterate_null-Reports o st)).0)
