-- ===== src/JsonIterator/Braces.antt =====
-- include/jsonifier-incl/utilities/json_iterator.hpp: the brackets, commas and colons of an object, with
-- white space before.
use jsonifier.Prelude.{
  suc, ◌+◌, ◌^◌, ◌<◌, ◌≡◌, refl, ap, ◌∙◌, true, false, [], ◌∷◌, ◌++◌, ◌==◌, if◌then◌else◌, Bytes,
  peek, arith, inl, inr, Bool-cases, if_both, add64, sub64,
}
use jsonifier.Minifier.{whitespace_table}
use jsonifier.JsonIterator.{
  not_at_end_pre, is_before_end, missing_comma, missing_colon, ParseOptions, JsonIterator, move_to,
  or_reject, then_advance, if_ok, not_at_end, check_current_depth, count_depth, check_char,
  check_char_unsafe, missing_object_start, reject,
}
use jsonifier.JsonIterator.White.{IsBlank, white-IsBlank}
use jsonifier.JsonIterator.Brackets.{HasRoom, check_current_depth-HasRoom, or_true, comma_no_white}
use jsonifier.JsonIterator.Marks.{
  collect_object_colon, collect_object_comma, white, advance, increment_if_equals, object_start,
  object_maybe_end, cont, ended, error, separator_at, collect_object_separator,
}

-- An object more is open.
abbrev pub in_object : JsonIterator → JsonIterator
in_object st = record st { current_object_depth = suc st.current_object_depth }

bracket_no_white : whitespace_table b'{' ≡ false
unfolding whitespace_table
bracket_no_white = refl

closing_no_white : whitespace_table b'}' ≡ false
unfolding whitespace_table
closing_no_white = refl

module _ (o : ParseOptions) (st : JsonIterator) where
  object_count :
      HasRoom o 1 st → (s : Bytes) → count_depth b'{' (move_to st s) ≡ in_object (move_to st s)
  unfolding count_depth
  object_count h s =
      ap (λ n. record st { iter = s; current_object_depth = n })
        {x = add64 st.current_object_depth 1} {y = suc st.current_object_depth}
        (omega (arith, h.narrow, h.room))

  check_char_unsafe-object :
      (s : Bytes)
      → HasRoom o 1 st
      → check_char_unsafe b'{' (move_to st (b'{' ∷ s)) ≡ (true, in_object (move_to st (b'{' ∷ s)))
  unfolding check_char_unsafe
  check_char_unsafe-object s h = ap (λ t. (true, t)) (object_count h (b'{' ∷ s))

module _ (o : ParseOptions) (st : JsonIterator) where
  check_char_object :
      (s : Bytes)
      → HasRoom o 1 st
      → check_char o b'{' (move_to st (b'{' ∷ s)) ≡ (true, in_object (move_to st (b'{' ∷ s)))
  unfolding check_char if_ok not_at_end
  check_char_object s h =
      if_both (λ x. x ≡ (true, in_object (move_to st (b'{' ∷ s)))) o.null_terminated
        (ap (if_ok (check_char_unsafe b'{')) depth ∙ check_char_unsafe-object o st s h)
        (ap (λ x. if_ok (check_char_unsafe b'{') (if_ok (λ st'. (not_at_end_pre st', st')) x)) depth
          ∙ check_char_unsafe-object o st s h)
    where
      depth : check_current_depth o (move_to st (b'{' ∷ s)) ≡ (true, move_to st (b'{' ∷ s))
      depth =
          check_current_depth-HasRoom o (move_to st (b'{' ∷ s))
            (record { narrow = h.narrow; room = h.room })

  -- `objectStart` at a bracket, with room for one container more
  pub object_start_lem :
      (blank s : Bytes)
      → IsBlank o blank
      → HasRoom o 1 st
      → object_start o (move_to st (blank ++ b'{' ∷ s)) ≡ (true, in_object (move_to st s))
  unfolding object_start increment_if_equals then_advance or_reject
  object_start_lem blank s hb h =
      ap (λ st'. or_reject missing_object_start (then_advance (check_char o b'{' st')))
        (white-IsBlank o st blank (b'{' ∷ s) hb bracket_no_white)
      ∙ ap (λ x. or_reject missing_object_start (then_advance x)) (check_char_object s h)

  check_char-closing :
      (s : Bytes)
      → check_char o b'}' (in_object (move_to st (b'}' ∷ s)))
        ≡ (true, count_depth b'}' (in_object (move_to st (b'}' ∷ s))))
  unfolding check_char check_char_unsafe
  check_char-closing s =
      if_both (λ x. x ≡ (true, count_depth b'}' (in_object (move_to st (b'}' ∷ s)))))
        o.null_terminated refl refl

  closing_count :
      (s : Bytes)
      → st.current_object_depth + 1 < 2 ^ 64
      → count_depth b'}' (in_object (move_to st s)) ≡ move_to st s
  unfolding count_depth
  closing_count s h =
      ap (λ n. record st { iter = s; current_object_depth = n })
        {x = sub64 (suc st.current_object_depth) 1} {y = st.current_object_depth} (omega arith)

  pub object_maybe_end_yes :
      (blank s : Bytes)
      → IsBlank o blank
      → st.current_object_depth + 1 < 2 ^ 64
      → object_maybe_end o (in_object (move_to st (blank ++ b'}' ∷ s))) ≡ (true, move_to st s)
  unfolding object_maybe_end increment_if_equals then_advance
  object_maybe_end_yes blank s hb h =
      ap (λ st'. then_advance (check_char o b'}' st'))
        (white-IsBlank o (in_object st) blank (b'}' ∷ s) hb closing_no_white)
      ∙ ap then_advance (check_char-closing s)
      ∙ ap (λ t. then_advance (true, t)) (closing_count (b'}' ∷ s) h)

  pub check_char-no :
      (s : Bytes)
      → (peek s == b'}') ≡ false
      → check_char o b'}' (move_to st s) ≡ (false, move_to st s)
  unfolding check_char check_char_unsafe
  check_char-no s h =
      if_both (λ x. x ≡ (false, move_to st s)) o.null_terminated (rw h refl)
        (if_both (λ x. x ≡ (false, move_to st s)) (is_before_end s) (rw h refl) refl)

  pub object_maybe_end_no :
      (blank s : Bytes)
      → IsBlank o blank
      → whitespace_table (peek s) ≡ false
      → (peek s == b'}') ≡ false
      → object_maybe_end o (move_to st (blank ++ s)) ≡ (false, move_to st s)
  unfolding object_maybe_end increment_if_equals then_advance
  object_maybe_end_no blank s hb w h =
      ap (λ st'. then_advance (check_char o b'}' st')) (white-IsBlank o st blank s hb w)
      ∙ ap then_advance (check_char-no s h)

  separator_at-closing :
      (s : Bytes)
      → separator_at o b'}' (in_object (move_to st (b'}' ∷ s)))
        ≡ (ended, advance (count_depth b'}' (in_object (move_to st (b'}' ∷ s)))))
  unfolding separator_at
  separator_at-closing s = elim (Bool-cases o.null_terminated) [
    | inl n ↦ rw n refl
    | inr n ↦ rw n refl
  ]

  pub separator_at-comma :
      (s : Bytes) → separator_at o b'}' (move_to st (b',' ∷ s)) ≡ (cont, white o (move_to st s))
  unfolding separator_at
  separator_at-comma s =
      ap
        (λ b.
          if b
          then (cont, white o (move_to st s))
          else (error, (reject missing_comma (move_to st (b',' ∷ s))).1))
        (or_true o.null_terminated)

  pub collect_object_separator-ended :
      (blank s : Bytes)
      → IsBlank o blank
      → st.current_object_depth + 1 < 2 ^ 64
      → collect_object_separator o (in_object (move_to st (blank ++ b'}' ∷ s)))
        ≡ (ended, move_to st s)
  unfolding collect_object_separator
  collect_object_separator-ended blank s hb h =
      ap (separator_at o b'}') (white-IsBlank o (in_object st) blank (b'}' ∷ s) hb closing_no_white)
      ∙ separator_at-closing s
      ∙ ap (λ t. (ended, advance t)) (closing_count (b'}' ∷ s) h)

  pub collect_object_separator-cont :
      (blank s : Bytes)
      → IsBlank o blank
      → whitespace_table (peek s) ≡ false
      → collect_object_separator o (move_to st (b',' ∷ (blank ++ s))) ≡ (cont, move_to st s)
  unfolding collect_object_separator
  collect_object_separator-cont blank s hb w =
      ap (separator_at o b'}')
        (white-IsBlank o st [] (b',' ∷ (blank ++ s)) (tt, inr refl) comma_no_white)
      ∙ separator_at-comma (blank ++ s)
      ∙ ap (λ t. (cont, t)) (white-IsBlank o st blank s hb w)

colon_no_white : whitespace_table b':' ≡ false
unfolding whitespace_table
colon_no_white = refl

check_char_colon :
    (o : ParseOptions) (st : JsonIterator) (s : Bytes)
    → check_char o b':' (move_to st (b':' ∷ s)) ≡ (true, move_to st (b':' ∷ s))
unfolding check_char check_char_unsafe count_depth
check_char_colon o st s =
    if_both (λ x. x ≡ (true, move_to st (b':' ∷ s))) o.null_terminated refl refl

-- `collectObjectColon` at a colon
pub collect_object_colon_lem :
    (o : ParseOptions) (st : JsonIterator) (blank s : Bytes)
    → IsBlank o blank
    → collect_object_colon o (move_to st (blank ++ b':' ∷ s)) ≡ (true, move_to st s)
unfolding collect_object_colon increment_if_equals then_advance or_reject
collect_object_colon_lem o st blank s hb =
    ap (λ st'. or_reject missing_colon (then_advance (check_char o b':' st')))
      (white-IsBlank o st blank (b':' ∷ s) hb colon_no_white)
    ∙ ap (λ x. or_reject missing_colon (then_advance x)) (check_char_colon o st s)

check_char_comma :
    (o : ParseOptions) (st : JsonIterator) (s : Bytes)
    → check_char o b',' (move_to st (b',' ∷ s)) ≡ (true, move_to st (b',' ∷ s))
unfolding check_char check_char_unsafe count_depth
check_char_comma o st s =
    if_both (λ x. x ≡ (true, move_to st (b',' ∷ s))) o.null_terminated refl refl

-- `collectObjectComma` at a comma
pub collect_object_comma_lem :
    (o : ParseOptions) (st : JsonIterator) (blank s : Bytes)
    → IsBlank o blank
    → collect_object_comma o (move_to st (blank ++ b',' ∷ s)) ≡ (true, move_to st s)
unfolding collect_object_comma increment_if_equals then_advance or_reject
collect_object_comma_lem o st blank s hb =
    ap (λ st'. or_reject missing_comma (then_advance (check_char o b',' st')))
      (white-IsBlank o st blank (b',' ∷ s) hb comma_no_white)
    ∙ ap (λ x. or_reject missing_comma (then_advance x)) (check_char_comma o st s)

-- `collectObjectSeparator` at a comma, with what white space there is in front of it
pub collect_object_separator_comma :
    (o : ParseOptions) (st : JsonIterator) (blank s : Bytes)
    → IsBlank o blank
    → collect_object_separator o (move_to st (blank ++ b',' ∷ s)) ≡ (cont, white o (move_to st s))
unfolding collect_object_separator
collect_object_separator_comma o st blank s hb =
    ap (separator_at o b'}') (white-IsBlank o st blank (b',' ∷ s) hb comma_no_white)
    ∙ separator_at-comma o st s
