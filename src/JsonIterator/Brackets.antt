-- ===== src/JsonIterator/Brackets.antt =====
-- include/jsonifier-incl/utilities/json_iterator.hpp: the brackets, commas and quotes of a text that has
-- them, with white space before.
use jsonifier.Prelude.{
  ℕ, suc, ◌+◌, ◌^◌, ◌≤◌, ◌<◌, ◌≡◌, refl, ap, ◌∙◌, Bool, true, false, ◌||◌, [], ◌∷◌, ◌++◌, ◌==◌, ltb,
  if◌then◌else◌, Bytes, peek, arith, inl, inr, Bool-cases, lt→ltb, if_both, add64, sub64,
}
use jsonifier.Minifier.{whitespace_table}
use jsonifier.JsonIterator.{
  not_at_end_pre, is_before_end, missing_comma, ParseOptions, JsonIterator, move_to, or_reject,
  then_advance, if_ok, not_at_end, check_current_depth, count_depth, check_char, check_char_unsafe,
  missing_array_start, reject, exceeded_max_depth,
}
use jsonifier.JsonIterator.White.{IsBlank, white-IsBlank}
use jsonifier.JsonIterator.Marks.{
  white, advance, increment_if_equals, array_start, array_maybe_end, cont, ended, error,
  separator_at, collect_array_separator,
}

-- `n` more containers are allowed.
pub record HasRoom (o : ParseOptions) (n : ℕ) (st : JsonIterator) : Type 0 where
  pub narrow : o.max_depth < 2 ^ 64
  pub room : st.current_object_depth + st.current_array_depth + n ≤ o.max_depth

-- An array more is open.
abbrev pub in_array : JsonIterator → JsonIterator
in_array st = record st { current_array_depth = suc st.current_array_depth }

bracket_no_white : whitespace_table b'[' ≡ false
unfolding whitespace_table
bracket_no_white = refl

closing_no_white : whitespace_table b']' ≡ false
unfolding whitespace_table
closing_no_white = refl

pub or_true : (b : Bool) → (b || true) ≡ true
or_true true = refl
or_true false = refl

pub comma_no_white : whitespace_table b',' ≡ false
unfolding whitespace_table
comma_no_white = refl

module _ (o : ParseOptions) (st : JsonIterator) where
  pub check_current_depth-HasRoom : HasRoom o 1 st → check_current_depth o st ≡ (true, st)
  unfolding check_current_depth
  check_current_depth-HasRoom h =
      ap (λ b. if b then (true, st) else (reject exceeded_max_depth st))
        {x = ltb (add64 st.current_object_depth st.current_array_depth) o.max_depth} {y = true}
        (lt→ltb _ _ (omega (arith, h.narrow, h.room)))

  array_count :
      HasRoom o 1 st → (s : Bytes) → count_depth b'[' (move_to st s) ≡ in_array (move_to st s)
  unfolding count_depth
  array_count h s =
      ap (λ n. record st { iter = s; current_array_depth = n }) {x = add64 st.current_array_depth 1}
        {y = suc st.current_array_depth} (omega (arith, h.narrow, h.room))

  check_char_unsafe-array :
      (s : Bytes)
      → HasRoom o 1 st
      → check_char_unsafe b'[' (move_to st (b'[' ∷ s)) ≡ (true, in_array (move_to st (b'[' ∷ s)))
  unfolding check_char_unsafe
  check_char_unsafe-array s h = ap (λ t. (true, t)) (array_count h (b'[' ∷ s))

module _ (o : ParseOptions) (st : JsonIterator) where
  check_char_array :
      (s : Bytes)
      → HasRoom o 1 st
      → check_char o b'[' (move_to st (b'[' ∷ s)) ≡ (true, in_array (move_to st (b'[' ∷ s)))
  unfolding check_char if_ok not_at_end
  check_char_array s h =
      if_both (λ x. x ≡ (true, in_array (move_to st (b'[' ∷ s)))) o.null_terminated
        (ap (if_ok (check_char_unsafe b'[')) depth ∙ check_char_unsafe-array o st s h)
        (ap (λ x. if_ok (check_char_unsafe b'[') (if_ok (λ st'. (not_at_end_pre st', st')) x)) depth
          ∙ check_char_unsafe-array o st s h)
    where
      depth : check_current_depth o (move_to st (b'[' ∷ s)) ≡ (true, move_to st (b'[' ∷ s))
      depth =
          check_current_depth-HasRoom o (move_to st (b'[' ∷ s))
            (record { narrow = h.narrow; room = h.room })

  -- `arrayStart` at a bracket, with room for one container more
  pub array_start_lem :
      (blank s : Bytes)
      → IsBlank o blank
      → HasRoom o 1 st
      → array_start o (move_to st (blank ++ b'[' ∷ s)) ≡ (true, in_array (move_to st s))
  unfolding array_start increment_if_equals then_advance or_reject
  array_start_lem blank s hb h =
      ap (λ st'. or_reject missing_array_start (then_advance (check_char o b'[' st')))
        (white-IsBlank o st blank (b'[' ∷ s) hb bracket_no_white)
      ∙ ap (λ x. or_reject missing_array_start (then_advance x)) (check_char_array s h)

  check_char-closing :
      (s : Bytes)
      → check_char o b']' (in_array (move_to st (b']' ∷ s)))
        ≡ (true, count_depth b']' (in_array (move_to st (b']' ∷ s))))
  unfolding check_char check_char_unsafe
  check_char-closing s =
      if_both (λ x. x ≡ (true, count_depth b']' (in_array (move_to st (b']' ∷ s)))))
        o.null_terminated refl refl

  closing_count :
      (s : Bytes)
      → st.current_array_depth + 1 < 2 ^ 64
      → count_depth b']' (in_array (move_to st s)) ≡ move_to st s
  unfolding count_depth
  closing_count s h =
      ap (λ n. record st { iter = s; current_array_depth = n })
        {x = sub64 (suc st.current_array_depth) 1} {y = st.current_array_depth} (omega arith)

  pub array_maybe_end_yes :
      (blank s : Bytes)
      → IsBlank o blank
      → st.current_array_depth + 1 < 2 ^ 64
      → array_maybe_end o (in_array (move_to st (blank ++ b']' ∷ s))) ≡ (true, move_to st s)
  unfolding array_maybe_end increment_if_equals then_advance
  array_maybe_end_yes blank s hb h =
      ap (λ st'. then_advance (check_char o b']' st'))
        (white-IsBlank o (in_array st) blank (b']' ∷ s) hb closing_no_white)
      ∙ ap then_advance (check_char-closing s)
      ∙ ap (λ t. then_advance (true, t)) (closing_count (b']' ∷ s) h)

  check_char-no :
      (s : Bytes)
      → (peek s == b']') ≡ false
      → check_char o b']' (move_to st s) ≡ (false, move_to st s)
  unfolding check_char check_char_unsafe
  check_char-no s h =
      if_both (λ x. x ≡ (false, move_to st s)) o.null_terminated (rw h refl)
        (if_both (λ x. x ≡ (false, move_to st s)) (is_before_end s) (rw h refl) refl)

  pub array_maybe_end_no :
      (blank s : Bytes)
      → IsBlank o blank
      → whitespace_table (peek s) ≡ false
      → (peek s == b']') ≡ false
      → array_maybe_end o (move_to st (blank ++ s)) ≡ (false, move_to st s)
  unfolding array_maybe_end increment_if_equals then_advance
  array_maybe_end_no blank s hb w h =
      ap (λ st'. then_advance (check_char o b']' st')) (white-IsBlank o st blank s hb w)
      ∙ ap then_advance (check_char-no s h)

  separator_at-closing :
      (s : Bytes)
      → separator_at o b']' (in_array (move_to st (b']' ∷ s)))
        ≡ (ended, advance (count_depth b']' (in_array (move_to st (b']' ∷ s)))))
  unfolding separator_at
  separator_at-closing s = elim (Bool-cases o.null_terminated) [
    | inl n ↦ rw n refl
    | inr n ↦ rw n refl
  ]

  separator_at-comma :
      (s : Bytes) → separator_at o b']' (move_to st (b',' ∷ s)) ≡ (cont, white o (move_to st s))
  unfolding separator_at
  separator_at-comma s =
      ap
        (λ b.
          if b
          then (cont, white o (move_to st s))
          else (error, (reject missing_comma (move_to st (b',' ∷ s))).1))
        (or_true o.null_terminated)

  pub collect_array_separator-ended :
      (blank s : Bytes)
      → IsBlank o blank
      → st.current_array_depth + 1 < 2 ^ 64
      → collect_array_separator o (in_array (move_to st (blank ++ b']' ∷ s)))
        ≡ (ended, move_to st s)
  unfolding collect_array_separator
  collect_array_separator-ended blank s hb h =
      ap (separator_at o b']') (white-IsBlank o (in_array st) blank (b']' ∷ s) hb closing_no_white)
      ∙ separator_at-closing s
      ∙ ap (λ t. (ended, advance t)) (closing_count (b']' ∷ s) h)

  pub collect_array_separator-cont :
      (blank s : Bytes)
      → IsBlank o blank
      → whitespace_table (peek s) ≡ false
      → collect_array_separator o (move_to st (b',' ∷ (blank ++ s))) ≡ (cont, move_to st s)
  unfolding collect_array_separator
  collect_array_separator-cont blank s hb w =
      ap (separator_at o b']')
        (white-IsBlank o st [] (b',' ∷ (blank ++ s)) (tt, inr refl) comma_no_white)
      ∙ separator_at-comma (blank ++ s)
      ∙ ap (λ t. (cont, t)) (white-IsBlank o st blank s hb w)
