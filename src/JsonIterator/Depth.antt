-- ===== src/JsonIterator/Depth.antt =====
-- include/jsonifier-incl/utilities/json_iterator.hpp: what the operations do to the two depths.
use jsonifier.Prelude.{
  ℕ, ◌<◌, ◌≡◌, refl, ap, ◌∙◌, true, false, ◌||◌, ◌==◌, ltb, Bytes, peek, arith, inl, inr, if_both,
  Bool-cases, add64,
}
use jsonifier.JsonIterator.{
  ParseOptions, ParseStatus, JsonIterator, Outcome, move_to, reject, if_ok, or_reject, then_advance,
  is_before_end, not_at_end_pre, not_at_end, check_current_depth, count_depth, check_char_unsafe,
  check_char, missing_comma, exceeded_max_depth,
}
use jsonifier.JsonIterator.Marks.{
  white, advance, increment_if_equals, SepResult, cont, ended, error, separator_at,
  collect_object_separator, collect_array_separator,
}
use jsonifier.JsonIterator.Skip.Reports.{Keeps, white-move_to}

-- The depths are those behind the byte `c`.
pub record Counts (c : ℕ) (st st' : JsonIterator) : Type 0 where
  pub objects : st'.current_object_depth ≡ (count_depth c st).current_object_depth
  pub arrays : st'.current_array_depth ≡ (count_depth c st).current_array_depth

-- An opening bracket is read only below the greatest depth.
abbrev pub IsAllowed : ParseOptions → ℕ → JsonIterator → Type 0
IsAllowed o c st =
    (c == b'{' || c == b'[') ≡ true
    → add64 st.current_object_depth st.current_array_depth < o.max_depth

abbrev pub Effect : ParseOptions → ℕ → JsonIterator → Outcome → Type 0
Effect o c st (true, st') = IsAllowed o c st × Counts c st st'
Effect o c st (false, st') = Keeps st st'

Keeps-move_to : (st : JsonIterator) (s : Bytes) → Keeps st (move_to st s)
Keeps-move_to st s = record { root = refl; objects = refl; arrays = refl }

Keeps-reject : (status : ParseStatus) (st : JsonIterator) → Keeps st (reject status st).1
unfolding reject
Keeps-reject status st = record { root = refl; objects = refl; arrays = refl }

check_char_unsafe-Effect :
    (o : ParseOptions) (c : ℕ) (st : JsonIterator)
    → IsAllowed o c st
    → Effect o c st (check_char_unsafe c st)
unfolding check_char_unsafe
check_char_unsafe-Effect o c st a = elim (Bool-cases (peek st.iter == c)) [
  | inl e ↦ rw e (a, record { objects = refl; arrays = refl })
  | inr e ↦ rw e (Keeps-move_to st st.iter)
]

check_current_depth-Effect :
    (o : ParseOptions) (c : ℕ) (st : JsonIterator)
    → Effect o c st (if_ok (check_char_unsafe c) (check_current_depth o st))
unfolding if_ok check_current_depth reject
check_current_depth-Effect o c st =
    elim (Bool-cases (ltb (add64 st.current_object_depth st.current_array_depth) o.max_depth)) [
      | inl e ↦ rw e (check_char_unsafe-Effect o c st (λ h. ground arith))
      | inr e ↦ rw e (Keeps-reject exceeded_max_depth st)
    ]

not_at_end-Effect :
    (o : ParseOptions) (c : ℕ) (st : JsonIterator)
    → Effect o c st (if_ok (check_char_unsafe c) (not_at_end o st))
unfolding if_ok check_current_depth reject not_at_end
not_at_end-Effect o c st =
    elim (Bool-cases (ltb (add64 st.current_object_depth st.current_array_depth) o.max_depth)) [
      | inl e ↦ rw e (elim (Bool-cases (is_before_end st.iter)) [
        | inl b ↦ rw b (check_char_unsafe-Effect o c st (λ h. ground arith))
        | inr b ↦ rw b (Keeps-move_to st st.iter)
      ])
      | inr e ↦ rw e (Keeps-reject exceeded_max_depth st)
    ]

check_char-Effect :
    (o : ParseOptions) (c : ℕ) (st : JsonIterator) → Effect o c st (check_char o c st)
unfolding check_char
check_char-Effect o c st = elim (Bool-cases (c == b'{' || c == b'[')) [
  | inl k ↦ rw k (
      if_both (Effect o c st) o.null_terminated (check_current_depth-Effect o c st)
        (not_at_end-Effect o c st))
  | inr k ↦ rw k (
      if_both (Effect o c st) o.null_terminated
        (check_char_unsafe-Effect o c st (λ h. absurd (ground arith)))
        (if_both (Effect o c st) (is_before_end st.iter)
          (check_char_unsafe-Effect o c st (λ h. absurd (ground arith)))
          (Keeps-move_to st st.iter)))
]

then_advance-Effect :
    (o : ParseOptions) (c : ℕ) (st : JsonIterator) (x : Outcome)
    → Effect o c st x
    → Effect o c st (then_advance x)
unfolding then_advance
then_advance-Effect o c st (true, st') (a, k) =
    (a, record { objects = k.objects; arrays = k.arrays })
then_advance-Effect o c st (false, st') k = k

pub or_reject-Effect :
    (o : ParseOptions) (c : ℕ) (status : ParseStatus) (st : JsonIterator) (x : Outcome)
    → Effect o c st x
    → Effect o c st (or_reject status x)
unfolding or_reject reject
or_reject-Effect o c status st (true, st') h = h
or_reject-Effect o c status st (false, st') k = record {
  root = k.root;
  objects = k.objects;
  arrays = k.arrays;
}

count_depth-move_to :
    (c : ℕ) (st : JsonIterator) (s : Bytes)
    → count_depth c (move_to st s) ≡ move_to (count_depth c st) s
unfolding count_depth
count_depth-move_to c st s = elim (Bool-cases (c == b']')) [
  | inl e ↦ rw e refl
  | inr e ↦ rw e (elim (Bool-cases (c == b'}')) [
    | inl f ↦ rw f refl
    | inr f ↦ rw f (elim (Bool-cases (c == b'{')) [
      | inl g ↦ rw g refl
      | inr g ↦ rw g (elim (Bool-cases (c == b'[')) [ inl h ↦ rw h refl | inr h ↦ rw h refl ])
    ])
  ])
]

-- The effect does not depend on the place of the iterator.
move_to-Effect :
    (o : ParseOptions) (c : ℕ) (st : JsonIterator) (s : Bytes) (x : Outcome)
    → Effect o c (move_to st s) x
    → Effect o c st x
move_to-Effect o c st s (true, st') (a, k) = (
  a,
  record {
    objects = k.objects ∙ ap (λ t. t.current_object_depth) (count_depth-move_to c st s);
    arrays = k.arrays ∙ ap (λ t. t.current_array_depth) (count_depth-move_to c st s);
  },
)
move_to-Effect o c st s (false, st') k = record {
  root = k.root;
  objects = k.objects;
  arrays = k.arrays;
}

pub increment_if_equals-Effect :
    (o : ParseOptions) (c : ℕ) (st : JsonIterator) → Effect o c st (increment_if_equals o c st)
unfolding increment_if_equals
increment_if_equals-Effect o c st =
    let (s, e) = white-move_to o st in
    rw e (
      then_advance-Effect o c st (check_char o c (move_to st s)) (
        move_to-Effect o c st s (check_char o c (move_to st s))
          (check_char-Effect o c (move_to st s))))

abbrev pub SeparatorEffect : ℕ → JsonIterator → SepResult × JsonIterator → Type 0
SeparatorEffect closing st (cont, st') = Keeps st st'
SeparatorEffect closing st (ended, st') = Counts closing st st'
SeparatorEffect closing st (error, st') = Keeps st st'

separator_at-SeparatorEffect :
    (o : ParseOptions) (closing : ℕ) (st : JsonIterator)
    → SeparatorEffect closing st (separator_at o closing st)
unfolding separator_at
separator_at-SeparatorEffect o closing st =
    if_both P (o.null_terminated || not_at_end_pre st)
      (if_both P (peek st.iter == b',') (comma (white-move_to o (advance st))) (
        if_both P (peek st.iter == closing) (record { objects = refl; arrays = refl })
          (Keeps-reject missing_comma st)))
      (Keeps-reject missing_comma st)
  where
    P : SepResult × JsonIterator → Type 0
    P = SeparatorEffect closing st

    comma :
        (s : Bytes) × (white o (advance st) ≡ move_to (advance st) s)
        → Keeps st (white o (advance st))
    comma (s, e) = rw e (Keeps-move_to st s)

white-SeparatorEffect :
    (closing : ℕ) (st : JsonIterator) (s : Bytes) (x : SepResult × JsonIterator)
    → SeparatorEffect closing (move_to st s) x
    → SeparatorEffect closing st x
white-SeparatorEffect closing st s (cont, st') k = record {
  root = k.root;
  objects = k.objects;
  arrays = k.arrays;
}
white-SeparatorEffect closing st s (ended, st') k = record {
  objects = k.objects ∙ ap (λ t. t.current_object_depth) (count_depth-move_to closing st s);
  arrays = k.arrays ∙ ap (λ t. t.current_array_depth) (count_depth-move_to closing st s);
}
white-SeparatorEffect closing st s (error, st') k = record {
  root = k.root;
  objects = k.objects;
  arrays = k.arrays;
}

separator-SeparatorEffect :
    (o : ParseOptions) (closing : ℕ) (st : JsonIterator)
    → SeparatorEffect closing st (separator_at o closing (white o st))
separator-SeparatorEffect o closing st =
    let (s, e) = white-move_to o st in
    rw e (
      white-SeparatorEffect closing st s (separator_at o closing (move_to st s))
        (separator_at-SeparatorEffect o closing (move_to st s)))

pub collect_object_separator-SeparatorEffect :
    (o : ParseOptions) (st : JsonIterator) → SeparatorEffect b'}' st (collect_object_separator o st)
unfolding collect_object_separator
collect_object_separator-SeparatorEffect o st = separator-SeparatorEffect o b'}' st

pub collect_array_separator-SeparatorEffect :
    (o : ParseOptions) (st : JsonIterator) → SeparatorEffect b']' st (collect_array_separator o st)
unfolding collect_array_separator
collect_array_separator-SeparatorEffect o st = separator-SeparatorEffect o b']' st
