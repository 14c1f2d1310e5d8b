-- ===== src/TapeIterator/Skip/Reports.antt =====
-- include/jsonifier-incl/utilities/json_iterator.hpp: what reading over a value or the rest of an object on
-- a tape leaves of the errors and of the tape, whatever the text and the tape are.
use mathlib.Core.Path.{subst}
use jsonifier.Prelude.{
  ℕ, zero, suc, ◌<◌, ◌≤◌, ◌≡◌, refl, ap, ◌∙◌, Bool, true, false, not, ◌&&◌, sym, List, [], ◌∷◌,
  ◌==◌, if◌then◌else◌, Bytes, peek, drop, length, Option, some, none, arith,
}
use jsonifier.JsonIterator.{
  ParseStatus, missing_key_start, unexpected_end_of_input, unexpected_string_end, missing_colon,
  missing_comma,
}
use jsonifier.JsonTypes.{tape_at}
use jsonifier.TapeIterator.{
  TapeError, tape_error, TapeIterator, TapeOutcome, tape_move, tape_next, tape_reject, tape_if_ok,
  tape_or_reject, tape_check_char, tape_check_char_unsafe, tape_count_depth, tape_then_advance,
  tape_increment_if_equals, tape_object_maybe_end, tape_collect_object_comma,
  tape_collect_object_colon,
}
use jsonifier.TapeIterator.Skip.{
  opens, closes, tape_depth, tape_skip_loop, after_tape_skip, tape_skip_value, tape_member_end,
  tape_member, tape_skip_members, tape_skip_remaining_object,
}

-- Where the outcome is true, an entry less at least and no error; where it is false, one error more.
abbrev pub TapeReports : TapeIterator → TapeOutcome → Type 0
TapeReports st (true, st') = (st'.errors ≡ st.errors) × (length st'.iter < length st.iter)
TapeReports st (false, st') = (e : TapeError) × (st'.errors ≡ e ∷ st.errors)

-- The same where false is no error.
abbrev Tests : TapeIterator → TapeOutcome → Type 0
Tests st (true, st') = (st'.errors ≡ st.errors) × (length st'.iter < length st.iter)
Tests st (false, st') = st' ≡ st

tape_reject-TapeReports :
    (status : ParseStatus) (st : TapeIterator) (is : List ℕ)
    → TapeReports st (tape_reject status (tape_move st is))
unfolding tape_reject
tape_reject-TapeReports status st is = (tape_error status (tape_at st.string_root_iter is), refl)

tape_if_ok-TapeReports :
    (go : TapeIterator → TapeOutcome) (st : TapeIterator) (x : TapeOutcome)
    → TapeReports st x
    → ((st' : TapeIterator)
        → st'.errors ≡ st.errors
        → length st'.iter < length st.iter
        → TapeReports st (go st'))
    → TapeReports st (tape_if_ok go x)
unfolding tape_if_ok
tape_if_ok-TapeReports go st (true, st') (e, l) h = h st' e l
tape_if_ok-TapeReports go st (false, st') e h = e

tape_or_reject-TapeReports :
    (status : ParseStatus) (st : TapeIterator) (x : TapeOutcome)
    → Tests st x
    → TapeReports st (tape_or_reject status x)
unfolding tape_or_reject tape_reject
tape_or_reject-TapeReports status st (true, st') h = h
tape_or_reject-TapeReports status st (false, st') h = (
  tape_error status (tape_at st'.string_root_iter st'.iter),
  ap (λ s. tape_error status (tape_at st'.string_root_iter st'.iter) ∷ s.errors) h,
)

-- From a state that has come from an earlier one.
later-TapeReports :
    (st st' : TapeIterator) (x : TapeOutcome)
    → st'.errors ≡ st.errors
    → length st'.iter ≤ length st.iter
    → TapeReports st' x
    → TapeReports st x
later-TapeReports st st' (true, s) e l (h, k) = (h ∙ e, omega arith)
later-TapeReports st st' (false, s) e l (err, h) = (err, h ∙ ap (λ es. err ∷ es) e)

-- What `incrementIfEquals` does behind its test, where `st'` differs from `st` in the depths.
advance-Tests :
    (b : Bool) (st st' : TapeIterator)
    → st'.errors ≡ st.errors
    → length (tape_next st'.iter) < length st.iter
    → Tests st (tape_then_advance (if b then (true, st') else (false, st)))
unfolding tape_then_advance
advance-Tests true st st' e l = (e, l)
advance-Tests false st st' e l = refl

module _ (m : ℕ) (st : TapeIterator) where
  comma-Tests :
      (is : List ℕ) → Tests (tape_move st is) (tape_increment_if_equals m b',' (tape_move st is))
  unfolding tape_increment_if_equals tape_then_advance tape_check_char tape_check_char_unsafe
      tape_count_depth
  comma-Tests [] = refl
  comma-Tests (i ∷ is) =
      advance-Tests (peek (drop i st.string_root_iter) == b',') (tape_move st (i ∷ is))
        (tape_move st (i ∷ is)) refl (omega arith)

  colon-Tests :
      (is : List ℕ) → Tests (tape_move st is) (tape_increment_if_equals m b':' (tape_move st is))
  unfolding tape_increment_if_equals tape_then_advance tape_check_char tape_check_char_unsafe
      tape_count_depth
  colon-Tests [] = refl
  colon-Tests (i ∷ is) =
      advance-Tests (peek (drop i st.string_root_iter) == b':') (tape_move st (i ∷ is))
        (tape_move st (i ∷ is)) refl (omega arith)

  end-Tests : (is : List ℕ) → Tests (tape_move st is) (tape_object_maybe_end m (tape_move st is))
  unfolding tape_object_maybe_end tape_increment_if_equals tape_then_advance tape_check_char
      tape_check_char_unsafe tape_count_depth
  end-Tests [] = refl
  end-Tests (i ∷ is) =
      advance-Tests (peek (drop i st.string_root_iter) == b'}') (tape_move st (i ∷ is))
        (tape_count_depth b'}' (tape_move st (i ∷ is))) refl (omega arith)

  colon-TapeReports : TapeReports st (tape_collect_object_colon m st)
  unfolding tape_collect_object_colon
  colon-TapeReports =
      tape_or_reject-TapeReports missing_colon st (tape_increment_if_equals m b':' st)
        (colon-Tests st.iter)

  comma-TapeReports : TapeReports st (tape_collect_object_comma m st)
  unfolding tape_collect_object_comma
  comma-TapeReports =
      tape_or_reject-TapeReports missing_comma st (tape_increment_if_equals m b',' st)
        (comma-Tests st.iter)

-- The entries that the loop leaves.
abbrev IsFewer : ℕ → Option (List ℕ) → Type 0
IsFewer n none = Unit
IsFewer n (some is) = length is < n

later-IsFewer : (n : ℕ) (x : Option (List ℕ)) → IsFewer n x → IsFewer (suc n) x
later-IsFewer n none h = tt
later-IsFewer n (some is) h = omega arith

tape_skip_loop-IsFewer :
    (text : Bytes) (d : ℕ) (is : List ℕ) → IsFewer (length is) (tape_skip_loop text d is)
unfolding tape_skip_loop
tape_skip_loop-IsFewer text d [] = tt
tape_skip_loop-IsFewer text d (i ∷ is) =
    elim (closes (peek (drop i text)) && (tape_depth (peek (drop i text)) d == 0))
      as (λ b.
        IsFewer (suc (length is))
          (if b then some is else tape_skip_loop text (tape_depth (peek (drop i text)) d) is)) [
            | true ↦ omega arith
            | false ↦
                later-IsFewer (length is)
                  (tape_skip_loop text (tape_depth (peek (drop i text)) d) is)
                  (tape_skip_loop-IsFewer text (tape_depth (peek (drop i text)) d) is)
          ]

after_tape_skip-TapeReports :
    (st : TapeIterator) (x : Option (List ℕ))
    → IsFewer (length st.iter) x
    → TapeReports st (after_tape_skip st x)
unfolding after_tape_skip
after_tape_skip-TapeReports st none h = tape_reject-TapeReports unexpected_string_end st []
after_tape_skip-TapeReports st (some is) h = (refl, h)

skip_value_at :
    (st : TapeIterator) (is : List ℕ)
    → TapeReports (tape_move st is) (tape_skip_value (tape_move st is))
unfolding tape_skip_value
skip_value_at st [] = tape_reject-TapeReports unexpected_end_of_input (tape_move st []) []
skip_value_at st (i ∷ is) =
    elim (opens (peek (drop i st.string_root_iter)))
      as (λ b. TapeReports (tape_move st (i ∷ is)) (
        if b
        then after_tape_skip (tape_move st (i ∷ is)) (tape_skip_loop st.string_root_iter 0 (i ∷ is))
        else (true, tape_move st is))) [
          | true ↦
              after_tape_skip-TapeReports (tape_move st (i ∷ is))
                (tape_skip_loop st.string_root_iter 0 (i ∷ is))
                (tape_skip_loop-IsFewer st.string_root_iter 0 (i ∷ is))
          | false ↦ (refl, omega arith)
        ]

module _ (go : TapeIterator → TapeOutcome) (m : ℕ) where
  member_end-TapeReports :
      (st : TapeIterator) (x : TapeOutcome)
      → Tests st x
      → ((st' : TapeIterator)
          → st'.errors ≡ st.errors
          → length st'.iter < length st.iter
          → TapeReports st (go st'))
      → TapeReports st (tape_member_end go m x)
  unfolding tape_member_end
  member_end-TapeReports st (true, st') h k = h
  member_end-TapeReports st (false, st') h k =
      subst (λ s. TapeReports st (tape_if_ok go (tape_collect_object_comma m s))) (sym h)
        (tape_if_ok-TapeReports go st (tape_collect_object_comma m st) (comma-TapeReports m st) k)

  -- from the state at a key, of which `st` is behind the key
  member_end_at :
      (st st' : TapeIterator)
      → ((st'' : TapeIterator) → length st''.iter < length st.iter → TapeReports st'' (go st''))
      → st'.errors ≡ st.errors
      → length st'.iter < length st.iter
      → TapeReports st (tape_member_end go m (tape_object_maybe_end m st'))
  member_end_at st st' h e l =
      later-TapeReports st st' (tape_member_end go m (tape_object_maybe_end m st')) e (omega arith)
        (member_end-TapeReports st' (tape_object_maybe_end m st') (end-Tests m st' st'.iter)
          (λ st'' e' l'.
            later-TapeReports st' st'' (go st'') e' (omega arith) (h st'' (omega arith))))

  value-TapeReports :
      (st : TapeIterator)
      → TapeReports st (tape_if_ok tape_skip_value (tape_collect_object_colon m st))
  value-TapeReports st =
      tape_if_ok-TapeReports tape_skip_value st (tape_collect_object_colon m st)
        (colon-TapeReports m st)
        (λ st' e l.
          later-TapeReports st st' (tape_skip_value st') e (omega arith)
            (skip_value_at st' st'.iter))

  member-TapeReports :
      (st : TapeIterator)
      → ((st' : TapeIterator)
          → length st'.iter < length (tape_next st.iter)
          → TapeReports st' (go st'))
      → TapeReports (tape_move st (tape_next st.iter)) (tape_member go m st)
  unfolding tape_member
  member-TapeReports st h =
      tape_if_ok-TapeReports (λ st'. tape_member_end go m (tape_object_maybe_end m st'))
        (tape_move st (tape_next st.iter))
        (tape_if_ok tape_skip_value
          (tape_collect_object_colon m (tape_move st (tape_next st.iter))))
        (value-TapeReports (tape_move st (tape_next st.iter)))
        (λ st' e l. member_end_at (tape_move st (tape_next st.iter)) st' h e l)

skip_members_at :
    (m fuel : ℕ) (st : TapeIterator) (is : List ℕ)
    → length is < fuel
    → TapeReports (tape_move st is) (tape_skip_members m fuel (tape_move st is))
unfolding tape_skip_members
skip_members_at m zero st is l = absurd (omega arith)
skip_members_at m (suc fuel) st [] l =
    tape_reject-TapeReports missing_key_start (tape_move st []) []
skip_members_at m (suc fuel) st (i ∷ is) l =
    elim (peek (drop i st.string_root_iter) == b'"')
      as (λ b. TapeReports (tape_move st (i ∷ is)) (
        if not b
        then tape_reject missing_key_start (tape_move st (i ∷ is))
        else tape_member (λ st'. tape_skip_members m fuel st') m (tape_move st (i ∷ is)))) [
          | true ↦
              later-TapeReports (tape_move st (i ∷ is)) (tape_move st is)
                (tape_member (λ st'. tape_skip_members m fuel st') m (tape_move st (i ∷ is))) refl
                (omega arith)
                (member-TapeReports (λ st'. tape_skip_members m fuel st') m (tape_move st (i ∷ is))
                  (λ st' k. skip_members_at m fuel st' st'.iter (omega arith)))
          | false ↦ tape_reject-TapeReports missing_key_start (tape_move st (i ∷ is)) (i ∷ is)
        ]

-- `skipRemainingObject` over a tape, from every state: where it is true, an entry at least has been read
-- and no error is added; where it is false, one error is added, so the fuel of the model is enough.
pub tape_skip_remaining_object-TapeReports :
    (max_depth : ℕ) (st : TapeIterator) → TapeReports st (tape_skip_remaining_object max_depth st)
unfolding tape_skip_remaining_object
tape_skip_remaining_object-TapeReports max_depth st =
    skip_members_at max_depth (suc (length st.iter)) st st.iter (omega arith)
