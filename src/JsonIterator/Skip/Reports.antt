-- ===== src/JsonIterator/Skip/Reports.antt =====
-- include/jsonifier-incl/utilities/json_iterator.hpp: what `skipValue` leaves of the iterator's state.
use jsonifier.Prelude.{
  ℕ, zero, suc, ◌<◌, ◌≡◌, refl, true, false, ◌||◌, [], ◌∷◌, ◌==◌, Bytes, peek, next, length, Option,
  none, some, arith, inl, inr, Bool-cases, add64, sub64,
}
use jsonifier.Minifier.{whitespace_table}
use jsonifier.JsonIterator.{
  ParseOptions, ParseError, ParseStatus, construct_error, JsonIterator, Outcome, move_to, reject,
  if_ok, unexpected_string_end, unexpected_end_of_input,
}
use jsonifier.JsonIterator.Whitespace.{skip_whitespace, trim_start, trim_start_white}
use jsonifier.JsonIterator.White.{white-trim_start}
use jsonifier.JsonIterator.Marks.{white}
use jsonifier.JsonIterator.Skip.{
  skip_string, skip_string_impl, has_byte, skip_mark, skip_byte, skip_plain, skip_value_at,
  skip_value,
}
use jsonifier.JsonIterator.Skip.Strings.{closing_quote, string_outcome, skip_string-closing_quote}
use jsonifier.JsonIterator.Skip.Loop.{
  IsShorter, length-closing_quote, length-trim_start, skip_all, skip_all_step, skip_all_end,
  skip_all_stop,
}

-- The same text and the same depths.
pub record Keeps (st st' : JsonIterator) : Type 0 where
  pub root : st'.root_iter ≡ st.root_iter
  pub objects : st'.current_object_depth ≡ st.current_object_depth
  pub arrays : st'.current_array_depth ≡ st.current_array_depth

-- No error where the outcome is true, and one more where it is false.
abbrev pub Reports : JsonIterator → Outcome → Type 0
Reports st (true, st') = Keeps st st' × (st'.errors ≡ st.errors)
Reports st (false, st') = Keeps st st' × ((e : ParseError) × (st'.errors ≡ e ∷ st.errors))

pub reject-Reports :
    (status : ParseStatus) (st : JsonIterator) (s : Bytes)
    → Reports st (reject status (move_to st s))
unfolding reject
reject-Reports status st s =
    (record { root = refl; objects = refl; arrays = refl }, (construct_error status s, refl))

pub true-Reports : (st : JsonIterator) (s : Bytes) → Reports st (true, move_to st s)
true-Reports st s = (record { root = refl; objects = refl; arrays = refl }, refl)

string_outcome-Reports :
    (st : JsonIterator) (s : Bytes) (x : Option Bytes) → Reports st (string_outcome st s x)
string_outcome-Reports st s none = reject-Reports unexpected_string_end st s
string_outcome-Reports st s (some rest) = true-Reports st rest

pub skip_string-Reports : (o : ParseOptions) (st : JsonIterator) → Reports st (skip_string o st)
skip_string-Reports o st = rw (skip_string-closing_quote o st) (
    string_outcome-Reports st (skip_string_impl (next st.iter))
      (closing_quote false (next st.iter)))

string_outcome-then :
    (go : JsonIterator → Outcome) (st : JsonIterator) (s : Bytes) (x : Option Bytes) (n : ℕ)
    → IsShorter n x
    → ((rest : Bytes) → length rest < n → Reports st (go (move_to st rest)))
    → Reports st (if_ok go (string_outcome st s x))
unfolding if_ok reject
string_outcome-then go st s none n l h = reject-Reports unexpected_string_end st s
string_outcome-then go st s (some rest) n l h = h rest l

module _ (o : ParseOptions) where
  skip_mark-Reports :
      (go : ℕ → JsonIterator → Outcome) (d c : ℕ) (st : JsonIterator) (s : Bytes)
      → ((d' : ℕ) → Reports st (go d' (move_to st s)))
      → Reports st (skip_mark go d c (move_to st s))
  unfolding skip_mark
  skip_mark-Reports go d c st s h = elim (Bool-cases (c == b'{' || c == b'[')) [
    | inl e ↦ rw e (h (add64 d 1))
    | inr e ↦ rw e (elim (Bool-cases (c == b'}' || c == b']')) [
      | inl k ↦ rw k (elim (Bool-cases (sub64 d 1 == 0)) [
        | inl z ↦ rw z (true-Reports st s)
        | inr z ↦ rw z (h (sub64 d 1))
      ])
      | inr k ↦ rw k (h d)
    ])
  ]

  skip_byte-Reports :
      (go : ℕ → JsonIterator → Outcome) (d c : ℕ) (st : JsonIterator) (cs : Bytes)
      → ((d' : ℕ) (rest : Bytes)
          → length rest < suc (length cs)
          → Reports st (go d' (move_to st rest)))
      → Reports st (skip_byte o go d c (move_to st (c ∷ cs)))
  unfolding skip_byte
  skip_byte-Reports go d c st cs h = elim (Bool-cases (c == b'"')) [
    | inl e ↦
        rw (e, skip_string-closing_quote o (move_to st (c ∷ cs)))
          (string_outcome-then (go d) st (skip_string_impl cs) (closing_quote false cs)
            (suc (length cs)) (length-closing_quote false cs (suc (length cs)) (omega arith)) (h d))
    | inr e ↦ rw e (elim (Bool-cases o.minified) [
      | inl m ↦ rw m (skip_mark-Reports go d c st cs (λ d'. h d' cs (omega arith)))
      | inr m ↦
          rw (white-trim_start o (move_to st (c ∷ cs)) m, m)
            (elim (Bool-cases (whitespace_table c)) [
              | inl w ↦ rw w (
                  rw (trim_start_white c cs w)
                    (h d (trim_start cs) (omega (arith, length-trim_start o cs))))
              | inr w ↦ rw w (skip_mark-Reports go d c st cs (λ d'. h d' cs (omega arith)))
            ])
    ])
  ]

  skip_all-Reports :
      (n d : ℕ) (st : JsonIterator) (s : Bytes)
      → length s < n
      → Reports st (skip_all o d (move_to st s))
  skip_all-Reports zero d st s l = absurd (omega arith)
  skip_all-Reports (suc n) d st [] l =
      rw (skip_all_end o d st) (reject-Reports unexpected_string_end st [])
  skip_all-Reports (suc n) d st (c ∷ cs) l = elim (Bool-cases (has_byte o (c ∷ cs))) [
    | inl b ↦ rw (skip_all_step o d st c cs b) (
        skip_byte-Reports (skip_all o) d c st cs
          (λ d' rest k. skip_all-Reports n d' st rest (omega arith)))
    | inr b ↦ rw (skip_all_stop o d st c cs b) (reject-Reports unexpected_string_end st (c ∷ cs))
  ]

  Reports-move_to :
      (st : JsonIterator) (s : Bytes) (x : Outcome) → Reports (move_to st s) x → Reports st x
  Reports-move_to st s (true, st') (k, e) =
      (record { root = k.root; objects = k.objects; arrays = k.arrays }, e)
  Reports-move_to st s (false, st') (k, e) =
      (record { root = k.root; objects = k.objects; arrays = k.arrays }, e)

  skip_value_at-Reports : (st : JsonIterator) → Reports st (skip_value_at o st)
  unfolding skip_value_at skip_all
  skip_value_at-Reports st = elim (Bool-cases (has_byte o st.iter)) [
    | inl b ↦ rw b (elim (Bool-cases (peek st.iter == b'"')) [
      | inl q ↦ rw q (skip_string-Reports o st)
      | inr q ↦ rw q (elim (Bool-cases (peek st.iter == b'{' || peek st.iter == b'[')) [
        | inl k ↦ rw k (skip_all-Reports (suc (length st.iter)) 0 st st.iter (omega arith))
        | inr k ↦ rw k (true-Reports st (skip_plain o st.iter))
      ])
    ])
    | inr b ↦ rw b (reject-Reports unexpected_end_of_input st st.iter)
  ]

  pub white-move_to : (st : JsonIterator) → (s : Bytes) × (white o st ≡ move_to st s)
  unfolding white
  white-move_to st = elim (Bool-cases o.minified) [
    | inl m ↦ (st.iter, rw m refl)
    | inr m ↦ (skip_whitespace st.iter, rw m refl)
  ]

  -- `skipValue` keeps the text and the depths; it is true with no error, or false with one error more.
  -- Its loop thus never runs out of fuel.
  pub skip_value-Reports : (st : JsonIterator) → Reports st (skip_value o st)
  unfolding skip_value
  skip_value-Reports st =
      let (s, e) = white-move_to st in
      rw e (
        Reports-move_to st s (skip_value_at o (move_to st s))
          (skip_value_at-Reports (move_to st s)))
