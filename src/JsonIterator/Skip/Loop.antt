-- ===== src/JsonIterator/Skip/Loop.antt =====
-- include/jsonifier-incl/utilities/json_iterator.hpp: the loop of `skipValue` over a container, with its
-- fuel gone.
use jsonifier.Prelude.{
  ℕ, zero, suc, ◌≤◌, ◌<◌, ◌≡◌, refl, sym, ap, ◌∙◌, Bool, true, false, ◌||◌, [], ◌∷◌, ◌==◌, Bytes,
  length, Option, none, some, arith, inl, inr, Bool-cases, add64, sub64,
}
use jsonifier.Minifier.{whitespace_table}
use jsonifier.JsonIterator.{
  ParseOptions, JsonIterator, Outcome, move_to, reject, if_ok, unexpected_string_end,
}
use jsonifier.JsonIterator.Whitespace.{
  trim_start, trim_start_white, trim_start_nothing, trim_start_other,
}
use jsonifier.JsonIterator.White.{white-trim_start}
use jsonifier.JsonIterator.Skip.{
  skip_string, skip_string_impl, has_byte, skip_mark, skip_byte, skip_container,
}
use jsonifier.JsonIterator.Skip.Strings.{
  closing_quote, string_outcome, skip_string-closing_quote, skip_string-some,
}

abbrev pub IsShorter : ℕ → Option Bytes → Type 0
IsShorter n none = Unit
IsShorter n (some rest) = length rest < n

-- The rest of a string is shorter than the string.
pub length-closing_quote :
    (b : Bool) (s : Bytes) (n : ℕ) → length s ≤ n → IsShorter n (closing_quote b s)
unfolding closing_quote
length-closing_quote b [] n h = tt
length-closing_quote true (c ∷ cs) n h = length-closing_quote false cs n (omega arith)
length-closing_quote false (c ∷ cs) n h = elim (Bool-cases (c == b'"')) [
  | inl e ↦ rw e (omega arith)
  | inr e ↦ rw e (length-closing_quote (c == b'\\') cs n (omega arith))
]

if_ok-ext :
    (go go' : JsonIterator → Outcome) (st : JsonIterator) (s : Bytes) (x : Option Bytes) (n : ℕ)
    → IsShorter n x
    → ((rest : Bytes) → length rest < n → go (move_to st rest) ≡ go' (move_to st rest))
    → if_ok go (string_outcome st s x) ≡ if_ok go' (string_outcome st s x)
unfolding if_ok reject
if_ok-ext go go' st s none n l h = refl
if_ok-ext go go' st s (some rest) n l h = h rest l

white_no_quote : (c : ℕ) → whitespace_table c ≡ true → (c == b'"') ≡ false
unfolding whitespace_table
white_no_quote c w = ground arith

white_no_nul : (c : ℕ) → whitespace_table c ≡ true → (c == 0) ≡ false
unfolding whitespace_table
white_no_nul c w = ground arith

module _ (o : ParseOptions) where
  -- Behind a string, less is left.
  skip_string-ext :
      (go go' : JsonIterator → Outcome) (st : JsonIterator) (c : ℕ) (cs : Bytes)
      → ((rest : Bytes)
          → length rest < suc (length cs)
          → go (move_to st rest) ≡ go' (move_to st rest))
      → if_ok go (skip_string o (move_to st (c ∷ cs)))
        ≡ if_ok go' (skip_string o (move_to st (c ∷ cs)))
  skip_string-ext go go' st c cs h = rw (skip_string-closing_quote o (move_to st (c ∷ cs))) (
      if_ok-ext go go' st (skip_string_impl cs) (closing_quote false cs) (suc (length cs))
        (length-closing_quote false cs (suc (length cs)) (omega arith)) h)

  skip_mark-ext :
      (go go' : ℕ → JsonIterator → Outcome) (d c : ℕ) (st : JsonIterator)
      → ((d' : ℕ) → go d' st ≡ go' d' st)
      → skip_mark go d c st ≡ skip_mark go' d c st
  unfolding skip_mark
  skip_mark-ext go go' d c st h = elim (Bool-cases (c == b'{' || c == b'[')) [
    | inl e ↦ rw e (h (add64 d 1))
    | inr e ↦ rw e (elim (Bool-cases (c == b'}' || c == b']')) [
      | inl k ↦
          rw k (elim (Bool-cases (sub64 d 1 == 0)) [
            | inl z ↦ rw z refl
            | inr z ↦ rw z (h (sub64 d 1))
          ])
      | inr k ↦ rw k (h d)
    ])
  ]

  pub length-trim_start : (s : Bytes) → length (trim_start s) ≤ length s
  unfolding trim_start
  length-trim_start [] = omega arith
  length-trim_start (c ∷ cs) = elim (Bool-cases (whitespace_table c)) [
    | inl e ↦ rw e (omega (arith, length-trim_start cs))
    | inr e ↦ rw e (omega arith)
  ]

  skip_byte-ext :
      (go go' : ℕ → JsonIterator → Outcome) (d c : ℕ) (st : JsonIterator) (cs : Bytes)
      → ((d' : ℕ) (rest : Bytes)
          → length rest < suc (length cs)
          → go d' (move_to st rest) ≡ go' d' (move_to st rest))
      → skip_byte o go d c (move_to st (c ∷ cs)) ≡ skip_byte o go' d c (move_to st (c ∷ cs))
  unfolding skip_byte
  skip_byte-ext go go' d c st cs h = elim (Bool-cases (c == b'"')) [
    | inl e ↦ rw e (skip_string-ext (go d) (go' d) st c cs (h d))
    | inr e ↦ rw e (elim (Bool-cases o.minified) [
      | inl m ↦ rw m (skip_mark-ext go go' d c (move_to st cs) (λ d'. h d' cs (omega arith)))
      | inr m ↦
          rw (white-trim_start o (move_to st (c ∷ cs)) m, m)
            (elim (Bool-cases (whitespace_table c)) [
              | inl w ↦ rw w (
                  rw (trim_start_white c cs w)
                    (h d (trim_start cs) (omega (arith, length-trim_start cs))))
              | inr w ↦
                  rw w (skip_mark-ext go go' d c (move_to st cs) (λ d'. h d' cs (omega arith)))
            ])
    ])
  ]

  pub has_byte_end : has_byte o [] ≡ false
  unfolding has_byte
  has_byte_end = elim (Bool-cases o.null_terminated) [ inl n ↦ rw n refl | inr n ↦ rw n refl ]

  skip_container_fuel :
      (n m d : ℕ) (st : JsonIterator) (s : Bytes)
      → length s < n
      → length s < m
      → skip_container o n d (move_to st s) ≡ skip_container o m d (move_to st s)
  unfolding skip_container
  skip_container_fuel zero m d st s h k = absurd (omega arith)
  skip_container_fuel (suc n) zero d st s h k = absurd (omega arith)
  skip_container_fuel (suc n) (suc m) d st [] h k = rw has_byte_end refl
  skip_container_fuel (suc n) (suc m) d st (c ∷ cs) h k = elim (Bool-cases (has_byte o (c ∷ cs))) [
    | inl b ↦ rw b (
        skip_byte-ext (λ d' st'. skip_container o n d' st') (λ d' st'. skip_container o m d' st') d
          c st cs (λ d' rest l. skip_container_fuel n m d' st rest (omega arith) (omega arith)))
    | inr b ↦ rw b refl
  ]

  -- The loop with as much fuel as there are bytes.
  unfoldable pub skip_all : ℕ → JsonIterator → Outcome
  skip_all d st = skip_container o (suc (length st.iter)) d st

  pub skip_all_step :
      (d : ℕ) (st : JsonIterator) (c : ℕ) (cs : Bytes)
      → has_byte o (c ∷ cs) ≡ true
      → skip_all d (move_to st (c ∷ cs)) ≡ skip_byte o skip_all d c (move_to st (c ∷ cs))
  unfolding skip_all skip_container
  skip_all_step d st c cs b = rw b (
      skip_byte-ext (λ d' st'. skip_container o (suc (length cs)) d' st') skip_all d c st cs
        (λ d' rest l.
          skip_container_fuel (suc (length cs)) (suc (length rest)) d' st rest (omega arith)
            (omega arith)))

  pub skip_all_stop :
      (d : ℕ) (st : JsonIterator) (c : ℕ) (cs : Bytes)
      → has_byte o (c ∷ cs) ≡ false
      → skip_all d (move_to st (c ∷ cs)) ≡ reject unexpected_string_end (move_to st (c ∷ cs))
  unfolding skip_all skip_container
  skip_all_stop d st c cs b = rw b refl

  pub skip_all_end :
      (d : ℕ) (st : JsonIterator)
      → skip_all d (move_to st []) ≡ reject unexpected_string_end (move_to st [])
  unfolding skip_all skip_container
  skip_all_end d st = rw has_byte_end refl

  module _ (d : ℕ) (st : JsonIterator) (c : ℕ) (cs : Bytes) (z : (c == 0) ≡ false) where
    pub has_byte_other : has_byte o (c ∷ cs) ≡ true
    unfolding has_byte
    has_byte_other = elim (Bool-cases o.null_terminated) [
      | inl n ↦ rw (n, z) refl
      | inr n ↦ rw n refl
    ]

    -- a byte of structure
    pub skip_all-mark :
        (c == b'"') ≡ false
        → whitespace_table c ≡ false
        → skip_all d (move_to st (c ∷ cs)) ≡ skip_mark skip_all d c (move_to st cs)
    unfolding skip_byte
    skip_all-mark q w =
        skip_all_step d st c cs has_byte_other
        ∙ rw (q, w) (elim (Bool-cases o.minified) [ inl m ↦ rw m refl | inr m ↦ rw m refl ])

  pub skip_all_string :
      (d : ℕ) (st : JsonIterator) (cs rest : Bytes)
      → closing_quote false cs ≡ some rest
      → skip_all d (move_to st (b'"' ∷ cs)) ≡ skip_all d (move_to st rest)
  unfolding skip_byte if_ok
  skip_all_string d st cs rest h =
      skip_all_step d st b'"' cs (has_byte_other d st b'"' cs refl)
      ∙ ap (if_ok (skip_all d)) (skip_string-some o (move_to st (b'"' ∷ cs)) rest h)

  skip_mark_white :
      (go : ℕ → JsonIterator → Outcome) (d c : ℕ) (st : JsonIterator)
      → whitespace_table c ≡ true
      → skip_mark go d c st ≡ go d st
  unfolding skip_mark whitespace_table
  skip_mark_white go d c st w = ground arith

  skip_byte_white :
      (go : ℕ → JsonIterator → Outcome) (d c : ℕ) (cs : Bytes) (st : JsonIterator)
      → whitespace_table c ≡ true
      → o.minified ≡ false
      → skip_byte o go d c (move_to st (c ∷ cs)) ≡ go d (move_to st (trim_start cs))
  unfolding skip_byte
  skip_byte_white go d c cs st w m =
      rw (white_no_quote c w, white-trim_start o (move_to st (c ∷ cs)) m, m, w)
        (ap (λ s. go d (move_to st s)) (trim_start_white c cs w))

  skip_byte_minified :
      (go : ℕ → JsonIterator → Outcome) (d c : ℕ) (cs : Bytes) (st : JsonIterator)
      → whitespace_table c ≡ true
      → o.minified ≡ true
      → skip_byte o go d c (move_to st (c ∷ cs)) ≡ go d (move_to st cs)
  unfolding skip_byte
  skip_byte_minified go d c cs st w m =
      rw (white_no_quote c w, m) (skip_mark_white go d c (move_to st cs) w)

  skip_all-trim_start :
      (d : ℕ) (st : JsonIterator) (s : Bytes)
      → o.minified ≡ false
      → skip_all d (move_to st (trim_start s)) ≡ skip_all d (move_to st s)
  skip_all-trim_start d st [] m = ap (λ s. skip_all d (move_to st s)) trim_start_nothing
  skip_all-trim_start d st (c ∷ cs) m = elim (Bool-cases (whitespace_table c)) [
    | inl w ↦ rw (trim_start_white c cs w) (
        sym (
          skip_all_step d st c cs (has_byte_other d st c cs (white_no_nul c w))
          ∙ skip_byte_white skip_all d c cs st w m))
    | inr w ↦ rw (trim_start_other c cs w) refl
  ]

  pub skip_all_white :
      (d c : ℕ) (st : JsonIterator) (cs : Bytes)
      → whitespace_table c ≡ true
      → skip_all d (move_to st (c ∷ cs)) ≡ skip_all d (move_to st cs)
  skip_all_white d c st cs w = elim (Bool-cases o.minified) [
    | inl m ↦
        skip_all_step d st c cs (has_byte_other d st c cs (white_no_nul c w))
        ∙ skip_byte_minified skip_all d c cs st w m
    | inr m ↦
        skip_all_step d st c cs (has_byte_other d st c cs (white_no_nul c w))
        ∙ skip_byte_white skip_all d c cs st w m
        ∙ skip_all-trim_start d st cs m
  ]
