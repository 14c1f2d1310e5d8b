-- ===== src/JsonIterator/Skip/Values.antt =====
-- include/jsonifier-incl/utilities/json_iterator.hpp: `skipValue` on the values of RFC 8259, with any
-- white space in them.
use jsonifier.Prelude.{
  ℕ, ◌^◌, ◌<◌, ◌≡◌, refl, ap, ◌∙◌, true, false, List, [], ◌∷◌, ◌++◌, ◌==◌, Bytes, peek, All, length,
  length-append, append_assoc, arith, inl, inr,
}
use jsonifier.Minifier.{whitespace_table}
use jsonifier.StringReader.Items.{Item, IsItem, string_text}
use jsonifier.JsonIterator.White.{IsBlank, white-IsBlank}
use jsonifier.JsonIterator.Skip.Grammar.{
  IsOpening, IsOther, IsPlainByte, IsValue, text, name, container, EndsValue, string_text-append,
}
use jsonifier.JsonIterator.Skip.Containers.{opening_facts, skip_all-container}
use jsonifier.JsonIterator.{ParseOptions, JsonIterator, move_to}
use jsonifier.JsonIterator.Skip.{ends_plain, skip_plain, skip_value_at, skip_value}
use jsonifier.JsonIterator.Skip.Strings.{skip_string-some}
use jsonifier.JsonIterator.Skip.Items.{closing_quote-Items}
use jsonifier.JsonIterator.Skip.Loop.{skip_all, has_byte_other}

other_facts :
    (c : ℕ) → IsOther c → ((c == b'"') ≡ false) × ((c == b'{') ≡ false) × ((c == b'[') ≡ false)
other_facts c h = ground arith

quote_no_white : whitespace_table b'"' ≡ false
unfolding whitespace_table
quote_no_white = refl

module _ (o : ParseOptions) where
  ends_plain-IsPlainByte : (c : ℕ) → IsPlainByte c → ends_plain o c ≡ false
  unfolding ends_plain
  ends_plain-IsPlainByte c h = ground arith

  skip_plain-IsPlainByte :
      (s rest : Bytes) → All IsPlainByte s → EndsValue rest → skip_plain o (s ++ rest) ≡ rest
  unfolding skip_plain ends_plain
  skip_plain-IsPlainByte [] [] h e = refl
  skip_plain-IsPlainByte [] (c ∷ cs) h e = ground arith
  skip_plain-IsPlainByte (c ∷ s) rest (h, hs) e =
      rw (ends_plain-IsPlainByte c h) (skip_plain-IsPlainByte s rest hs e)

  skip_value_at-text :
      (st : JsonIterator) (items : List Item) (rest : Bytes)
      → All IsItem items
      → skip_value_at o (move_to st (b'"' ∷ string_text items rest)) ≡ (true, move_to st rest)
  unfolding skip_value_at
  skip_value_at-text st items rest h =
      rw (has_byte_other o 0 st b'"' (string_text items rest) refl) (
        skip_string-some o (move_to st (b'"' ∷ string_text items rest)) rest
          (closing_quote-Items items rest h))

  skip_value_at-name :
      (st : JsonIterator) (c : ℕ) (s rest : Bytes)
      → IsOther c
      → IsPlainByte c
      → All IsPlainByte s
      → EndsValue rest
      → skip_value_at o (move_to st (c ∷ (s ++ rest))) ≡ (true, move_to st rest)
  unfolding skip_value_at
  skip_value_at-name st c s rest h p hs e =
      let (q, a, b) = other_facts c h in
      rw (has_byte_other o 0 st c (s ++ rest) (ground arith), q, a, b)
        (ap (λ t. (true, move_to st t)) (skip_plain-IsPlainByte (c ∷ s) rest (p, hs) e))

  skip_value_at-container :
      (st : JsonIterator) (c : ℕ) (s : Bytes)
      → IsOpening c
      → skip_value_at o (move_to st (c ∷ s)) ≡ skip_all o 0 (move_to st (c ∷ s))
  unfolding skip_value_at skip_all
  skip_value_at-container st c s (inl e) = rw e (rw (has_byte_other o 0 st b'{' s refl) refl)
  skip_value_at-container st c s (inr e) = rw e (rw (has_byte_other o 0 st b'[' s refl) refl)

  skip_value_at-IsValue :
      (st : JsonIterator) (v rest : Bytes)
      → IsValue v
      → EndsValue rest
      → length v < 2 ^ 64
      → skip_value_at o (move_to st (v ++ rest)) ≡ (true, move_to st rest)
  skip_value_at-IsValue st _ rest (text items h) e l =
      ap (λ t. skip_value_at o (move_to st (b'"' ∷ t))) (string_text-append items [] rest)
      ∙ skip_value_at-text st items rest h
  skip_value_at-IsValue st _ rest (name {c} {s} h p hs) e l =
      skip_value_at-name st c s rest h p hs e
  skip_value_at-IsValue st _ rest (container {opening} {closing} {i} ho hc b) e l =
      skip_value_at-container st opening ((i ++ closing ∷ []) ++ rest) ho
      ∙ ap (λ t. skip_all o 0 (move_to st (opening ∷ t))) (append_assoc i (closing ∷ []) rest)
      ∙ skip_all-container o opening closing st i rest ho hc b
          (omega (arith, length-append i (closing ∷ [])))

  no_white-IsValue : (v rest : Bytes) → IsValue v → whitespace_table (peek (v ++ rest)) ≡ false
  no_white-IsValue _ rest (text items h) = quote_no_white
  no_white-IsValue _ rest (name h p hs) = ground arith
  no_white-IsValue _ rest (container {opening} ho hc b) =
      let (z, q, w) = opening_facts opening ho in w

  -- `skipValue` reads over a value of RFC 8259 and no further: behind white space, where the text is not
  -- minified, it leaves the iterator right behind the string, the number, the literal name, or the
  -- bracket that closes the array or object, with no error and the depths as they were.
  pub skip_value-IsValue :
      (st : JsonIterator) (w v rest : Bytes)
      → IsBlank o w
      → IsValue v
      → EndsValue rest
      → length v < 2 ^ 64
      → skip_value o (move_to st (w ++ (v ++ rest))) ≡ (true, move_to st rest)
  unfolding skip_value
  skip_value-IsValue st w v rest hw hv e l =
      ap (skip_value_at o) (white-IsBlank o st w (v ++ rest) hw (no_white-IsValue v rest hv))
      ∙ skip_value_at-IsValue st v rest hv e l
