-- ===== src/JsonIterator/White.antt =====
-- include/jsonifier-incl/utilities/json_iterator.hpp: the calls of `skipWhitespace`.
use jsonifier.Prelude.{
  ◌≡◌, ◌⊎◌, refl, ap, ◌∙◌, true, false, [], ◌∷◌, ◌++◌, Bytes, peek, inl, inr, Bool-cases, arith,
}
use jsonifier.Minifier.{whitespace_table}
use jsonifier.Minifier.Compact.{IsWhite}
use jsonifier.JsonIterator.{ParseOptions, JsonIterator, move_to}
use jsonifier.JsonIterator.Whitespace.{
  trim_start, skip_whitespace-trim_start, trim_start_white, trim_start_other, trim_start_nothing,
}
use jsonifier.JsonIterator.Marks.{white}

-- White space that the options let stand before a token.
abbrev pub IsBlank : ParseOptions → Bytes → Type 0
IsBlank o w = IsWhite w × ((o.minified ≡ false) ⊎ (w ≡ []))

module _ (o : ParseOptions) where
  pub white_minified : (st : JsonIterator) → o.minified ≡ true → white o st ≡ st
  unfolding white
  white_minified st m = rw m refl

  pub white-trim_start :
      (st : JsonIterator) → o.minified ≡ false → white o st ≡ move_to st (trim_start st.iter)
  unfolding white
  white-trim_start st h = rw h (ap (move_to st) (skip_whitespace-trim_start st.iter))

  trim_start-IsWhite : (w s : Bytes) → IsWhite w → trim_start (w ++ s) ≡ trim_start s
  trim_start-IsWhite [] s h = refl
  trim_start-IsWhite (c ∷ w) s (h, hs) = trim_start_white c (w ++ s) h ∙ trim_start-IsWhite w s hs

  trim_start_done : (s : Bytes) → whitespace_table (peek s) ≡ false → trim_start s ≡ s
  trim_start_done [] h = trim_start_nothing
  trim_start_done (c ∷ cs) h = trim_start_other c cs h

  pub white-IsBlank :
      (st : JsonIterator) (w s : Bytes)
      → IsBlank o w
      → whitespace_table (peek s) ≡ false
      → white o (move_to st (w ++ s)) ≡ move_to st s
  white-IsBlank st w s (hw, h) hs = elim (Bool-cases o.minified) [
    | inl m ↦ elim h [
      | inl n ↦ absurd (ground arith)
      | inr e ↦ white_minified (move_to st (w ++ s)) m ∙ ap (λ t. move_to st (t ++ s)) e
    ]
    | inr m ↦
        white-trim_start (move_to st (w ++ s)) m
        ∙ ap (move_to st) (trim_start-IsWhite w s hw ∙ trim_start_done s hs)
  ]
