-- ===== src/Minifier/Prettified.antt =====
-- include/jsonifier-incl/serializing/minifier.hpp on the output of
-- include/jsonifier-incl/serializing/prettifier.hpp.
use jsonifier.Prelude.{
  ℕ, ◌+◌, ◌^◌, ◌<◌, ◌≡◌, ◌∙◌, refl, sym, ap, true, List, [], ◌∷◌, ◌++◌, append-nil, append_assoc,
  Bytes, codes, arith, length,
}
use jsonifier.JsonTypes.Tape.{join, positions}
use jsonifier.Prettifier.{PrettifyOptions, newline, impl, returned}
use jsonifier.Prettifier.Layout.{impl-pretty}
use jsonifier.Prettifier.Document.{
  IsDocument, Json, scalar, array, object, no_elements, element, no_members, member, tokens, pretty,
  pretty_elements, pretty_members,
}
use jsonifier.Minifier.{whitespace_table, minify_json, written}
use jsonifier.Minifier.Compact.{mark, Spaced, IsSpaced, laid, compact, minify_json-compact}
use jsonifier.Minifier.Layout.{
  HasTokens, ElementsHaveTokens, MembersHaveTokens, behind_element, behind_member, joined,
  value_spaced, elements_spaced, members_spaced, newline-IsWhite, behind_element-IsWhite,
  behind_member-IsWhite, value_spaced-IsSpaced, elements_spaced-IsSpaced, members_spaced-IsSpaced,
  value-compact, elements-compact, members-compact, value-joined, elements-joined, members-joined,
}

regroup_last :
    (a b c d z : Bytes) → (a ++ (b ++ (c ++ (d ++ [])))) ++ z ≡ a ++ ((b ++ c) ++ (d ++ z))
regroup_last a b c d z = simp (append_assoc, append-nil) refl

regroup_last_member :
    (a k m b c d z : Bytes)
    → (a ++ ((k ++ []) ++ (m ++ (b ++ (c ++ (d ++ [])))))) ++ z
      ≡ a ++ ((k ++ (m ++ (b ++ c))) ++ (d ++ z))
regroup_last_member a k m b c d z = simp (append_assoc, append-nil) refl

module _ (o : PrettifyOptions) (white : whitespace_table o.indent_char ≡ true) where
  -- The tokens of a document but the closing bracket, and that bracket.
  unfoldable pub all_but_last : Json → Spaced
  all_but_last (scalar t) = []
  all_but_last (array no_elements) = (codes "[", []) ∷ []
  all_but_last (array (element v es)) =
      (codes "[", newline o (0 + o.indent_size))
      ∷ value_spaced o white (0 + o.indent_size) v (behind_element es (newline o 0))
          (elements_spaced o white (0 + o.indent_size) es (newline o 0) [])
  all_but_last (object no_members) = (codes "{", []) ∷ []
  all_but_last (object (member k v ms)) =
      (codes "{", newline o (0 + o.indent_size))
      ∷ (k, [])
      ∷ (codes ":", o.indent_char ∷ [])
      ∷ value_spaced o white (0 + o.indent_size) v (behind_member ms (newline o 0))
          (members_spaced o white (0 + o.indent_size) ms (newline o 0) [])

  abbrev pub last_byte : Json → ℕ
  last_byte (object ms) = b'}'
  last_byte _ = b']'

  abbrev pub IsContainer : Json → Type 0
  IsContainer (scalar t) = ⊥
  IsContainer (array es) = Unit
  IsContainer (object ms) = Unit

  -- The tape of the layout of a document.
  abbrev pub pretty_tape : Json → List ℕ
  pretty_tape v = positions 0 (laid (all_but_last v) (last_byte v) [])

  join-laid : (ps : Spaced) (c : ℕ) → join (laid ps c []) ≡ joined ps ++ c ∷ []
  join-laid [] c = refl
  join-laid (p ∷ ps) c =
      ap (λ s. (p.0 ++ p.1) ++ s) (join-laid ps c)
      ∙ sym (append_assoc (p.0 ++ p.1) (joined ps) (c ∷ []))

  laid-pretty :
      (v : Json) → IsContainer v → join (laid (all_but_last v) (last_byte v) []) ≡ pretty o 0 v
  unfolding all_but_last pretty
  laid-pretty (scalar t) h = elim h [ ]
  laid-pretty (array no_elements) h = refl
  laid-pretty (array (element v es)) h =
      join-laid (all_but_last (array (element v es))) b']'
      ∙ ap (λ s. ((b'[' ∷ newline o (0 + o.indent_size)) ++ s) ++ b']' ∷ [])
          (value-joined o white v (0 + o.indent_size) _ _
            ∙ ap (λ s. pretty o (0 + o.indent_size) v ++ s)
                (elements-joined o white es (0 + o.indent_size) (newline o 0) []))
      ∙ regroup_last (b'[' ∷ newline o (0 + o.indent_size)) (pretty o (0 + o.indent_size) v)
          (pretty_elements o (0 + o.indent_size) es) (newline o 0) (codes "]")
  laid-pretty (object no_members) h = refl
  laid-pretty (object (member k v ms)) h =
      join-laid (all_but_last (object (member k v ms))) b'}'
      ∙ ap
          (λ s.
            ((b'{' ∷ newline o (0 + o.indent_size)) ++ ((k ++ []) ++ (b':' ∷ o.indent_char ∷ s)))
            ++ b'}' ∷ [])
          (value-joined o white v (0 + o.indent_size) _ _
            ∙ ap (λ s. pretty o (0 + o.indent_size) v ++ s)
                (members-joined o white ms (0 + o.indent_size) (newline o 0) []))
      ∙ regroup_last_member (b'{' ∷ newline o (0 + o.indent_size)) k (b':' ∷ o.indent_char ∷ [])
          (pretty o (0 + o.indent_size) v) (pretty_members o (0 + o.indent_size) ms) (newline o 0)
          (codes "}")

  all_but_last-IsSpaced : (v : Json) → HasTokens v → IsSpaced (all_but_last v)
  unfolding all_but_last HasTokens ElementsHaveTokens MembersHaveTokens
  all_but_last-IsSpaced (scalar t) h = tt
  all_but_last-IsSpaced (array no_elements) h = ((mark b'[' (omega arith), tt), tt)
  all_but_last-IsSpaced (array (element v es)) (h, hs) = (
    (mark b'[' (omega arith), newline-IsWhite o white (0 + o.indent_size)),
    value_spaced-IsSpaced o white v (0 + o.indent_size) _ _ h
        (behind_element-IsWhite o white es _ (newline-IsWhite o white 0))
        (elements_spaced-IsSpaced o white es (0 + o.indent_size) (newline o 0) [] hs
          (newline-IsWhite o white 0) tt),
  )
  all_but_last-IsSpaced (object no_members) h = ((mark b'{' (omega arith), tt), tt)
  all_but_last-IsSpaced (object (member k v ms)) (hk, h, hs) = (
    (mark b'{' (omega arith), newline-IsWhite o white (0 + o.indent_size)),
    (
      (hk, tt),
      (
        (mark b':' (omega arith), (white, tt)),
        value_spaced-IsSpaced o white v (0 + o.indent_size) _ _ h
            (behind_member-IsWhite o white ms _ (newline-IsWhite o white 0))
            (members_spaced-IsSpaced o white ms (0 + o.indent_size) (newline o 0) [] hs
              (newline-IsWhite o white 0) tt),
      ),
    ),
  )

  all_but_last-compact :
      (v : Json) → IsContainer v → compact (all_but_last v) ++ last_byte v ∷ [] ≡ join (tokens v [])
  unfolding all_but_last tokens
  all_but_last-compact (scalar t) h = elim h [ ]
  all_but_last-compact (array no_elements) h = refl
  all_but_last-compact (array (element v es)) h =
      ap (λ s. b'[' ∷ s)
        (value-compact o white v (0 + o.indent_size) _ _ (codes "]") _ (
          elements-compact o white es (0 + o.indent_size) (newline o 0) [] (codes "]")
            (codes "]" ∷ []) refl))
  all_but_last-compact (object no_members) h = refl
  all_but_last-compact (object (member k v ms)) h =
      ap (λ s. b'{' ∷ s) (append_assoc k _ (codes "}"))
      ∙ ap (λ s. b'{' ∷ (k ++ (b':' ∷ s)))
          (value-compact o white v (0 + o.indent_size) _ _ (codes "}") _ (
            members-compact o white ms (0 + o.indent_size) (newline o 0) [] (codes "}")
              (codes "}" ∷ []) refl))

  minify_json-pretty :
      (size : ℕ) (v : Json)
      → IsContainer v
      → HasTokens v
      → minify_json size (pretty o 0 v) (pretty_tape v) ≡ written (join (tokens v []))
  minify_json-pretty size v c h =
      ap (λ text. minify_json size text (pretty_tape v)) (sym (laid-pretty v c))
      ∙ minify_json-compact size [] (all_but_last v) (last_byte v) [] (all_but_last-IsSpaced v h)
      ∙ ap written (all_but_last-compact v c)

  -- Prettifying a document without white space, and minifying the outcome along the tape of its tokens,
  -- gives the document back. The document is an array or an object of fewer than 2 ^ 64 tokens, with no
  -- empty object in it; its strings end at their closing quotes and its numbers have no white space in
  -- them; the indentation is by white space.
  pub minify_json-impl :
      (size : ℕ) (v : Json)
      → IsContainer v
      → HasTokens v
      → IsDocument v
      → length (tokens v []) < 2 ^ 64
      → (impl o (join (tokens v [])) (positions 0 (tokens v [])) ≡ returned (pretty o 0 v))
        × (minify_json size (pretty o 0 v) (pretty_tape v) ≡ written (join (tokens v [])))
  minify_json-impl size v c h d l = (impl-pretty o v d l, minify_json-pretty size v c h)
