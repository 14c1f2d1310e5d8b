-- ===== src/JsonIterator/Members.antt =====
-- include/jsonifier-incl/utilities/json_iterator.hpp: `skipRemainingObject` on the members of an object.
use jsonifier.Prelude.{
  ℕ, zero, suc, ◌+◌, ◌^◌, ◌≤◌, ◌<◌, ◌≡◌, ◌⊎◌, refl, ap, ◌∙◌, true, false, List, [], ◌∷◌, ◌++◌,
  Bytes, peek, All, length, length-append, arith, inl, inr, if_both,
}
use jsonifier.Minifier.{whitespace_table}
use jsonifier.StringReader.Items.{Item, IsItem, string_text}
use jsonifier.JsonIterator.{ParseOptions, JsonIterator, Outcome, move_to, if_ok}
use jsonifier.JsonIterator.White.{IsBlank, white-IsBlank}
use jsonifier.JsonIterator.Brackets.{comma_no_white}
use jsonifier.JsonIterator.Marks.{collect_object_comma, collect_object_colon}
use jsonifier.JsonIterator.Braces.{
  in_object, object_maybe_end_yes, object_maybe_end_no, collect_object_separator-ended,
  collect_object_separator_comma, collect_object_comma_lem, collect_object_colon_lem,
}
use jsonifier.JsonIterator.Skip.{
  skip_value, after_comma, unless_end, after_member, skip_member, skip_members,
  skip_remaining_object,
}
use jsonifier.JsonIterator.Skip.Strings.{skip_string-some}
use jsonifier.JsonIterator.Skip.Items.{closing_quote-Items}
use jsonifier.JsonIterator.Skip.Grammar.{IsValue, EndsValue, le-string_text}
use jsonifier.JsonIterator.Skip.Values.{skip_value-IsValue}

-- A member with the white space around its colon and behind its value, and in front of its key.
pub record Member : Type 0 where
  pub before : Bytes
  pub key : List Item
  pub before_colon : Bytes
  pub before_value : Bytes
  pub value : Bytes
  pub behind : Bytes

pub record IsMember (o : ParseOptions) (m : Member) : Type 0 where
  pub before : IsBlank o m.before
  pub key : All IsItem m.key
  pub before_colon : IsBlank o m.before_colon
  pub before_value : IsBlank o m.before_value
  pub value : IsValue m.value
  pub short : length m.value < 2 ^ 64
  pub behind : IsBlank o m.behind

abbrev pub member_text : Member → Bytes → Bytes
member_text m s =
    b'"'
    ∷ string_text m.key
        (m.before_colon ++ (b':' ∷ (m.before_value ++ (m.value ++ (m.behind ++ s)))))

-- The members up to the closing bracket, before `rest`.
abbrev pub members_text : Member → List Member → Bytes → Bytes
members_text m [] rest = member_text m (b'}' ∷ rest)
members_text m (n ∷ ms) rest = member_text m (b',' ∷ (n.before ++ members_text n ms rest))

quote_no_white : whitespace_table b'"' ≡ false
unfolding whitespace_table
quote_no_white = refl

ends_at :
    (blank : Bytes) (c : ℕ) (s : Bytes) (o : ParseOptions)
    → IsBlank o blank
    → (c ≡ b',') ⊎ (c ≡ b'}')
    → EndsValue (blank ++ c ∷ s)
ends_at [] c s o h (inl e) = inl e
ends_at [] c s o h (inr e) = inr (inr (inl e))
ends_at (b ∷ bs) c s o h e = inr (inr (inr h.0.0))

members_no_white :
    (m : Member) (ms : List Member) (rest : Bytes)
    → whitespace_table (peek (members_text m ms rest)) ≡ false
members_no_white m [] rest = quote_no_white
members_no_white m (n ∷ ms) rest = quote_no_white

length-member_text : (m : Member) (s : Bytes) → length s < length (member_text m s)
length-member_text m s = omega (
  arith,
  le-string_text m.key
      (m.before_colon ++ (b':' ∷ (m.before_value ++ (m.value ++ (m.behind ++ s))))),
  length-append m.before_colon (b':' ∷ (m.before_value ++ (m.value ++ (m.behind ++ s)))),
  length-append m.before_value (m.value ++ (m.behind ++ s)),
  length-append m.value (m.behind ++ s),
  length-append m.behind s,
)

length-members_text :
    (m : Member) (ms : List Member) (rest : Bytes) → length ms ≤ length (members_text m ms rest)
length-members_text m [] rest = omega arith
length-members_text m (n ∷ ms) rest = omega (
  arith,
  length-members_text n ms rest,
  length-member_text m (b',' ∷ (n.before ++ members_text n ms rest)),
  length-append n.before (members_text n ms rest),
)

module _ (o : ParseOptions) (st : JsonIterator) (rest : Bytes)
    (room : st.current_object_depth + 1 < 2 ^ 64) where
  skip_member-text :
      (go : JsonIterator → Outcome) (m : Member) (s : Bytes)
      → IsMember o m
      → EndsValue (m.behind ++ s)
      → skip_member o go (in_object (move_to st (member_text m s)))
        ≡ after_member o go (in_object (move_to st (m.behind ++ s)))
  unfolding skip_member if_ok
  skip_member-text go m s h e =
      ap
        (if_ok (λ st'.
          if_ok (λ st''. if_ok (after_member o go) (skip_value o st''))
            (collect_object_colon o st')))
        (skip_string-some o (in_object (move_to st (member_text m s))) colon
          (closing_quote-Items m.key colon h.key))
      ∙ ap (if_ok (λ st''. if_ok (after_member o go) (skip_value o st''))) (
          collect_object_colon_lem o (in_object st) m.before_colon
            (m.before_value ++ (m.value ++ (m.behind ++ s))) h.before_colon)
      ∙ ap (if_ok (after_member o go)) (
          skip_value-IsValue o (in_object st) m.before_value m.value (m.behind ++ s) h.before_value
            h.value e h.short)
    where
      colon : Bytes
      colon = m.before_colon ++ (b':' ∷ (m.before_value ++ (m.value ++ (m.behind ++ s))))

  after_member-last :
      (go : JsonIterator → Outcome) (blank : Bytes)
      → IsBlank o blank
      → after_member o go (in_object (move_to st (blank ++ b'}' ∷ rest))) ≡ (true, move_to st rest)
  unfolding after_member unless_end after_comma
  after_member-last go blank hb =
      if_both (λ x. x ≡ (true, move_to st rest)) o.minified
        (ap (unless_end (λ st'. if_ok go (collect_object_comma o st')))
          (object_maybe_end_yes o st blank rest hb room))
        (ap (after_comma go) (collect_object_separator-ended o st blank rest hb room))

  -- The next round starts in front of the key or behind the white space in front of it.
  after_member-comma :
      (go : JsonIterator → Outcome) (blank before s : Bytes)
      → IsBlank o blank
      → IsBlank o before
      → whitespace_table (peek s) ≡ false
      → go (in_object (move_to st (before ++ s))) ≡ (true, move_to st rest)
      → go (in_object (move_to st s)) ≡ (true, move_to st rest)
      → after_member o go (in_object (move_to st (blank ++ b',' ∷ (before ++ s))))
        ≡ (true, move_to st rest)
  unfolding after_member unless_end after_comma if_ok
  after_member-comma go blank before s hb hw w g k =
      if_both (λ x. x ≡ (true, move_to st rest)) o.minified
        (ap (unless_end (λ st'. if_ok go (collect_object_comma o st'))) (
            object_maybe_end_no o (in_object st) blank (b',' ∷ (before ++ s)) hb comma_no_white
              refl)
          ∙ ap (if_ok go)
              (collect_object_comma_lem o (in_object st) [] (before ++ s) (tt, inr refl))
          ∙ g)
        (ap (after_comma go)
            (collect_object_separator_comma o (in_object st) blank (before ++ s) hb)
          ∙ ap go (white-IsBlank o (in_object st) before s hw w)
          ∙ k)

  skip_members-text :
      (fuel : ℕ) (blank : Bytes) (m : Member) (ms : List Member)
      → length ms < fuel
      → IsBlank o blank
      → All (IsMember o) (m ∷ ms)
      → skip_members o fuel (in_object (move_to st (blank ++ members_text m ms rest)))
        ≡ (true, move_to st rest)
  unfolding skip_members
  skip_members-text zero blank m ms l hb h = absurd (omega arith)
  skip_members-text (suc fuel) blank m [] l hb (h, hs) =
      ap (skip_member o (skip_members o fuel))
        (white-IsBlank o (in_object st) blank (members_text m [] rest) hb quote_no_white)
      ∙ skip_member-text (skip_members o fuel) m (b'}' ∷ rest) h
          (ends_at m.behind b'}' rest o h.behind (inr refl))
      ∙ after_member-last (skip_members o fuel) m.behind h.behind
  skip_members-text (suc fuel) blank m (n ∷ ms) l hb (h, hs) =
      ap (skip_member o (skip_members o fuel))
        (white-IsBlank o (in_object st) blank (members_text m (n ∷ ms) rest) hb quote_no_white)
      ∙ skip_member-text (skip_members o fuel) m (b',' ∷ (n.before ++ members_text n ms rest)) h
          (ends_at m.behind b',' (n.before ++ members_text n ms rest) o h.behind (inl refl))
      ∙ after_member-comma (skip_members o fuel) m.behind n.before (members_text n ms rest) h.behind
          hs.0.before quote (skip_members-text fuel n.before n ms (omega arith) hs.0.before hs)
          (skip_members-text fuel [] n ms (omega arith) (tt, inr refl) hs)
    where
      quote : whitespace_table (peek (members_text n ms rest)) ≡ false
      quote = members_no_white n ms rest

  -- `skipRemainingObject` on one or more members of an object, each with any white space around its key,
  -- colon and value that the options allow: it reads over all of them and the closing bracket, and no
  -- further, lowers the object depth, and adds no error.
  pub skip_remaining_object-members_text :
      (blank : Bytes) (m : Member) (ms : List Member)
      → IsBlank o blank
      → All (IsMember o) (m ∷ ms)
      → skip_remaining_object o (in_object (move_to st (blank ++ members_text m ms rest)))
        ≡ (true, move_to st rest)
  unfolding skip_remaining_object
  skip_remaining_object-members_text blank m ms hb h =
      skip_members-text (suc (length (blank ++ members_text m ms rest))) blank m ms
        (omega (arith, length-append blank (members_text m ms rest), length-members_text m ms rest))
        hb h
