-- ===== src/Codec/Maps.antt =====
-- include/jsonifier-incl/parsing/parse_impl.hpp and include/jsonifier-incl/serializing/serialize_impl.hpp:
-- a map with strings for keys that is written is read back.
use jsonifier.Prelude.{
  ℕ, zero, suc, ◌≤◌, ◌<◌, ◌≡◌, refl, ap, ◌∙◌, true, List, [], ◌∷◌, ◌++◌, Bytes, codes, next, All,
  length, length-append, append_assoc, arith, inl, inr, if_both,
}
use jsonifier.Minifier.{whitespace_table}
use jsonifier.StringWriter.{write_string}
use jsonifier.StringWriter.Blocks.{Sizes}
use jsonifier.StringRoundTrip.{IsText}
use jsonifier.Serializer.{
  SerializeOptions, inner, open_object, comma, colon, close_object, serialize_pair, serialize_pairs,
  serialize_map,
}
use jsonifier.JsonIterator.{ParseOptions, JsonIterator, move_to}
use jsonifier.JsonIterator.White.{IsBlank}
use jsonifier.JsonIterator.Marks.{collect_object_separator}
use jsonifier.JsonIterator.Brackets.{HasRoom}
use jsonifier.JsonIterator.Braces.{
  in_object, object_start_lem, object_maybe_end_yes, object_maybe_end_no,
  collect_object_separator-ended, collect_object_separator-cont, collect_object_colon_lem,
}
use jsonifier.JsonIterator.Skip.Grammar.{EndsValue}
use jsonifier.JsonIterator.Iterate.{Parsed, parsed}
use jsonifier.Parser.{
  parse_string, after_map_separator, after_value, after_colon, after_key, parse_pairs,
  after_object_maybe_end, after_object_start, parse_map,
}
use jsonifier.Codec.{Fits, StartsValue, Codec}
use jsonifier.Codec.Scalars.{quote_starts, write_string_starts, string_reads}
use jsonifier.Codec.Layout.{
  gap, space, open_object-gap, comma-gap, close_object-gap, colon-space, gap-IsBlank, space-IsBlank,
}

break_white : whitespace_table b'\n' ≡ true
unfolding whitespace_table
break_white = refl

-- The map once the pairs are stored one after the other.
abbrev pub puts : {K V M : Type 0} → (M → K → V → M) → M → List (K × V) → M
puts put m [] = m
puts put m (x ∷ xs) = puts put (put m x.0 x.1) xs

module _ (o : ParseOptions) (p : SerializeOptions) (fits : Fits o p) (writes reads : List ℕ)
    (zw : Sizes writes) (zr : Sizes reads) {V M : Type 0} (code : Codec o V) (at : M → Bytes → V)
    (put : M → Bytes → V → M) (key_new : JsonIterator → Bytes) (n : ℕ) (st : JsonIterator)
    (rest : Bytes) (room : HasRoom o (suc code.levels) st) where
  abbrev IsPair : Bytes × V → Type 0
  IsPair x = All IsText x.0 × code.IsValid x.1

  -- `parse_key`, and the loops for it
  abbrev key : Bytes → JsonIterator → Parsed Bytes
  key old st' = parse_string o reads st'

  abbrev loop : ℕ → M → JsonIterator → Parsed M
  loop = parse_pairs o key code.parse at put key_new

  abbrev pair_text : Bytes × V → Bytes → Bytes
  pair_text x s =
      write_string writes x.0 ++ (b':' ∷ (space p ++ (code.serialize (inner p n) x.1 ++ s)))

  -- What stands behind a pair.
  abbrev behind : List (Bytes × V) → Bytes
  behind [] = gap p n ++ b'}' ∷ rest
  behind (y ∷ ys) = b',' ∷ (gap p (inner p n) ++ pair_text y (behind ys))

  behind-EndsValue : (xs : List (Bytes × V)) → EndsValue (behind xs)
  behind-EndsValue [] =
      if_both (λ g. EndsValue (g ++ b'}' ∷ rest)) p.prettify (inr (inr (inr break_white)))
        (inr (inr (inl refl)))
  behind-EndsValue (y ∷ ys) = inl refl

  inside : HasRoom o code.levels (in_object st)
  inside = record { narrow = room.narrow; room = omega (arith, room.room) }

  pair_text_starts : (x : Bytes × V) (s : Bytes) → StartsValue (pair_text x s)
  pair_text_starts x s =
      quote_starts (pair_text x s) (next (pair_text x s))
        (write_string_starts writes x.0 (b':' ∷ (space p ++ (code.serialize (inner p n) x.1 ++ s))))

  pair_lem :
      (go : M → JsonIterator → Parsed M) (m : M) (x : Bytes × V) (xs : List (Bytes × V))
      (old : Bytes)
      → IsPair x
      → after_key o key code.parse at put key_new go m
          (key old (in_object (move_to st (pair_text x (behind xs)))))
        ≡ after_map_separator o key code.parse at put key_new go
            (put m x.0 x.1)
            (collect_object_separator o (in_object (move_to st (behind xs))))
  unfolding after_key after_colon after_value
  pair_lem go m x xs old (hk, hv) =
      ap (after_key o key code.parse at put key_new go m) (
        string_reads o writes reads (in_object st) x.0 []
          (b':' ∷ (space p ++ (code.serialize (inner p n) x.1 ++ behind xs))) (tt, inr refl) zw zr
          hk)
      ∙ ap (after_colon o key code.parse at put key_new go m x.0) (
          collect_object_colon_lem o (in_object st) []
            (space p ++ (code.serialize (inner p n) x.1 ++ behind xs)) (tt, inr refl))
      ∙ ap (after_value o key code.parse at put key_new go m x.0) (
          code.reads (in_object st) (inner p n) x.1 (at m x.0) (space p) (behind xs)
            (space-IsBlank o p fits) hv (behind-EndsValue xs) inside)

  last :
      (go : M → JsonIterator → Parsed M) (m : M)
      → after_map_separator o key code.parse at put key_new go m
          (collect_object_separator o (in_object (move_to st (behind []))))
        ≡ parsed m (move_to st rest)
  unfolding after_map_separator
  last go m = ap (after_map_separator o key code.parse at put key_new go m) (
      collect_object_separator-ended o st (gap p n) rest (gap-IsBlank o p n fits)
        (omega (arith, room.narrow, room.room)))

  more :
      (go : M → JsonIterator → Parsed M) (m : M) (y : Bytes × V) (ys : List (Bytes × V))
      → after_map_separator o key code.parse at put key_new go m
          (collect_object_separator o (in_object (move_to st (behind (y ∷ ys)))))
        ≡ go m (in_object (move_to st (pair_text y (behind ys))))
  unfolding after_map_separator
  more go m y ys = ap (after_map_separator o key code.parse at put key_new go m) (
      collect_object_separator-cont o (in_object st) (gap p (inner p n)) (pair_text y (behind ys))
        (gap-IsBlank o p (inner p n) fits) (pair_text_starts y (behind ys)).0)

  parse_pairs_lem :
      (fuel : ℕ) (m : M) (x : Bytes × V) (xs : List (Bytes × V))
      → length xs < fuel
      → All IsPair (x ∷ xs)
      → loop fuel m (in_object (move_to st (pair_text x (behind xs))))
        ≡ parsed (puts put m (x ∷ xs)) (move_to st rest)
  unfolding parse_pairs
  parse_pairs_lem zero m x xs l h = absurd (omega arith)
  parse_pairs_lem (suc fuel) m x [] l (h, hs) =
      pair_lem (loop fuel) m x [] (key_new (in_object (move_to st (pair_text x (behind []))))) h
      ∙ last (loop fuel) (put m x.0 x.1)
  parse_pairs_lem (suc fuel) m x (y ∷ ys) l (h, hs) =
      pair_lem (loop fuel) m x (y ∷ ys)
        (key_new (in_object (move_to st (pair_text x (behind (y ∷ ys)))))) h
      ∙ more (loop fuel) (put m x.0 x.1) y ys
      ∙ parse_pairs_lem fuel (put m x.0 x.1) y ys (omega arith) hs

  length-pair_text : (x : Bytes × V) (s : Bytes) → length s < length (pair_text x s)
  length-pair_text x s = omega (
    arith,
    length-append (write_string writes x.0)
        (b':' ∷ (space p ++ (code.serialize (inner p n) x.1 ++ s))),
    length-append (space p) (code.serialize (inner p n) x.1 ++ s),
    length-append (code.serialize (inner p n) x.1) s,
  )

  length-behind : (xs : List (Bytes × V)) → length xs ≤ length (behind xs)
  length-behind [] = omega arith
  length-behind (y ∷ ys) = omega (
    arith,
    length-behind ys,
    length-append (gap p (inner p n)) (pair_text y (behind ys)),
    length-pair_text y (behind ys),
  )

  serialize_pair-pair_text :
      (x : Bytes × V) (others s : Bytes)
      → (serialize_pair p (λ i k. write_string writes k) code.serialize (inner p n) x ++ others)
          ++ s
        ≡ pair_text x (others ++ s)
  unfolding serialize_pair
  serialize_pair-pair_text x others s =
      append_assoc (key_text ++ (colon p ++ value_text)) others s
      ∙ append_assoc key_text (colon p ++ value_text) (others ++ s)
      ∙ ap (λ t. key_text ++ t)
          (append_assoc (colon p) value_text (others ++ s)
            ∙ ap (λ t. t ++ (value_text ++ (others ++ s))) (colon-space p))
    where
      key_text : Bytes
      key_text = write_string writes x.0

      value_text : Bytes
      value_text = code.serialize (inner p n) x.1

  abbrev pairs : List (Bytes × V) → Bytes
  pairs xs = serialize_pairs p (λ i k. write_string writes k) code.serialize (inner p n) xs

  serialize_pairs-behind :
      (xs : List (Bytes × V)) → pairs xs ++ (close_object p n ++ rest) ≡ behind xs
  unfolding serialize_pairs
  serialize_pairs-behind [] =
      ap (λ t. t ++ rest) (close_object-gap p n) ∙ append_assoc (gap p n) (codes "}") rest
  serialize_pairs-behind (y ∷ ys) =
      append_assoc (comma p (inner p n)) (text ++ pairs ys) (close_object p n ++ rest)
      ∙ ap (λ t. t ++ ((text ++ pairs ys) ++ (close_object p n ++ rest))) (comma-gap p (inner p n))
      ∙ ap (λ t. b',' ∷ (gap p (inner p n) ++ t))
          (serialize_pair-pair_text y (pairs ys) (close_object p n ++ rest)
            ∙ ap (pair_text y) (serialize_pairs-behind ys))
    where
      text : Bytes
      text = serialize_pair p (λ i k. write_string writes k) code.serialize (inner p n) y

  serialize_map-pair_text :
      (x : Bytes × V) (xs : List (Bytes × V))
      → serialize_map p (λ i k. write_string writes k) code.serialize n (x ∷ xs) ++ rest
        ≡ b'{' ∷ (gap p (inner p n) ++ pair_text x (behind xs))
  unfolding serialize_map
  serialize_map-pair_text x xs =
      append_assoc (open_object p (inner p n)) (text ++ (pairs xs ++ close_object p n)) rest
      ∙ ap (λ t. t ++ ((text ++ (pairs xs ++ close_object p n)) ++ rest))
          (open_object-gap p (inner p n))
      ∙ ap (λ t. b'{' ∷ (gap p (inner p n) ++ t))
          (serialize_pair-pair_text x (pairs xs ++ close_object p n) rest
            ∙ ap (pair_text x)
                (append_assoc (pairs xs) (close_object p n) rest ∙ serialize_pairs-behind xs))
    where
      text : Bytes
      text = serialize_pair p (λ i k. write_string writes k) code.serialize (inner p n) x

  start_room : HasRoom o 1 st
  start_room = record { narrow = room.narrow; room = omega (arith, room.room) }

  -- `parse_impl<map_t>` reads back what `serialize_impl<map_t>` writes for a map with strings for keys and
  -- values of any type whose functions do, prettified or not, at any indentation and behind white space,
  -- where the depth leaves room and no key has a NUL, a BEL or a vertical tab: each pair is stored in the
  -- map under its key in the order of the text, over what the map held before, and the iterator is behind
  -- the closing bracket with its depths as before.
  pub parse_map-serialize_map :
      (blank : Bytes) (m : M) (xs : List (Bytes × V))
      → IsBlank o blank
      → All IsPair xs
      → parse_map o key code.parse at put key_new m (
          move_to st
            (blank ++ (serialize_map p (λ i k. write_string writes k) code.serialize n xs ++ rest)))
        ≡ parsed (puts put m xs) (move_to st rest)
  unfolding parse_map after_object_start after_object_maybe_end serialize_map
  parse_map-serialize_map blank m [] hb h =
      ap (after_object_start o key code.parse at put key_new m)
        (object_start_lem o st blank (b'}' ∷ rest) hb start_room)
      ∙ ap (after_object_maybe_end o key code.parse at put key_new m)
          (object_maybe_end_yes o st [] rest (tt, inr refl) (omega (arith, room.narrow, room.room)))
  parse_map-serialize_map blank m (x ∷ xs) hb h =
      ap (λ s. parse_map o key code.parse at put key_new m (move_to st (blank ++ s)))
        (serialize_map-pair_text x xs)
      ∙ ap (after_object_start o key code.parse at put key_new m)
          (object_start_lem o st blank (gap p (inner p n) ++ pair_text x (behind xs)) hb start_room)
      ∙ ap (after_object_maybe_end o key code.parse at put key_new m) (
          object_maybe_end_no o (in_object st) (gap p (inner p n)) (pair_text x (behind xs))
            (gap-IsBlank o p (inner p n) fits) starts.0 starts.2)
      ∙ parse_pairs_lem (suc (length (pair_text x (behind xs)))) m x xs
          (omega (arith, length-behind xs, length-pair_text x (behind xs))) h
    where
      starts : StartsValue (pair_text x (behind xs))
      starts = pair_text_starts x (behind xs)
