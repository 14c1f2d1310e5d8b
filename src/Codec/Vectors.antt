-- ===== src/Codec/Vectors.antt =====
-- include/jsonifier-incl/parsing/parse_impl.hpp and include/jsonifier-incl/serializing/serialize_impl.hpp:
-- a vector that is written is read back.
use jsonifier.Prelude.{
  ℕ, zero, suc, ◌≤◌, ◌<◌, ◌≡◌, refl, ap, ◌∙◌, true, List, [], ◌∷◌, ◌++◌, Bytes, codes, All, length,
  length-append, append_assoc, arith, inl, inr, if_both,
}
use jsonifier.Minifier.{whitespace_table}
use jsonifier.Serializer.{
  SerializeOptions, inner, open_array, comma, close_array, serialize_rest, serialize_vector,
}
use jsonifier.JsonIterator.{ParseOptions, JsonIterator, move_to}
use jsonifier.JsonIterator.White.{IsBlank}
use jsonifier.JsonIterator.Marks.{collect_array_separator}
use jsonifier.JsonIterator.Brackets.{
  HasRoom, in_array, array_start_lem, array_maybe_end_yes, array_maybe_end_no,
  collect_array_separator-ended, collect_array_separator-cont,
}
use jsonifier.JsonIterator.Skip.Grammar.{EndsValue}
use jsonifier.JsonIterator.Iterate.{Parsed, parsed}
use jsonifier.Parser.{
  after_separator, after_element, parse_new, parse_old, after_array_maybe_end, after_array_start,
  parse_vector,
}
use jsonifier.Codec.{Fits, StartsValue, Codec}
use jsonifier.Codec.Layout.{gap, open_array-gap, comma-gap, close_array-gap, gap-IsBlank}

break_white : whitespace_table b'\n' ≡ true
unfolding whitespace_table
break_white = refl

module _ (o : ParseOptions) (p : SerializeOptions) (fits : Fits o p) {A : Type 0} (code : Codec o A)
    (fresh : A) (value_temp : JsonIterator → List A) (n : ℕ) (st : JsonIterator) (rest : Bytes)
    (room : HasRoom o (suc code.levels) st) where
  -- What stands behind an element, and the element with it.
  abbrev behind : List A → Bytes
  behind [] = gap p n ++ b']' ∷ rest
  behind (y ∷ ys) = b',' ∷ (gap p (inner p n) ++ (code.serialize (inner p n) y ++ behind ys))

  abbrev here : A → List A → Bytes
  here x xs = code.serialize (inner p n) x ++ behind xs

  behind-EndsValue : (xs : List A) → EndsValue (behind xs)
  behind-EndsValue [] =
      if_both (λ g. EndsValue (g ++ b']' ∷ rest)) p.prettify (inr (inr (inr break_white)))
        (inr (inl refl))
  behind-EndsValue (y ∷ ys) = inl refl

  inside : HasRoom o code.levels (in_array st)
  inside = record { narrow = room.narrow; room = omega (arith, room.room) }

  element :
      (go : List A → JsonIterator → Parsed (List A)) (done : List A) (x old : A) (xs : List A)
      → code.IsValid x
      → after_element o code.parse fresh value_temp go done
          (code.parse old (in_array (move_to st (here x xs))))
        ≡ after_separator o code.parse fresh value_temp go
            (done ++ x ∷ [])
            (collect_array_separator o (in_array (move_to st (behind xs))))
  unfolding after_element
  element go done x old xs h = ap (after_element o code.parse fresh value_temp go done) (
      code.reads (in_array st) (inner p n) x old [] (behind xs) (tt, inr refl) h
        (behind-EndsValue xs) inside)

  last :
      (go : List A → JsonIterator → Parsed (List A)) (done : List A)
      → after_separator o code.parse fresh value_temp go done
          (collect_array_separator o (in_array (move_to st (behind []))))
        ≡ parsed done (move_to st rest)
  unfolding after_separator
  last go done = ap (after_separator o code.parse fresh value_temp go done) (
      collect_array_separator-ended o st (gap p n) rest (gap-IsBlank o p n fits)
        (omega (arith, room.narrow, room.room)))

  more :
      (go : List A → JsonIterator → Parsed (List A)) (done : List A) (y : A) (ys : List A)
      → code.IsValid y
      → after_separator o code.parse fresh value_temp go done
          (collect_array_separator o (in_array (move_to st (behind (y ∷ ys)))))
        ≡ go done (in_array (move_to st (here y ys)))
  unfolding after_separator
  more go done y ys h = ap (after_separator o code.parse fresh value_temp go done) (
      collect_array_separator-cont o (in_array st) (gap p (inner p n)) (here y ys)
        (gap-IsBlank o p (inner p n) fits) (code.starts (inner p n) y (behind ys) h).0)

  parse_new_lem :
      (fuel : ℕ) (done : List A) (x : A) (xs : List A)
      → length xs < fuel
      → All code.IsValid (x ∷ xs)
      → parse_new o code.parse fresh value_temp fuel done (in_array (move_to st (here x xs)))
        ≡ parsed (done ++ x ∷ xs) (move_to st rest)
  unfolding parse_new
  parse_new_lem zero done x xs l h = absurd (omega arith)
  parse_new_lem (suc fuel) done x [] l (h, hs) = rw (code.starts (inner p n) x (behind []) h).3 (
      element (parse_new o code.parse fresh value_temp fuel) done x fresh [] h
      ∙ last (parse_new o code.parse fresh value_temp fuel) (done ++ x ∷ []))
  parse_new_lem (suc fuel) done x (y ∷ ys) l (h, hs) =
      rw (code.starts (inner p n) x (behind (y ∷ ys)) h).3 (
        element (parse_new o code.parse fresh value_temp fuel) done x fresh (y ∷ ys) h
        ∙ more (parse_new o code.parse fresh value_temp fuel) (done ++ x ∷ []) y ys hs.0
        ∙ parse_new_lem fuel (done ++ x ∷ []) y ys (omega arith) hs
        ∙ ap (λ t. parsed t (move_to st rest)) (append_assoc done (x ∷ []) (y ∷ ys)))

  length-behind : (xs : List A) → length xs ≤ length (behind xs)
  length-behind [] = omega arith
  length-behind (y ∷ ys) = omega (
    arith,
    length-behind ys,
    length-append (gap p (inner p n)) (code.serialize (inner p n) y ++ behind ys),
    length-append (code.serialize (inner p n) y) (behind ys),
  )

  parse_old_lem :
      (old done : List A) (x : A) (xs : List A)
      → All code.IsValid (x ∷ xs)
      → parse_old o code.parse fresh value_temp old done (in_array (move_to st (here x xs)))
        ≡ parsed (done ++ x ∷ xs) (move_to st rest)
  unfolding parse_old
  parse_old_lem [] done x xs h =
      parse_new_lem (suc (length (here x xs))) done x xs
        (omega (arith, length-behind xs, length-append (code.serialize (inner p n) x) (behind xs)))
        h
  parse_old_lem (v ∷ old) done x [] (h, hs) =
      element (parse_old o code.parse fresh value_temp old) done x v [] h
      ∙ last (parse_old o code.parse fresh value_temp old) (done ++ x ∷ [])
  parse_old_lem (v ∷ old) done x (y ∷ ys) (h, hs) =
      element (parse_old o code.parse fresh value_temp old) done x v (y ∷ ys) h
      ∙ more (parse_old o code.parse fresh value_temp old) (done ++ x ∷ []) y ys hs.0
      ∙ parse_old_lem old (done ++ x ∷ []) y ys hs
      ∙ ap (λ t. parsed t (move_to st rest)) (append_assoc done (x ∷ []) (y ∷ ys))

  serialize_rest-behind :
      (xs : List A)
      → serialize_rest p code.serialize (inner p n) xs ++ (close_array p n ++ rest) ≡ behind xs
  unfolding serialize_rest
  serialize_rest-behind [] =
      ap (λ t. t ++ rest) (close_array-gap p n) ∙ append_assoc (gap p n) (codes "]") rest
  serialize_rest-behind (y ∷ ys) =
      append_assoc (comma p (inner p n)) (text ++ others) (close_array p n ++ rest)
      ∙ ap (λ t. t ++ ((text ++ others) ++ (close_array p n ++ rest))) (comma-gap p (inner p n))
      ∙ ap (λ t. b',' ∷ (gap p (inner p n) ++ t))
          (append_assoc text others (close_array p n ++ rest)
            ∙ ap (λ t. text ++ t) (serialize_rest-behind ys))
    where
      text : Bytes
      text = code.serialize (inner p n) y

      others : Bytes
      others = serialize_rest p code.serialize (inner p n) ys

  serialize_vector-here :
      (x : A) (xs : List A)
      → serialize_vector p code.serialize n (x ∷ xs) ++ rest
        ≡ b'[' ∷ (gap p (inner p n) ++ here x xs)
  unfolding serialize_vector
  serialize_vector-here x xs =
      append_assoc (open_array p (inner p n)) (text ++ (others ++ close_array p n)) rest
      ∙ ap (λ t. t ++ ((text ++ (others ++ close_array p n)) ++ rest))
          (open_array-gap p (inner p n))
      ∙ ap (λ t. b'[' ∷ (gap p (inner p n) ++ t))
          (append_assoc text (others ++ close_array p n) rest
            ∙ ap (λ t. text ++ t)
                (append_assoc others (close_array p n) rest ∙ serialize_rest-behind xs))
    where
      text : Bytes
      text = code.serialize (inner p n) x

      others : Bytes
      others = serialize_rest p code.serialize (inner p n) xs

  start_room : HasRoom o 1 st
  start_room = record { narrow = room.narrow; room = omega (arith, room.room) }

  -- `parse_impl<vector_t>` reads back what `serialize_impl<vector_t>` writes, for any type of elements whose
  -- functions do, prettified or not, at any indentation and behind white space, where the depth leaves
  -- room: the same elements in the same order, the iterator behind the closing bracket and its depths as
  -- before. What `valueTemp` held before is immaterial.
  pub parse_vector-serialize_vector :
      (blank : Bytes) (xs : List A)
      → IsBlank o blank
      → All code.IsValid xs
      → parse_vector o code.parse fresh value_temp
          (move_to st (blank ++ (serialize_vector p code.serialize n xs ++ rest)))
        ≡ parsed xs (move_to st rest)
  unfolding parse_vector after_array_start after_array_maybe_end serialize_vector
  parse_vector-serialize_vector blank [] hb h =
      ap
        (after_array_start o code.parse fresh value_temp
          (value_temp (move_to st (blank ++ (b'[' ∷ b']' ∷ rest)))))
        (array_start_lem o st blank (b']' ∷ rest) hb start_room)
      ∙ ap
          (after_array_maybe_end o code.parse fresh value_temp
            (value_temp (move_to st (blank ++ (b'[' ∷ b']' ∷ rest)))))
          (array_maybe_end_yes o st [] rest (tt, inr refl) (omega (arith, room.narrow, room.room)))
  parse_vector-serialize_vector blank (x ∷ xs) hb (h, hs) =
      ap (λ s. parse_vector o code.parse fresh value_temp (move_to st (blank ++ s)))
        (serialize_vector-here x xs)
      ∙ ap (after_array_start o code.parse fresh value_temp old)
          (array_start_lem o st blank (gap p (inner p n) ++ here x xs) hb start_room)
      ∙ ap (after_array_maybe_end o code.parse fresh value_temp old) (
          array_maybe_end_no o (in_array st) (gap p (inner p n)) (here x xs)
            (gap-IsBlank o p (inner p n) fits) starts.0 starts.1)
      ∙ parse_old_lem old [] x xs (h, hs)
    where
      old : List A
      old = value_temp (move_to st (blank ++ b'[' ∷ (gap p (inner p n) ++ here x xs)))

      starts : StartsValue (here x xs)
      starts = code.starts (inner p n) x (behind xs) h

pub bracket_starts : (s t rest : Bytes) → s ++ rest ≡ b'[' ∷ t → StartsValue (s ++ rest)
unfolding whitespace_table
bracket_starts s t rest e = rw e (refl, refl, refl, refl)

module _ (o : ParseOptions) (p : SerializeOptions) (fits : Fits o p) {A : Type 0}
    (code : Codec o A) where
  pub vector_starts :
      (n : ℕ) (xs : List A) (rest : Bytes)
      → (t : Bytes) × (serialize_vector p code.serialize n xs ++ rest ≡ b'[' ∷ t)
  unfolding serialize_vector
  vector_starts n [] rest = (b']' ∷ rest, refl)
  vector_starts n (x ∷ xs) rest = (
    gap p (inner p n) ++ (others ++ rest),
    append_assoc (open_array p (inner p n)) others rest
        ∙ ap (λ t. t ++ (others ++ rest)) (open_array-gap p (inner p n)),
  )
    where
      others : Bytes
      others =
          code.serialize (inner p n) x
          ++ (serialize_rest p code.serialize (inner p n) xs ++ close_array p n)

  -- Vectors of vectors, and so on.
  unfoldable pub vector_codec : A → (JsonIterator → List A) → Codec o (List A)
  vector_codec fresh value_temp = record {
    serialize = serialize_vector p code.serialize;
    parse = λ old st. parse_vector o code.parse fresh value_temp st;
    IsValid = All code.IsValid;
    levels = suc code.levels;
    starts = λ n xs rest h.
        let (t, e) = vector_starts n xs rest in
        bracket_starts (serialize_vector p code.serialize n xs) t rest e;
    reads = λ st n xs old blank rest hb h e room.
        parse_vector-serialize_vector o p fits code fresh value_temp n st rest room blank xs hb h;
  }
