-- ===== src/Parser.antt =====
-- include/jsonifier-incl/parsing/parse_impl.hpp: strings, vectors and maps, over `json_iterator`.
use jsonifier.Prelude.{ℕ, zero, suc, true, false, List, [], ◌∷◌, ◌++◌, if◌then◌else◌, Bytes, length}
use jsonifier.JsonIterator.{
  ParseOptions, JsonIterator, Outcome, not_at_end_pre, check_char, unexpected_string_end,
  invalid_string_characters,
}
use jsonifier.JsonIterator.Marks.{
  white, array_start, array_maybe_end, SepResult, cont, ended, error, collect_array_separator,
  object_start, object_maybe_end, collect_object_colon, collect_object_separator,
}
use jsonifier.JsonIterator.Iterate.{Parsed, parsed, unparsed, unknown, refuse, iterate_string}

-- what follows `checkChar<'"'>`
unfoldable pub after_check : List ℕ → Outcome → Parsed Bytes
after_check sizes (true, st) = iterate_string sizes st
after_check sizes (false, st) = refuse invalid_string_characters st

-- `parse_impl<string_t>`
unfoldable pub parse_string : ParseOptions → List ℕ → JsonIterator → Parsed Bytes
parse_string o sizes st = after_check sizes (check_char o b'"' (white o st))

-- `parse_impl<vector_t>`, for the function of an element, which reads over a value that stands there
-- before, and the value of a new element. `value_temp` gives the elements that the thread's `valueTemp`
-- has when the vector at a state is read.
module _ {A : Type 0} (o : ParseOptions) (parse : A → JsonIterator → Parsed A) (fresh : A)
    (value_temp : JsonIterator → List A) where
  -- the switch behind an element
  unfoldable pub after_separator :
      (List A → JsonIterator → Parsed (List A))
      → List A
      → SepResult × JsonIterator
      → Parsed (List A)
  after_separator go done (cont, st) = go done st
  after_separator go done (ended, st) = parsed done st
  after_separator go done (error, st) = unparsed st

  unfoldable pub after_element :
      (List A → JsonIterator → Parsed (List A)) → List A → Parsed A → Parsed (List A)
  after_element go done (parsed v st) =
      after_separator go (done ++ v ∷ []) (collect_array_separator o st)
  after_element go done (unparsed st) = unparsed st
  after_element go done unknown = unknown

  -- `while (context.notAtEndPre())`, with fuel; `done` has the elements read
  unfoldable pub parse_new : ℕ → List A → JsonIterator → Parsed (List A)
  parse_new zero done st = unparsed st
  parse_new (suc fuel) done st =
      if not_at_end_pre st
      then after_element (λ done' st'. parse_new fuel done' st') done (parse fresh st)
      else refuse unexpected_string_end st

  -- the loop over the elements that `valueTemp` has
  unfoldable pub parse_old : List A → List A → JsonIterator → Parsed (List A)
  parse_old [] done st = parse_new (suc (length st.iter)) done st
  parse_old (x ∷ xs) done st = after_element (λ done' st'. parse_old xs done' st') done (parse x st)

  unfoldable pub after_array_maybe_end : List A → Outcome → Parsed (List A)
  after_array_maybe_end old (true, st) = parsed [] st
  after_array_maybe_end old (false, st) = parse_old old [] st

  unfoldable pub after_array_start : List A → Outcome → Parsed (List A)
  after_array_start old (true, st) = after_array_maybe_end old (array_maybe_end o st)
  after_array_start old (false, st) = unparsed st

  unfoldable pub parse_vector : JsonIterator → Parsed (List A)
  parse_vector st = after_array_start (value_temp st) (array_start o st)

-- `parse_impl<map_t>`, for the functions of a key and of a value. The map is a container of the standard
-- library: `at` is the value that `value[key]` refers to, and `put` the map once that value is stored.
-- `key_new` is what the thread's key has when the key at a state is read.
module _ {K V M : Type 0} (o : ParseOptions) (parse_key : K → JsonIterator → Parsed K)
    (parse_value : V → JsonIterator → Parsed V) (at : M → K → V) (put : M → K → V → M)
    (key_new : JsonIterator → K) where
  -- the switch behind a value
  unfoldable pub after_map_separator :
      (M → JsonIterator → Parsed M) → M → SepResult × JsonIterator → Parsed M
  after_map_separator go m (cont, st) = go m st
  after_map_separator go m (ended, st) = parsed m st
  after_map_separator go m (error, st) = unparsed st

  unfoldable pub after_value : (M → JsonIterator → Parsed M) → M → K → Parsed V → Parsed M
  after_value go m k (parsed v st) =
      after_map_separator go (put m k v) (collect_object_separator o st)
  after_value go m k (unparsed st) = unparsed st
  after_value go m k unknown = unknown

  unfoldable pub after_colon : (M → JsonIterator → Parsed M) → M → K → Outcome → Parsed M
  after_colon go m k (true, st) = after_value go m k (parse_value (at m k) st)
  after_colon go m k (false, st) = unparsed st

  unfoldable pub after_key : (M → JsonIterator → Parsed M) → M → Parsed K → Parsed M
  after_key go m (parsed k st) = after_colon go m k (collect_object_colon o st)
  after_key go m (unparsed st) = unparsed st
  after_key go m unknown = unknown

  -- the loop, with fuel; a round takes a byte at least
  unfoldable pub parse_pairs : ℕ → M → JsonIterator → Parsed M
  parse_pairs zero m st = unparsed st
  parse_pairs (suc fuel) m st =
      after_key (λ m' st'. parse_pairs fuel m' st') m (parse_key (key_new st) st)

  unfoldable pub after_object_maybe_end : M → Outcome → Parsed M
  after_object_maybe_end m (true, st) = parsed m st
  after_object_maybe_end m (false, st) = parse_pairs (suc (length st.iter)) m st

  unfoldable pub after_object_start : M → Outcome → Parsed M
  after_object_start m (true, st) = after_object_maybe_end m (object_maybe_end o st)
  after_object_start m (false, st) = unparsed st

  unfoldable pub parse_map : M → JsonIterator → Parsed M
  parse_map m st = after_object_start m (object_start o st)
