-- ===== src/Serializer.antt =====
-- include/jsonifier-incl/serializing/serialize_impl.hpp: booleans, numbers, strings and vectors. The bytes
-- stored are a list, and the buffer has room (`ensureCapacity`).
use jsonifier.Prelude.{
  ℕ, zero, suc, ◌+◌, ◌-◌, ◌*◌, ◌/◌, ◌%◌, Bool, true, false, List, [], ◌∷◌, ◌++◌, ltb, if◌then◌else◌,
  Bytes, codes, take, replicate, sub64, mul64, length,
}

-- `serialize_options`
pub record SerializeOptions : Type 0 where
  pub prettify : Bool
  pub indent_size : ℕ
  pub indent_char : ℕ

-- the first `n` bytes of a word in memory, the lowest first
unfoldable pub stored_bytes : ℕ → ℕ → Bytes
stored_bytes zero w = []
stored_bytes (suc n) w = (w % 256) ∷ stored_bytes n (w / 256)

abbrev pub false_v_int : ℕ
false_v_int = 435728179558

abbrev pub true_v_int : ℕ
true_v_int = 434025983730

-- `value` as a number
abbrev pub bool_int : Bool → ℕ
bool_int true = 1
bool_int false = 0

-- five bytes are stored, and the pointer moves over `5 - value` of them
unfoldable pub serialize_bool : Bool → Bytes
serialize_bool value =
    take (5 - bool_int value)
      (stored_bytes 5 (sub64 false_v_int (mul64 (bool_int value) true_v_int)))

-- `indent_table::blitWithOverflow`: what the pointer moves over
unfoldable pub blit_with_overflow : SerializeOptions → Bytes → ℕ → Bytes
blit_with_overflow p start total =
    let greatest = 8 * p.indent_size in
    let capped = if ltb total greatest then total else greatest in
    take (length start + capped) (start ++ replicate greatest p.indent_char)
    ++ replicate (total - capped) p.indent_char

-- the indentation of the elements
abbrev pub inner : SerializeOptions → ℕ → ℕ
inner p indent = if p.prettify then indent + p.indent_size else indent

unfoldable pub open_array : SerializeOptions → ℕ → Bytes
open_array p indent =
    if p.prettify then blit_with_overflow p (codes "[" ++ b'\n' ∷ []) indent else codes "["

unfoldable pub comma : SerializeOptions → ℕ → Bytes
comma p indent =
    if p.prettify then blit_with_overflow p (codes "," ++ b'\n' ∷ []) indent else codes ","

unfoldable pub close_array : SerializeOptions → ℕ → Bytes
close_array p indent =
    (if p.prettify then blit_with_overflow p (b'\n' ∷ []) indent else []) ++ codes "]"

-- `serialize_impl<vector_t>::impl`, for the function of an element
module _ {A : Type 0} (p : SerializeOptions) (serialize : ℕ → A → Bytes) where
  -- the loop from the second element on
  unfoldable pub serialize_rest : ℕ → List A → Bytes
  serialize_rest indent [] = []
  serialize_rest indent (x ∷ xs) =
      comma p indent ++ (serialize indent x ++ serialize_rest indent xs)

  unfoldable pub serialize_vector : ℕ → List A → Bytes
  serialize_vector indent [] = codes "[]"
  serialize_vector indent (x ∷ xs) =
      open_array p (inner p indent)
      ++ (serialize (inner p indent) x
          ++ (serialize_rest (inner p indent) xs ++ close_array p indent))

unfoldable pub open_object : SerializeOptions → ℕ → Bytes
open_object p indent =
    if p.prettify then blit_with_overflow p (codes "{" ++ b'\n' ∷ []) indent else codes "{"

unfoldable pub colon : SerializeOptions → Bytes
colon p = if p.prettify then codes ": " else codes ":"

unfoldable pub close_object : SerializeOptions → ℕ → Bytes
close_object p indent =
    (if p.prettify then blit_with_overflow p (b'\n' ∷ []) indent else []) ++ codes "}"

-- `serialize_impl<map_t>::impl`, for the functions of a key and of a value, and the pairs of the map in
-- the order of its iterator
module _ {K V : Type 0} (p : SerializeOptions) (serialize_key : ℕ → K → Bytes)
    (serialize_value : ℕ → V → Bytes) where
  unfoldable pub serialize_pair : ℕ → K × V → Bytes
  serialize_pair indent (k, v) = serialize_key indent k ++ (colon p ++ serialize_value indent v)

  -- the loop from the second pair on
  unfoldable pub serialize_pairs : ℕ → List (K × V) → Bytes
  serialize_pairs indent [] = []
  serialize_pairs indent (x ∷ xs) =
      comma p indent ++ (serialize_pair indent x ++ serialize_pairs indent xs)

  unfoldable pub serialize_map : ℕ → List (K × V) → Bytes
  serialize_map indent [] = codes "{}"
  serialize_map indent (x ∷ xs) =
      open_object p (inner p indent)
      ++ (serialize_pair (inner p indent) x
          ++ (serialize_pairs (inner p indent) xs ++ close_object p indent))
