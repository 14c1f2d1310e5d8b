-- ===== src/JsonTypes.antt =====
-- include/jsonifier-incl/serializing/minifier.hpp: `jsonTypes`, the kind of a value by its first byte,
-- and the tape of structural indices (include/jsonifier-incl/utilities/simd.hpp) as its clients read it:
-- the tape is a list, and the entry behind its end is the length of the text.
pub mod Tape
use jsonifier.Prelude.{
  ℕ, ◌-◌, ◌||◌, List, [], ◌∷◌, ◌==◌, if◌then◌else◌, Bytes, peek, take, drop, length, leb, Option,
  none, some,
}
use jsonifier.ParseUint.{is_digit}

-- `json_structural_type`, where `error_type` is `error`
pub data Structural : Type 0 where
  unset string comma number colon array_start array_end null boolean object_start object_end
        error_type type_count :
      Structural

unfoldable pub json_types : ℕ → Structural
json_types c =
    if c == b'"'
    then string
    else if c == b','
    then comma
    else if is_digit c || c == b'-'
    then number
    else if c == b':'
    then colon
    else if c == b'['
    then array_start
    else if c == b']'
    then array_end
    else if c == b'n'
    then null
    else if c == b't' || c == b'f'
    then boolean
    else if c == b'{'
    then object_start
    else if c == b'}'
    then object_end
    else unset

-- `*iter`
abbrev pub tape_at : Bytes → List ℕ → ℕ
tape_at text [] = length text
tape_at text (i ∷ is) = i

-- `stringRootIter[*iter]`
abbrev pub byte_at : Bytes → List ℕ → ℕ
byte_at text tape = peek (drop (tape_at text tape) text)

-- `stringRootIter[*iter]`, if it is in the text or the NUL behind it
unfoldable pub byte_in : Bytes → List ℕ → Option ℕ
byte_in text tape = if leb (tape_at text tape) (length text) then some (byte_at text tape) else none

-- the bytes from an index up to another, if their number is not negative
unfoldable pub slice : Bytes → ℕ → ℕ → Option Bytes
slice text i j = if leb i j then some (take (j - i) (drop i text)) else none

-- those bytes, if they are in the text too
unfoldable pub slice_in : Bytes → ℕ → ℕ → Option Bytes
slice_in text i j = if leb j (length text) then slice text i j else none
