-- ===== src/Codec.antt =====
-- What include/jsonifier-incl/parsing/parse_impl.hpp and include/jsonifier-incl/serializing/serialize_impl.hpp
-- promise each other for a type of values.
pub mod Scalars
pub mod Layout
pub mod Vectors
pub mod Maps
use jsonifier.Prelude.{
  ℕ, ◌+◌, ◌≡◌, ◌⊎◌, Bool, true, false, List, [], ◌∷◌, ◌++◌, ◌==◌, Bytes, peek, ◌≢◌,
}
use jsonifier.Minifier.{whitespace_table}
use jsonifier.Serializer.{SerializeOptions}
use jsonifier.JsonIterator.{ParseOptions, JsonIterator, move_to, is_before_end}
use jsonifier.JsonIterator.White.{IsBlank}
use jsonifier.JsonIterator.Brackets.{HasRoom}
use jsonifier.JsonIterator.Skip.Grammar.{EndsValue}
use jsonifier.JsonIterator.Iterate.{Parsed, parsed}

-- The layout of the serializer is white space that the parser takes.
abbrev pub Fits : ParseOptions → SerializeOptions → Type 0
Fits o p = (p.prettify ≡ false) ⊎ ((o.minified ≡ false) × (whitespace_table p.indent_char ≡ true))

-- What a value may start with: no white space and no closing bracket.
abbrev pub StartsValue : Bytes → Type 0
StartsValue s =
    (whitespace_table (peek s) ≡ false)
    × ((peek s == b']') ≡ false)
    × ((peek s == b'}') ≡ false)
    × (is_before_end s ≡ true)

-- A value that is written at any indentation is read back behind white space and over any old value,
-- where there is room for the containers that it nests.
pub record Codec (o : ParseOptions) (A : Type 0) : Type 1 where
  pub serialize : ℕ → A → Bytes
  pub parse : A → JsonIterator → Parsed A
  pub IsValid : A → Type 0
  pub levels : ℕ
  pub starts : (n : ℕ) (a : A) (rest : Bytes) → IsValid a → StartsValue (serialize n a ++ rest)
  pub reads :
      (st : JsonIterator) (n : ℕ) (a old : A) (blank rest : Bytes)
      → IsBlank o blank
      → IsValid a
      → EndsValue rest
      → HasRoom o levels st
      → parse old (move_to st (blank ++ (serialize n a ++ rest))) ≡ parsed a (move_to st rest)
