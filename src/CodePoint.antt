-- ===== src/CodePoint.antt =====
-- include/jsonifier-incl/utilities/string_utils.hpp: the escapes `\uXXXX`. `hexToU32NoCheck`,
-- `codePointToUtf8` and `handleUnicodeCodePoint`.
pub mod Utf8
pub mod Hex
pub mod Unicode
use Prim.Native.Nat.{bit_and, bit_or}
use jsonifier.Prelude.{
  ℕ, ◌+◌, ◌-◌, ◌*◌, ◌/◌, ◌%◌, ◌^◌, Bool, true, false, ◌&&◌, [], ◌∷◌, Option, none, some, ltb, leb,
  ◌==◌, if◌then◌else◌, Bytes, peek, next, drop, length,
}

-- The value of a hexadecimal digit.
unfoldable pub hex_value : ℕ → Option ℕ
hex_value c =
    if leb b'0' c && leb c b'9'
    then some (c - 48)
    else if leb b'A' c && leb c b'F'
    then some (c - 55)
    else if leb b'a' c && leb c b'f'
    then some (c - 87)
    else none

-- An entry of one of the four parts of `digitToVal32`, whose digits are scaled by 1, 16, 256, 4096.
abbrev pub scaled_digit : ℕ → ℕ → ℕ
scaled_digit c scale = elim (hex_value c) [ none ↦ 0xFFFFFFFF | some v ↦ v * scale ]

-- `digitToVal32[i]`, which has 886 entries; `none` is a read outside of it.
unfoldable pub digit_to_val32 : ℕ → Option ℕ
digit_to_val32 i =
    if ltb i 210
    then some (scaled_digit i 1)
    else if ltb i 420
    then some (scaled_digit (i - 210) 16)
    else if ltb i 630
    then some (scaled_digit (i - 420) 256)
    else if ltb i 886
    then some (scaled_digit (i - 630) 4096)
    else none

-- `base + static_cast<uint64_t>(c)` for a `char`, whose sign is extended
abbrev pub table_index : ℕ → ℕ → ℕ
table_index base c = if ltb c 128 then base + c else (base + c + 2 ^ 64 - 256) % 2 ^ 64

-- the `|` of four entries, if each is in the table
abbrev pub or_entries : Option ℕ → Option ℕ → Option ℕ → Option ℕ → Option ℕ
or_entries (some a) (some b) (some c) (some d) = some (bit_or (bit_or (bit_or a b) c) d)
or_entries _ _ _ _ = none

-- `none` is a read outside of the table.
unfoldable pub hex_to_u32 : Bytes → Option ℕ
hex_to_u32 s =
    or_entries (digit_to_val32 (table_index 630 (peek s)))
      (digit_to_val32 (table_index 420 (peek (next s))))
      (digit_to_val32 (table_index 210 (peek (next (next s)))))
      (digit_to_val32 (table_index 0 (peek (next (next (next s))))))

-- The bytes that are stored at `c`; the source returns their number.
unfoldable pub code_point_to_utf8 : ℕ → Bytes
code_point_to_utf8 cp =
    if leb cp 0x7F
    then cp ∷ []
    else if leb cp 0x7FF
    then bit_or 0xC0 (bit_and (cp / 2 ^ 6) 0x1F) ∷ bit_or 0x80 (bit_and cp 0x3F) ∷ []
    else if leb cp 0xFFFF
    then bit_or 0xE0 (bit_and (cp / 2 ^ 12) 0x0F)
      ∷ bit_or 0x80 (bit_and (cp / 2 ^ 6) 0x3F)
      ∷ bit_or 0x80 (bit_and cp 0x3F)
      ∷ []
    else if leb cp 0x10FFFF
    then bit_or 0xF0 (bit_and (cp / 2 ^ 18) 0x07)
      ∷ bit_or 0x80 (bit_and (cp / 2 ^ 12) 0x3F)
      ∷ bit_or 0x80 (bit_and (cp / 2 ^ 6) 0x3F)
      ∷ bit_or 0x80 (bit_and cp 0x3F)
      ∷ []
    else []

-- `wrote` has the bytes stored at `dstPtr` and the memory from the new `srcPtr` on.
pub data UnicodeResult : Type 0 where
  wrote : Bytes → Bytes → UnicodeResult
  refused : UnicodeResult
  undefined : UnicodeResult

-- the end of the function: `offset > 0`
unfoldable pub store_code_point : ℕ → Bytes → UnicodeResult
store_code_point cp iter = elim (code_point_to_utf8 cp) [
  | [] ↦ refused
  | c ∷ cs ↦ wrote (c ∷ cs) iter
]

-- the second escape of a surrogate pair
unfoldable pub low_surrogate : ℕ → Bytes → UnicodeResult
low_surrogate cp iter =
    if ltb (length iter) 6
    then refused
    else if peek iter == b'\\' && peek (next iter) == b'u'
    then elim (hex_to_u32 (drop 2 iter)) [
      | none ↦ undefined
      | some low ↦
          let low_bit = (low + 2 ^ 32 - 0xDC00) % 2 ^ 32 in
          if low_bit / 2 ^ 10 == 0
          then store_code_point (bit_or ((cp - 0xD800) * 2 ^ 10) low_bit + 0x10000) (drop 6 iter)
          else refused
    ]
    else refused

-- `handleUnicodeCodePoint`; the list ends at `srcEnd`.
unfoldable pub handle_unicode_code_point : Bytes → UnicodeResult
handle_unicode_code_point iter =
    if ltb (length iter) 6 then refused else elim (hex_to_u32 (drop 2 iter)) [
      | none ↦ undefined
      | some cp ↦
          if leb 0xD800 cp && leb cp 0xDFFF
          then if leb 0xDC00 cp then refused else low_surrogate cp (drop 6 iter)
          else store_code_point cp (drop 6 iter)
    ]
