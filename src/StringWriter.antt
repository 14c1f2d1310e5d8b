-- ===== src/StringWriter.antt =====
-- include/jsonifier-incl/utilities/string_utils.hpp: `string_serializer`, which writes a string with
-- its escapes, and include/jsonifier-incl/serializing/serialize_impl.hpp, which puts the quotes
-- round it. A vector register of `n` bytes is the first `n` bytes of the memory, and a comparison
-- of registers is the comparison of their bytes.
pub mod Blocks
use jsonifier.Prelude.{
  ℕ, zero, suc, ◌+◌, ◌/◌, ◌%◌, Bool, true, false, ◌||◌, List, [], ◌∷◌, ◌++◌, ltb, leb, ◌==◌,
  if◌then◌else◌, Bytes, peek, take, drop, length,
}

-- an upper case hexadecimal digit
abbrev pub hex_upper : ℕ → ℕ
hex_upper n = if ltb n 10 then 48 + n else 55 + n

-- `escapeTable[c]`, whose size is that of `escapeTableSizes`
unfoldable pub escape_table : ℕ → Bytes
escape_table c =
    if c == 0
    then []
    else if c == 7
    then b'\\' ∷ b'a' ∷ []
    else if c == 8
    then b'\\' ∷ b'b' ∷ []
    else if c == 9
    then b'\\' ∷ b't' ∷ []
    else if c == 10
    then b'\\' ∷ b'n' ∷ []
    else if c == 11
    then b'\\' ∷ b'v' ∷ []
    else if c == 12
    then b'\\' ∷ b'f' ∷ []
    else if c == 13
    then b'\\' ∷ b'r' ∷ []
    else if ltb c 32
    then b'\\' ∷ b'u' ∷ b'0' ∷ b'0' ∷ hex_upper (c / 16) ∷ hex_upper (c % 16) ∷ []
    else if c == b'"'
    then b'\\' ∷ b'"' ∷ []
    else if c == b'\\'
    then b'\\' ∷ b'\\' ∷ []
    else []

-- what one round of `shortImpl` stores: the entry if it has a size, else the byte
unfoldable pub escape_byte : ℕ → Bytes
escape_byte c = elim (escape_table c) [ [] ↦ c ∷ [] | e ∷ es ↦ e ∷ es ]

-- the loop of `shortImpl`
unfoldable pub short_impl : Bytes → Bytes
short_impl [] = []
short_impl (c ∷ cs) = escape_byte c ++ short_impl cs

-- a byte below 32, a quote or a backslash
abbrev pub is_escapeable : ℕ → Bool
is_escapeable c = ltb c 32 || (c == b'\\' || c == b'"')

-- `findSerialize`: the place of the first escapeable byte of a register of `n` bytes, or `n`
unfoldable pub find_serialize : ℕ → Bytes → ℕ
find_serialize zero s = zero
find_serialize (suc n) [] = zero
find_serialize (suc n) (c ∷ cs) = if is_escapeable c then zero else suc (find_serialize n cs)

-- `string_serialize_step::impl` for registers of `n` bytes, with fuel: the bytes stored, and the
-- memory from the new `string1Start` on. Each round takes a byte at least.
unfoldable pub serialize_step : ℕ → ℕ → Bytes → Bytes × Bytes
serialize_step n zero s = ([], s)
serialize_step n (suc fuel) s =
    let k = find_serialize n s in
    let escaped = serialize_step n fuel (drop (suc k) s) in
    let plain = serialize_step n fuel (drop n s) in
    if ltb n (length s)
    then if k == n
      then (take n s ++ plain.0, plain.1)
      else (take k s ++ (escape_table (peek (drop k s)) ++ escaped.0), escaped.1)
    else ([], s)

-- `string_serializer::impl`: the steps for the register sizes of the machine, then `shortImpl`.
-- AVX-512 has registers of 64, 32 and 16 bytes, AVX2 the last two, and a smaller machine the last.
unfoldable pub string_serializer : List ℕ → Bytes → Bytes
string_serializer [] s = short_impl s
string_serializer (n ∷ ns) s =
    let step = serialize_step n (length s) s in step.0 ++ string_serializer ns step.1

-- `serialize_impl<string_t>::impl`
unfoldable pub write_string : List ℕ → Bytes → Bytes
write_string sizes [] = b'"' ∷ b'"' ∷ []
write_string sizes (c ∷ cs) = b'"' ∷ (string_serializer sizes (c ∷ cs) ++ b'"' ∷ [])
