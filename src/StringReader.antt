-- ===== src/StringReader.antt =====
-- include/jsonifier-incl/utilities/string_utils.hpp: `string_parser`, which reads a string behind its
-- opening quote and resolves the escapes. The bytes from `string1Start` to `string1End` are a list,
-- and `*string1End` is the NUL of the text. A vector register of `n` bytes is the first `n` bytes of
-- the memory.
pub mod Items
pub mod Blocks
pub mod Total
use jsonifier.Prelude.{
  ℕ, zero, suc, ◌+◌, Bool, true, false, ◌||◌, List, [], ◌∷◌, ◌++◌, ltb, leb, ◌==◌, if◌then◌else◌,
  Bytes, peek, next, take, drop, length,
}
use jsonifier.CodePoint.{UnicodeResult, wrote, refused, undefined, handle_unicode_code_point}

-- `escapeMap[c]`
unfoldable pub escape_map : ℕ → ℕ
escape_map c =
    if c == b'"'
    then b'"'
    else if c == b'\\'
    then b'\\'
    else if c == b'/'
    then b'/'
    else if c == b'b'
    then 8
    else if c == b'f'
    then 12
    else if c == b'n'
    then 10
    else if c == b'r'
    then 13
    else if c == b't'
    then 9
    else 0

-- `ended` has the bytes stored at `string2` and the memory from the closing quote on; `more` is the
-- end of a vector loop, with the memory still to read; `failed` is a null pointer; `unknown` is a read
-- outside of a table; `starved` is the end of the fuel.
pub data ReadResult : Type 0 where
  ended : Bytes → Bytes → ReadResult
  more : Bytes → Bytes → ReadResult
  failed : ReadResult
  unknown : ReadResult
  starved : ReadResult

-- `bytes` stored before the rest of the work
unfoldable pub store : Bytes → ReadResult → ReadResult
store bytes (ended out rest) = ended (bytes ++ out) rest
store bytes (more out rest) = more (bytes ++ out) rest
store bytes failed = failed
store bytes unknown = unknown
store bytes starved = starved

-- what follows `handleUnicodeCodePoint`; `go` is the loop that goes on
unfoldable pub after_unicode : (Bytes → ReadResult) → UnicodeResult → ReadResult
after_unicode go (wrote bytes rest) = store bytes (go rest)
after_unicode go refused = failed
after_unicode go undefined = unknown

-- a backslash at the start of `s`
unfoldable pub read_escape : (Bytes → ReadResult) → Bytes → ReadResult
read_escape go s =
    if peek (next s) == b'u'
    then after_unicode go (handle_unicode_code_point s)
    else if escape_map (peek (next s)) == 0
    then failed
    else store (escape_map (peek (next s)) ∷ []) (go (drop 2 s))

-- `shortImpl`, with fuel; each round takes a byte at least. `*string1End` is below 32.
unfoldable pub read_short : ℕ → Bytes → ReadResult
read_short zero s = starved
read_short (suc fuel) [] = failed
read_short (suc fuel) (c ∷ cs) =
    let escape = read_escape (λ rest. read_short fuel rest) (c ∷ cs) in
    let plain = store (c ∷ []) (read_short fuel cs) in
    if c == b'"'
    then ended [] (c ∷ cs)
    else if c == b'\\'
    then escape
    else if ltb c 32
    then failed
    else plain

-- `findParse`: the place of the first backslash or quote of a register of `n` bytes, or `n`
unfoldable pub find_parse : ℕ → Bytes → ℕ
find_parse zero s = zero
find_parse (suc n) [] = zero
find_parse (suc n) (c ∷ cs) = if c == b'\\' || c == b'"' then zero else suc (find_parse n cs)

-- `hasByteLessThanValue<32>`
unfoldable pub has_byte_less_than_32 : Bytes → Bool
has_byte_less_than_32 [] = false
has_byte_less_than_32 (c ∷ cs) = ltb c 32 || has_byte_less_than_32 cs

-- `string_parse_step::impl` for registers of `n` bytes, with fuel
unfoldable pub parse_step : ℕ → ℕ → Bytes → ReadResult
parse_step n zero s = starved
parse_step n (suc fuel) s =
    let k = find_parse n s in
    let escape = store (take k s) (read_escape (λ rest. parse_step n fuel rest) (drop k s)) in
    let plain = store (take n s) (parse_step n fuel (drop n s)) in
    if ltb n (length s)
    then if k == n
      then (if has_byte_less_than_32 (take n s) then failed else plain)
      else if peek (drop k s) == b'"'
      then ended (take k s) (drop k s)
      else escape
    else more [] s

-- A vector loop that does not end with `more` ends the whole; else `go` reads on.
unfoldable pub after_step : (Bytes → ReadResult) → ReadResult → ReadResult
after_step go (more out rest) = store out (go rest)
after_step go (ended out rest) = ended out rest
after_step go failed = failed
after_step go unknown = unknown
after_step go starved = starved

-- `string_parser::impl`: the vector loops for the register sizes of the machine, then `shortImpl`
unfoldable pub string_parser : List ℕ → Bytes → ReadResult
string_parser [] s = read_short (suc (length s)) s
string_parser (n ∷ ns) s = after_step (string_parser ns) (parse_step n (suc (length s)) s)
