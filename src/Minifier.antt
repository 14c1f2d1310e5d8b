-- ===== src/Minifier.antt =====
-- include/jsonifier-incl/serializing/minifier.hpp. `previous` is the index that `previousPtr` stands at,
-- and `out` the bytes stored so far. The entries of the tape are at most the length of the text.
pub mod Compact
pub mod Layout
pub mod Prettified
use jsonifier.Prelude.{
  ℕ, zero, suc, ◌-◌, ◌*◌, Bool, true, false, ◌||◌, List, [], ◌∷◌, ◌++◌, ltb, leb, ◌==◌,
  if◌then◌else◌, Bytes, codes, peek, next, drop, length, Option, none, some,
}
use jsonifier.JsonTypes.{
  Structural, unset, error_type, type_count, string, comma, number, colon, array_start, array_end,
  null, boolean, object_start, object_end, json_types, tape_at, slice,
}

-- `whitespaceTable[c]`
unfoldable pub whitespace_table : ℕ → Bool
whitespace_table c = c == b'\t' || (c == b' ' || (c == b'\n' || c == b'\r'))

abbrev pub keep_unless : Bool → ℕ → Bytes → Bytes
keep_unless drop c (d ∷ ds) = c ∷ d ∷ ds
keep_unless true c [] = []
keep_unless false c [] = c ∷ []

-- `backTrackWs` and `skipWs`: the bytes without the white space at their end; where there is no byte
-- but white space, `currentDistance` is not positive
unfoldable pub back_track_ws : Bytes → Bytes
back_track_ws [] = []
back_track_ws (c ∷ cs) = keep_unless (whitespace_table c) c (back_track_ws cs)

-- the bytes of a number behind its first
unfoldable pub number_tail : Bytes → Bytes
number_tail [] = []
number_tail (c ∷ cs) = let rest = c ∷ number_tail cs in if whitespace_table c then [] else rest

-- A round of the loop: the bytes it stores, or the end of `impl`.
pub data Minified : Type 0 where
  stored : Bytes → Minified
  unset_type : Minified
  refused : Minified

-- the test of `currentDistance`; `refused` is `invalid_string_length`
abbrev pub positive_length : Bytes → Minified
positive_length [] = refused
positive_length (c ∷ cs) = stored (c ∷ cs)

-- the cases `string` and `number`, where `none` is an index before `previousPtr`: `currentDistance` is
-- then negative for a string, and 1 for a number
unfoldable pub minify_string : Option Bytes → Minified
minify_string none = refused
minify_string (some piece) = positive_length (back_track_ws piece)

unfoldable pub minify_number : ℕ → Option Bytes → Minified
minify_number c none = stored (c ∷ [])
minify_number c (some piece) = stored (c ∷ number_tail (next piece))

-- the switch: the kind of the byte `c` at `previousPtr`, and the bytes from it up to the next index
unfoldable pub minify_round : Structural → ℕ → Option Bytes → Minified
minify_round string c piece = minify_string piece
minify_round comma c piece = stored (codes ",")
minify_round number c piece = minify_number c piece
minify_round colon c piece = stored (codes ":")
minify_round array_start c piece = stored (codes "[")
minify_round array_end c piece = stored (codes "]")
minify_round null c piece = stored (codes "null")
minify_round boolean c piece = stored (if c == b'f' then codes "false" else codes "true")
minify_round object_start c piece = stored (codes "{")
minify_round object_end c piece = stored (codes "}")
minify_round unset c piece = unset_type
minify_round error_type c piece = refused
minify_round type_count c piece = refused

-- what `impl` returns: the bytes stored, or the greatest number of 64 bits
pub data MinifyResult : Type 0 where
  minified : Bytes → MinifyResult
  error : MinifyResult

unfoldable pub after_minify : (Bytes → MinifyResult) → Bytes → Minified → MinifyResult
after_minify go out (stored bytes) = go (out ++ bytes)
after_minify go out unset_type = minified out
after_minify go out refused = error

-- the loop of `impl`, and the byte that is stored behind it
unfoldable pub minify_loop : Bytes → ℕ → List ℕ → Bytes → MinifyResult
minify_loop text previous [] out = minified (out ++ peek (drop previous text) ∷ [])
minify_loop text previous (i ∷ is) out =
    after_minify (λ out'. minify_loop text i is out') out
      (minify_round (json_types (peek (drop previous text))) (peek (drop previous text))
        (slice text previous i))

-- `minifyJson`, for a tape of the text and a string buffer of `size` bytes; `overrun` where the output
-- does not fit the buffer, which has at least the size of the text
pub data MinifiedJson : Type 0 where
  written : Bytes → MinifiedJson
  rejected : MinifiedJson
  no_input : MinifiedJson
  overrun : MinifiedJson

abbrev pub copy_minified : ℕ → MinifyResult → MinifiedJson
copy_minified size (minified out) = if leb (length out) size then written out else overrun
copy_minified size error = rejected

unfoldable pub minify_json : ℕ → Bytes → List ℕ → MinifiedJson
minify_json size text [] = no_input
minify_json size text (i ∷ is) =
    copy_minified (if ltb size (length text) then length text else size) (minify_loop text i is [])
