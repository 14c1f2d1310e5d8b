-- ===== src/Prettifier.antt =====
-- include/jsonifier-incl/serializing/prettifier.hpp. `out` is the bytes stored so far, and its length is
-- `index`. `indent` goes below 0 only on the way out with an error; `depth` is the counter in 64 bits.
-- The entries of `state` are never read, so `slots` is its size.
pub mod Document
pub mod Run
pub mod Steps
pub mod Containers
pub mod Layout
pub mod Total
use jsonifier.Prelude.{
  ℕ, zero, suc, ◌+◌, ◌-◌, ◌*◌, Bool, true, false, List, [], ◌∷◌, ◌++◌, ltb, leb, ◌==◌, not,
  if◌then◌else◌, Bytes, codes, length, drop, replicate, Option, none, some, add64, sub64,
}
use jsonifier.JsonTypes.{
  Structural, unset, error_type, type_count, string, comma, number, colon, array_start, array_end,
  null, boolean, object_start, object_end, json_types, tape_at, byte_in, slice_in,
}

-- `prettify_options`
pub record PrettifyOptions : Type 0 where
  pub indent_size : ℕ
  pub indent_char : ℕ

pub data State : Type 0 where
  state : (out : Bytes) (indent depth slots : ℕ) → State

-- A round of the loop: how many entries of the tape it takes, and the new state; or the end of `impl`.
pub data Round : Type 0 where
  goes : ℕ → State → Round
  stops : Bytes → Round
  failed : Round
  undefined : Round

abbrev pub newline : PrettifyOptions → ℕ → Bytes
newline o indent = b'\n' ∷ replicate indent o.indent_char

-- `state[depth] = …` once `state` has grown: an index out of range is undefined.
unfoldable pub grow : ℕ → ℕ → Option ℕ
grow depth slots =
    let size = if leb slots depth then slots * 2 else slots in
    if ltb depth size then some size else none

-- the cases `array_start` and `object_start` once `state` has its size; they leave `indent` different
-- for an empty container
unfoldable pub open_sized :
    PrettifyOptions
    → (opening closing : ℕ) → (empty_indent : ℕ) → (next : ℕ) → State
    → Option ℕ
    → Round
open_sized o opening closing empty_indent next st none = undefined
open_sized o opening closing empty_indent next (state out indent depth slots) (some size) =
    if next == closing
    then goes 2 (state (out ++ opening ∷ closing ∷ []) empty_indent depth size)
    else goes 1 (
        state (out ++ opening ∷ newline o (indent + o.indent_size)) (indent + o.indent_size)
          (add64 depth 1) size)

unfoldable pub open_container :
    PrettifyOptions → (opening closing : ℕ) → (empty_indent : ℕ) → (next : ℕ) → State → Round
open_container o opening closing empty_indent next (state out indent depth slots) =
    open_sized o opening closing empty_indent next (state out indent depth slots) (grow depth slots)

-- the cases `array_end` and `object_end`
unfoldable pub close_container : PrettifyOptions → ℕ → State → Round
close_container o closing (state out indent depth slots) =
    if ltb indent o.indent_size
    then failed
    else goes 1 (
        state (out ++ (newline o (indent - o.indent_size) ++ closing ∷ [])) (indent - o.indent_size)
          (sub64 depth 1) slots)

abbrev pub emit : Bytes → State → State
emit bytes (state out indent depth slots) = state (out ++ bytes) indent depth slots

abbrev pub indent_of : State → ℕ
indent_of (state out indent depth slots) = indent

abbrev pub out_of : State → Bytes
out_of (state out indent depth slots) = out

-- the bytes of a string or a number: to copy a negative number of bytes, or bytes behind the text, is
-- undefined
unfoldable pub emit_piece : Option Bytes → State → Round
emit_piece none st = undefined
emit_piece (some piece) st = goes 1 (emit piece st)

-- the byte behind an opening bracket, if it is in the text
unfoldable pub open_before :
    PrettifyOptions → (opening closing : ℕ) → (empty_indent : ℕ) → Option ℕ → State → Round
open_before o opening closing empty_indent none st = undefined
open_before o opening closing empty_indent (some next) st =
    open_container o opening closing empty_indent next st

-- the switch: the kind of the byte `c` at the index, the bytes up to the next index, and the byte there
unfoldable pub round : PrettifyOptions → Structural → ℕ → Option Bytes → Option ℕ → State → Round
round o string c piece next st = emit_piece piece st
round o comma c piece next st = goes 1 (emit (b',' ∷ newline o (indent_of st)) st)
round o number c piece next st = emit_piece piece st
round o colon c piece next st = goes 1 (emit (b':' ∷ o.indent_char ∷ []) st)
round o array_start c piece next st = open_before o b'[' b']' (indent_of st) next st
round o array_end c piece next st = close_container o b']' st
round o null c piece next st = goes 1 (emit (codes "null") st)
round o boolean c piece next st =
    goes 1 (emit (if c == b'f' then codes "false" else codes "true") st)
round o object_start c piece next st =
    open_before o b'{' b'}' (indent_of st + o.indent_size) next st
round o object_end c piece next st = close_container o b'}' st
round o unset c piece next st = stops (out_of st)
round o error_type c piece next st = stops (out_of st)
round o type_count c piece next st = stops (out_of st)

-- the switch at the byte of the index, if it is in the text
unfoldable pub round_at : PrettifyOptions → Option ℕ → Option Bytes → Option ℕ → State → Round
round_at o none piece next st = undefined
round_at o (some c) piece next st = round o (json_types c) c piece next st

-- what `impl` returns: the bytes stored, the greatest number of 64 bits, or nothing defined
pub data Result : Type 0 where
  returned : Bytes → Result
  error : Result
  unknown : Result
  starved : Result

-- what follows a round
unfoldable pub after_round : (ℕ → State → Result) → Round → Result
after_round go (goes n st) = go n st
after_round go (stops out) = returned out
after_round go failed = error
after_round go undefined = unknown

-- the loop of `impl`, with fuel; each round takes an entry of the tape at least
unfoldable pub loop : PrettifyOptions → Bytes → ℕ → List ℕ → State → Result
loop o text zero tape st = starved
loop o text (suc fuel) [] st = returned (out_of st)
loop o text (suc fuel) (i ∷ is) st =
    after_round (λ n st'. loop o text fuel (drop n (i ∷ is)) st')
      (round_at o (byte_in text (i ∷ is)) (slice_in text i (tape_at text is)) (byte_in text is) st)

unfoldable pub impl : PrettifyOptions → Bytes → List ℕ → Result
impl o text tape = loop o text (suc (length tape)) tape (state [] 0 0 64)

-- `prettifyJson`, for a tape of the text and a string buffer of `size` bytes: `overrun` where the
-- output does not fit the buffer, which has at least five times the size of the text, or where a step
-- is not defined.
pub data Prettified : Type 0 where
  written : Bytes → Prettified
  rejected : Prettified
  no_input : Prettified
  overrun : Prettified

abbrev pub buffer_size : ℕ → Bytes → ℕ
buffer_size size text = if ltb size (length text * 5) then length text * 5 else size

abbrev pub copy_out : ℕ → Result → Prettified
copy_out size (returned out) = if leb (length out) size then written out else overrun
copy_out size error = rejected
copy_out size unknown = overrun
copy_out size starved = overrun

unfoldable pub prettify_json : PrettifyOptions → ℕ → Bytes → List ℕ → Prettified
prettify_json o size text [] = no_input
prettify_json o size text (i ∷ is) = copy_out (buffer_size size text) (impl o text (i ∷ is))
