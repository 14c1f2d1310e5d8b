-- ===== src/TapeIterator/Skip.antt =====
-- include/jsonifier-incl/utilities/json_iterator.hpp: the values that are read over on a tape of
-- structural indices. A loop over members that ran out of fuel would give `false` with no error.
pub mod Values
pub mod Members
pub mod Reports
use jsonifier.Prelude.{
  ℕ, zero, suc, Bool, true, false, not, ◌&&◌, ◌||◌, List, [], ◌∷◌, ◌==◌, if◌then◌else◌, Bytes, peek,
  drop, length, add64, sub64, Option, none, some,
}
use jsonifier.JsonIterator.{missing_key_start, unexpected_string_end, unexpected_end_of_input}
use jsonifier.TapeIterator.{
  TapeIterator, TapeOutcome, tape_move, tape_next, tape_byte, tape_reject, tape_if_ok,
  tape_not_at_end_pre, tape_object_maybe_end, tape_collect_object_comma, tape_collect_object_colon,
}

unfoldable pub opens : ℕ → Bool
opens c = (c == b'{') || (c == b'[')

unfoldable pub closes : ℕ → Bool
closes c = (c == b'}') || (c == b']')

-- `depth` after the byte `c`
unfoldable pub tape_depth : ℕ → ℕ → ℕ
tape_depth c depth = if opens c then add64 depth 1 else if closes c then sub64 depth 1 else depth

-- the loop of `skipValue`: the entries behind the bracket that ends the value, if there is one
unfoldable pub tape_skip_loop : Bytes → ℕ → List ℕ → Option (List ℕ)
tape_skip_loop text depth [] = none
tape_skip_loop text depth (i ∷ is) =
    let c = peek (drop i text) in
    let rest = tape_skip_loop text (tape_depth c depth) is in
    if closes c && (tape_depth c depth == 0) then some is else rest

unfoldable pub after_tape_skip : TapeIterator → Option (List ℕ) → TapeOutcome
after_tape_skip st (some is) = (true, tape_move st is)
after_tape_skip st none = tape_reject unexpected_string_end (tape_move st [])

-- `skipString`
unfoldable pub tape_skip_string : TapeIterator → TapeOutcome
tape_skip_string st = (true, tape_move st (tape_next st.iter))

-- `skipValue`
unfoldable pub tape_skip_value : TapeIterator → TapeOutcome
tape_skip_value st =
    if not (tape_not_at_end_pre st.iter)
    then tape_reject unexpected_end_of_input st
    else if opens (tape_byte st)
    then after_tape_skip st (tape_skip_loop st.string_root_iter 0 st.iter)
    else (true, tape_move st (tape_next st.iter))

-- what follows a member: its end, or a comma and the next round
unfoldable pub tape_member_end : (TapeIterator → TapeOutcome) → ℕ → TapeOutcome → TapeOutcome
tape_member_end go m (true, st) = (true, st)
tape_member_end go m (false, st) = tape_if_ok go (tape_collect_object_comma m st)

unfoldable pub tape_member : (TapeIterator → TapeOutcome) → ℕ → TapeIterator → TapeOutcome
tape_member go m st =
    tape_if_ok (λ st'. tape_member_end go m (tape_object_maybe_end m st'))
      (tape_if_ok tape_skip_value (tape_collect_object_colon m (tape_move st (tape_next st.iter))))

-- the loop of `skipRemainingObject`, with fuel; a round takes an entry at least
unfoldable pub tape_skip_members : ℕ → ℕ → TapeIterator → TapeOutcome
tape_skip_members m zero st = (false, st)
tape_skip_members m (suc fuel) st =
    if not (tape_not_at_end_pre st.iter) || not (tape_byte st == b'"')
    then tape_reject missing_key_start st
    else tape_member (λ st'. tape_skip_members m fuel st') m st

-- `skipRemainingObject`, for `parseOpts.maxDepth`
unfoldable pub tape_skip_remaining_object : ℕ → TapeIterator → TapeOutcome
tape_skip_remaining_object m st = tape_skip_members m (suc (length st.iter)) st
