-- ===== src/TapeIterator/Skip/Members.antt =====
-- include/jsonifier-incl/utilities/json_iterator.hpp: `skipRemainingObject` over a tape, on the entries of
-- the members of an object.
use jsonifier.Prelude.{
  ℕ, zero, suc, ◌<◌, ◌^◌, ◌≡◌, refl, ap, ◌∙◌, true, false, List, ◌∷◌, [], ◌++◌, Bytes, peek, drop,
  length, length-append, append_assoc, arith, sub64,
}
use jsonifier.TapeIterator.{
  TapeIterator, TapeOutcome, tape_move, tape_if_ok, tape_or_reject, tape_check_char,
  tape_check_char_unsafe, tape_count_depth, tape_then_advance, tape_increment_if_equals,
  tape_object_maybe_end, tape_collect_object_comma, tape_collect_object_colon,
}
use jsonifier.TapeIterator.Skip.{
  tape_skip_value, tape_member_end, tape_member, tape_skip_members, tape_skip_remaining_object,
}
use jsonifier.TapeIterator.Skip.Values.{IsTapeValue, tape_skip_value-IsTapeValue}

-- the entry `i` is that of the byte `c`
abbrev pub IsAt : Bytes → ℕ → ℕ → Type 0
IsAt text c i = peek (drop i text) ≡ c

-- The entries of members: of each its key, a colon and a value, with commas between them, and at the end
-- the bracket that closes the object.
pub data AreMembers (text : Bytes) : List ℕ → Type 0 where
  last :
      (k c e : ℕ) {vs : List ℕ}
      → IsAt text b'"' k
      → IsAt text b':' c
      → IsTapeValue text vs
      → IsAt text b'}' e
      → AreMembers text (k ∷ c ∷ (vs ++ e ∷ []))
  more :
      (k c e : ℕ) {vs ms : List ℕ}
      → IsAt text b'"' k
      → IsAt text b':' c
      → IsTapeValue text vs
      → IsAt text b',' e
      → AreMembers text ms
      → AreMembers text (k ∷ c ∷ (vs ++ e ∷ ms))

-- the state behind an object
abbrev pub behind_object : TapeIterator → List ℕ → TapeIterator
behind_object st is = record st {
  iter = is;
  current_object_depth = sub64 st.current_object_depth 1;
}

module _ (m : ℕ) (st : TapeIterator) where
  colon_at :
      (c : ℕ) (is : List ℕ)
      → IsAt st.string_root_iter b':' c
      → tape_collect_object_colon m (tape_move st (c ∷ is)) ≡ (true, tape_move st is)
  unfolding tape_collect_object_colon tape_increment_if_equals tape_or_reject tape_then_advance
      tape_check_char tape_check_char_unsafe tape_count_depth
  colon_at c is h = rw h refl

  comma_at :
      (c : ℕ) (is : List ℕ)
      → IsAt st.string_root_iter b',' c
      → tape_collect_object_comma m (tape_move st (c ∷ is)) ≡ (true, tape_move st is)
  unfolding tape_collect_object_comma tape_increment_if_equals tape_or_reject tape_then_advance
      tape_check_char tape_check_char_unsafe tape_count_depth
  comma_at c is h = rw h refl

  end_at :
      (e : ℕ) (is : List ℕ)
      → IsAt st.string_root_iter b'}' e
      → tape_object_maybe_end m (tape_move st (e ∷ is)) ≡ (true, behind_object st is)
  unfolding tape_object_maybe_end tape_increment_if_equals tape_then_advance tape_check_char
      tape_check_char_unsafe tape_count_depth
  end_at e is h = rw h refl

  no_end_at :
      (e : ℕ) (is : List ℕ)
      → IsAt st.string_root_iter b',' e
      → tape_object_maybe_end m (tape_move st (e ∷ is)) ≡ (false, tape_move st (e ∷ is))
  unfolding tape_object_maybe_end tape_increment_if_equals tape_then_advance tape_check_char
      tape_check_char_unsafe
  no_end_at e is h = rw h refl

  module _ (go : TapeIterator → TapeOutcome) where
    member_at :
        (k c : ℕ) (vs ts : List ℕ)
        → IsAt st.string_root_iter b':' c
        → IsTapeValue st.string_root_iter vs
        → length vs < 2 ^ 64
        → tape_member go m (tape_move st (k ∷ c ∷ (vs ++ ts)))
          ≡ tape_member_end go m (tape_object_maybe_end m (tape_move st ts))
    unfolding tape_member tape_if_ok
    member_at k c vs ts hc hv b =
        ap
          (λ o.
            tape_if_ok (λ st'. tape_member_end go m (tape_object_maybe_end m st'))
              (tape_if_ok tape_skip_value o))
          (colon_at c (vs ++ ts) hc)
        ∙ ap (tape_if_ok (λ st'. tape_member_end go m (tape_object_maybe_end m st')))
            (tape_skip_value-IsTapeValue st vs ts hv b)

    member_last :
        (e : ℕ) (ts : List ℕ)
        → IsAt st.string_root_iter b'}' e
        → tape_member_end go m (tape_object_maybe_end m (tape_move st (e ∷ ts)))
          ≡ (true, behind_object st ts)
    unfolding tape_member_end
    member_last e ts h = ap (tape_member_end go m) (end_at e ts h)

    member_more :
        (e : ℕ) (ts : List ℕ)
        → IsAt st.string_root_iter b',' e
        → tape_member_end go m (tape_object_maybe_end m (tape_move st (e ∷ ts)))
          ≡ go (tape_move st ts)
    unfolding tape_member_end tape_if_ok
    member_more e ts h =
        ap (tape_member_end go m) (no_end_at e ts h) ∙ ap (tape_if_ok go) (comma_at e ts h)

  round_at :
      (fuel k : ℕ) (ts : List ℕ)
      → IsAt st.string_root_iter b'"' k
      → tape_skip_members m (suc fuel) (tape_move st (k ∷ ts))
        ≡ tape_member (λ st'. tape_skip_members m fuel st') m (tape_move st (k ∷ ts))
  unfolding tape_skip_members
  round_at fuel k ts h = rw h refl

  tape_skip_members-AreMembers :
      (fuel : ℕ) (is ts : List ℕ)
      → AreMembers st.string_root_iter is
      → length is < 2 ^ 64
      → length is < fuel
      → tape_skip_members m fuel (tape_move st (is ++ ts)) ≡ (true, behind_object st ts)
  tape_skip_members-AreMembers zero is ts h b f = absurd (omega arith)
  tape_skip_members-AreMembers (suc fuel) _ ts (last k c e {vs} hk hc hv he) b f =
      round_at fuel k (c ∷ ((vs ++ e ∷ []) ++ ts)) hk
      ∙ ap (λ t. tape_member (λ st'. tape_skip_members m fuel st') m (tape_move st (k ∷ c ∷ t)))
          (append_assoc vs (e ∷ []) ts)
      ∙ member_at (λ st'. tape_skip_members m fuel st') k c vs (e ∷ ts) hc hv
          (omega (arith, length-append vs (e ∷ [])))
      ∙ member_last (λ st'. tape_skip_members m fuel st') e ts he
  tape_skip_members-AreMembers (suc fuel) _ ts (more k c e {vs} {ms} hk hc hv he hs) b f =
      round_at fuel k (c ∷ ((vs ++ e ∷ ms) ++ ts)) hk
      ∙ ap (λ t. tape_member (λ st'. tape_skip_members m fuel st') m (tape_move st (k ∷ c ∷ t)))
          (append_assoc vs (e ∷ ms) ts)
      ∙ member_at (λ st'. tape_skip_members m fuel st') k c vs (e ∷ (ms ++ ts)) hc hv
          (omega (arith, length-append vs (e ∷ ms)))
      ∙ member_more (λ st'. tape_skip_members m fuel st') e (ms ++ ts) he
      ∙ tape_skip_members-AreMembers fuel ms ts hs (omega (arith, length-append vs (e ∷ ms)))
          (omega (arith, length-append vs (e ∷ ms)))

-- `skipRemainingObject` over a tape, in front of the entries of one member or more, fewer than 2 ^ 64, up to
-- the bracket that closes the object: it is true, the iterator stands behind that bracket, the object depth
-- is one lower, and the rest of the state is unchanged.
pub tape_skip_remaining_object-AreMembers :
    (max_depth : ℕ) (st : TapeIterator) (is ts : List ℕ)
    → AreMembers st.string_root_iter is
    → length is < 2 ^ 64
    → tape_skip_remaining_object max_depth (tape_move st (is ++ ts)) ≡ (true, behind_object st ts)
unfolding tape_skip_remaining_object
tape_skip_remaining_object-AreMembers max_depth st is ts h b =
    tape_skip_members-AreMembers max_depth st (suc (length (is ++ ts))) is ts h b
      (omega (arith, length-append is ts))
