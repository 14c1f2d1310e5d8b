-- ===== src/TapeIterator/Skip/Values.antt =====
-- include/jsonifier-incl/utilities/json_iterator.hpp: `skipValue` over a tape, on the entries of a value.
use jsonifier.Prelude.{
  ℕ, suc, ◌+◌, ◌<◌, ◌^◌, ◌≡◌, refl, ap, ◌∙◌, true, false, List, [], ◌∷◌, ◌++◌, ◌==◌, if◌then◌else◌,
  Bytes, peek, drop, length, length-append, append_assoc, arith, add64, sub64, some,
}
use jsonifier.TapeIterator.{TapeIterator, tape_move}
use jsonifier.TapeIterator.Skip.{
  opens, closes, tape_depth, tape_skip_loop, tape_skip_value, after_tape_skip,
}

opens-closes : (c : ℕ) → opens c ≡ true → closes c ≡ false
unfolding opens closes
opens-closes c h = ground arith

module _ (text : Bytes) where
  -- An entry at an opening bracket, at a closing one, and at any other byte.
  abbrev pub Opens : ℕ → Type 0
  Opens i = opens (peek (drop i text)) ≡ true

  abbrev pub Closes : ℕ → Type 0
  Closes i = (opens (peek (drop i text)) ≡ false) × (closes (peek (drop i text)) ≡ true)

  abbrev pub IsItem : ℕ → Type 0
  IsItem i = (opens (peek (drop i text)) ≡ false) × (closes (peek (drop i text)) ≡ false)

  -- The entries inside a container: brackets match in number.
  pub data IsBalanced : List ℕ → Type 0 where
    nothing : IsBalanced []
    item : {i : ℕ} {is : List ℕ} → IsItem i → IsBalanced is → IsBalanced (i ∷ is)
    nested :
        (i j : ℕ) {is js : List ℕ}
        → Opens i
        → IsBalanced is
        → Closes j
        → IsBalanced js
        → IsBalanced (i ∷ (is ++ j ∷ js))

  -- The entries of a value: that of a scalar, or those of a container with its brackets.
  pub data IsTapeValue : List ℕ → Type 0 where
    scalar : {i : ℕ} → IsItem i → IsTapeValue (i ∷ [])
    container :
        (i j : ℕ) {is : List ℕ}
        → Opens i
        → IsBalanced is
        → Closes j
        → IsTapeValue (i ∷ (is ++ j ∷ []))

  loop-Opens :
      (i d : ℕ) (is : List ℕ)
      → Opens i
      → d + 1 < 2 ^ 64
      → tape_skip_loop text d (i ∷ is) ≡ tape_skip_loop text (suc d) is
  unfolding tape_skip_loop tape_depth
  loop-Opens i d is h b =
      rw (opens-closes (peek (drop i text)) h, h)
        (ap (λ e. tape_skip_loop text e is) {x = add64 d 1} {y = suc d} (omega arith))

  loop_item :
      (i d : ℕ) (is : List ℕ) → IsItem i → tape_skip_loop text d (i ∷ is) ≡ tape_skip_loop text d is
  unfolding tape_skip_loop tape_depth
  loop_item i d is (h, k) = rw (h, k) refl

  loop-Closes :
      (j d : ℕ) (is : List ℕ)
      → Closes j
      → suc d < 2 ^ 64
      → tape_skip_loop text (suc d) (j ∷ is)
        ≡ (if d == 0 then some is else tape_skip_loop text d is)
  unfolding tape_skip_loop tape_depth
  loop-Closes j d is (h, k) b =
      rw (h, k)
        (ap (λ e. if e == 0 then some is else tape_skip_loop text e is) {x = sub64 (suc d) 1}
          {y = d} (omega arith))

  loop-Closes_inner :
      (j d : ℕ) (is : List ℕ)
      → Closes j
      → suc (suc d) < 2 ^ 64
      → tape_skip_loop text (suc (suc d)) (j ∷ is) ≡ tape_skip_loop text (suc d) is
  loop-Closes_inner j d is k b =
      loop-Closes j (suc d) is k b
      ∙ ap (λ t. if t then some is else tape_skip_loop text (suc d) is) {x = suc d == 0} {y = false}
          (ground arith)

  loop-IsBalanced :
      (d : ℕ) (is ts : List ℕ)
      → IsBalanced is
      → suc d + length is < 2 ^ 64
      → tape_skip_loop text (suc d) (is ++ ts) ≡ tape_skip_loop text (suc d) ts
  loop-IsBalanced d _ ts nothing b = refl
  loop-IsBalanced d _ ts (item {i} {is} h p) b =
      loop_item i (suc d) (is ++ ts) h ∙ loop-IsBalanced d is ts p (omega arith)
  loop-IsBalanced d _ ts (nested i j {is} {js} h p k q) b =
      loop-Opens i (suc d) ((is ++ j ∷ js) ++ ts) h (omega (arith, length-append is (j ∷ js)))
      ∙ ap (tape_skip_loop text (suc (suc d))) (append_assoc is (j ∷ js) ts)
      ∙ loop-IsBalanced (suc d) is (j ∷ (js ++ ts)) p (omega (arith, length-append is (j ∷ js)))
      ∙ loop-Closes_inner j d (js ++ ts) k (omega (arith, length-append is (j ∷ js)))
      ∙ loop-IsBalanced d js ts q (omega (arith, length-append is (j ∷ js)))

-- `skipValue` over a tape, in front of the entries of a value, fewer than 2 ^ 64: it is true, the iterator
-- stands behind the last of them, and the rest of the state is unchanged, the two depths included.
pub tape_skip_value-IsTapeValue :
    (st : TapeIterator) (is ts : List ℕ)
    → IsTapeValue st.string_root_iter is
    → length is < 2 ^ 64
    → tape_skip_value (tape_move st (is ++ ts)) ≡ (true, tape_move st ts)
unfolding tape_skip_value after_tape_skip
tape_skip_value-IsTapeValue st _ ts (scalar {i} (h, k)) b = rw h refl
tape_skip_value-IsTapeValue st _ ts (container i j {is} h p k) b = rw h (
    ap (after_tape_skip (tape_move st ((i ∷ (is ++ j ∷ [])) ++ ts))) (
      loop-Opens st.string_root_iter i 0 ((is ++ j ∷ []) ++ ts) h (omega arith)
      ∙ ap (tape_skip_loop st.string_root_iter 1) (append_assoc is (j ∷ []) ts)
      ∙ loop-IsBalanced st.string_root_iter 0 is (j ∷ ts) p
          (omega (arith, length-append is (j ∷ [])))
      ∙ loop-Closes st.string_root_iter j 0 ts k (omega arith)))
