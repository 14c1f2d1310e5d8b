-- ===== src/JsonIterator/Whitespace.antt =====
-- include/jsonifier-incl/utilities/json_iterator.hpp: `skipWhitespace`, with its loop over words of eight
-- bytes. The two forms of the code, for a text with a NUL behind it and for one without, read the same
-- bytes here: a NUL is no white space.
use jsonifier.Prelude.{
  ℕ, zero, suc, ◌≤◌, ◌<◌, ◌≡◌, refl, sym, ap, ◌∙◌, true, false, [], ◌∷◌, leb, ◌==◌, if◌then◌else◌,
  Bytes, peek, next, drop, length, arith, inl, inr, Bool-cases, ==→≡,
}
use jsonifier.Minifier.{whitespace_table}

-- `std::countr_zero(v ^ allSpacesMask) >> 3` for the word `v` of `n` bytes: the spaces before its first
-- other byte, or `n`
unfoldable pub leading_spaces : ℕ → Bytes → ℕ
leading_spaces zero s = zero
leading_spaces (suc n) [] = zero
leading_spaces (suc n) (c ∷ cs) = if c == b' ' then suc (leading_spaces n cs) else zero

-- `while (iter + 8 <= endIter)`, with fuel; a round takes eight bytes
unfoldable pub skip_words : ℕ → Bytes → Bytes
skip_words zero s = s
skip_words (suc fuel) s =
    let spaces = leading_spaces 8 s in
    let rest = skip_words fuel (drop 8 s) in
    if leb 8 (length s) then (if spaces == 8 then rest else drop spaces s) else s

-- `while (*iter == ' ')`
unfoldable pub skip_spaces : Bytes → Bytes
skip_spaces [] = []
skip_spaces (c ∷ cs) = let rest = skip_spaces cs in if c == b' ' then rest else c ∷ cs

-- the loop of `skipWhitespace`, with fuel; a round takes a byte at least
unfoldable pub skip_loop : ℕ → Bytes → Bytes
skip_loop zero s = s
skip_loop (suc fuel) s =
    let short = skip_loop fuel (next s) in
    let long = skip_loop fuel (skip_spaces (skip_words (length s) (next s))) in
    if whitespace_table (peek s) then if peek (next s) == b' ' then long else short else s

unfoldable pub skip_whitespace : Bytes → Bytes
skip_whitespace s = skip_loop (suc (length s)) s

-- The bytes behind the white space at the start.
unfoldable pub trim_start : Bytes → Bytes
trim_start [] = []
trim_start (c ∷ cs) = let rest = trim_start cs in if whitespace_table c then rest else c ∷ cs

pub trim_start_nothing : trim_start [] ≡ []
unfolding trim_start
trim_start_nothing = refl

trim_start_space : (s : Bytes) → trim_start (b' ' ∷ s) ≡ trim_start s
unfolding trim_start whitespace_table
trim_start_space s = refl

pub trim_start_white :
    (c : ℕ) (s : Bytes) → whitespace_table c ≡ true → trim_start (c ∷ s) ≡ trim_start s
unfolding trim_start
trim_start_white c s h = rw h refl

pub trim_start_other : (c : ℕ) (s : Bytes) → whitespace_table c ≡ false → trim_start (c ∷ s) ≡ c ∷ s
unfolding trim_start
trim_start_other c s h = rw h refl

length-drop : (n : ℕ) (s : Bytes) → length (drop n s) ≤ length s
length-drop zero s = omega arith
length-drop (suc n) [] = omega arith
length-drop (suc n) (c ∷ cs) = omega (arith, length-drop n cs)

trim_start-leading_spaces :
    (n : ℕ) (s : Bytes) → trim_start (drop (leading_spaces n s) s) ≡ trim_start s
unfolding leading_spaces
trim_start-leading_spaces zero s = refl
trim_start-leading_spaces (suc n) [] = refl
trim_start-leading_spaces (suc n) (c ∷ cs) = elim (Bool-cases (c == b' ')) [
  | inl e ↦ rw e (
      trim_start-leading_spaces n cs
      ∙ sym (trim_start_space cs)
      ∙ ap (λ d. trim_start (d ∷ cs)) (ground arith))
  | inr e ↦ rw e refl
]

trim_start-skip_words : (fuel : ℕ) (s : Bytes) → trim_start (skip_words fuel s) ≡ trim_start s
unfolding skip_words
trim_start-skip_words zero s = refl
trim_start-skip_words (suc fuel) s = elim (Bool-cases (leb 8 (length s))) [
  | inl e ↦ rw e (elim (Bool-cases (leading_spaces 8 s == 8)) [
    | inl eight ↦ rw eight (
        trim_start-skip_words fuel (drop 8 s)
        ∙ ap (λ k. trim_start (drop k s)) (sym (==→≡ (leading_spaces 8 s) 8 eight))
        ∙ trim_start-leading_spaces 8 s)
    | inr few ↦ rw few (trim_start-leading_spaces 8 s)
  ])
  | inr e ↦ rw e refl
]

length-skip_words : (fuel : ℕ) (s : Bytes) → length (skip_words fuel s) ≤ length s
unfolding skip_words
length-skip_words zero s = omega arith
length-skip_words (suc fuel) s = elim (Bool-cases (leb 8 (length s))) [
  | inl e ↦ rw e (elim (Bool-cases (leading_spaces 8 s == 8)) [
    | inl eight ↦ rw eight (omega (arith, length-skip_words fuel (drop 8 s), length-drop 8 s))
    | inr few ↦ rw few (length-drop (leading_spaces 8 s) s)
  ])
  | inr e ↦ rw e (omega arith)
]

trim_start-skip_spaces : (s : Bytes) → trim_start (skip_spaces s) ≡ trim_start s
unfolding skip_spaces
trim_start-skip_spaces [] = refl
trim_start-skip_spaces (c ∷ cs) = elim (Bool-cases (c == b' ')) [
  | inl e ↦ rw e (
      trim_start-skip_spaces cs
      ∙ sym (trim_start_space cs)
      ∙ ap (λ d. trim_start (d ∷ cs)) (ground arith))
  | inr e ↦ rw e refl
]

length-skip_spaces : (s : Bytes) → length (skip_spaces s) ≤ length s
unfolding skip_spaces
length-skip_spaces [] = omega arith
length-skip_spaces (c ∷ cs) = elim (Bool-cases (c == b' ')) [
  | inl e ↦ rw e (omega (arith, length-skip_spaces cs))
  | inr e ↦ rw e (omega arith)
]

skip_loop_nothing : (fuel : ℕ) → skip_loop (suc fuel) [] ≡ []
unfolding skip_loop whitespace_table
skip_loop_nothing fuel = refl

skip_loop-trim_start : (fuel : ℕ) (s : Bytes) → length s < fuel → skip_loop fuel s ≡ trim_start s
unfolding skip_loop
skip_loop-trim_start zero s h = absurd (omega arith)
skip_loop-trim_start (suc fuel) [] h = skip_loop_nothing fuel ∙ sym trim_start_nothing
skip_loop-trim_start (suc fuel) (c ∷ cs) h = elim (Bool-cases (whitespace_table c)) [
  | inl e ↦ rw e (
      elim (Bool-cases (peek cs == b' ')) [
        | inl space ↦ rw space (
            skip_loop-trim_start fuel (skip_spaces (skip_words (suc (length cs)) cs)) (
              omega (
                arith,
                length-skip_spaces (skip_words (suc (length cs)) cs),
                length-skip_words (suc (length cs)) cs,
              ))
            ∙ trim_start-skip_spaces (skip_words (suc (length cs)) cs)
            ∙ trim_start-skip_words (suc (length cs)) cs)
        | inr other ↦ rw other (skip_loop-trim_start fuel cs (omega arith))
      ]
      ∙ sym (trim_start_white c cs e))
  | inr e ↦ rw e (sym (trim_start_other c cs e))
]

-- `skipWhitespace`, with its word loop, leaves the iterator at the first byte that is no white space,
-- or at the end.
pub skip_whitespace-trim_start : (s : Bytes) → skip_whitespace s ≡ trim_start s
unfolding skip_whitespace
skip_whitespace-trim_start s = skip_loop-trim_start (suc (length s)) s (omega arith)
