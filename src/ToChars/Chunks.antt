-- ===== src/ToChars/Chunks.antt =====
-- The multiplications by a reciprocal in include/jsonifier-incl/utilities/i_to_str.hpp are
-- divisions, and the pieces that a text is put together from are digits of the number.
use jsonifier.Prelude.{
  ℕ, suc, ◌/◌, ◌%◌, ◌<◌, ◌^◌, ◌≡◌, sym, ap, ◌∙◌, [], ◌∷◌, ◌++◌, append_assoc, arith, Bytes,
}
use mathlib.Core.Path.{ap₂}
use jsonifier.Decimal.{digits_of}
use jsonifier.ToChars.{
  gen_2, gen_3, gen_4, shift_45, multiply_and_shift, less_10000, less_100000000, digit_char,
}

pub shift_45_lem : (v : ℕ) → v < 100000000 → shift_45 v ≡ v / 10000
unfolding shift_45
shift_45_lem v h = omega arith

pub multiply_and_shift_lem : (v : ℕ) → v < 2 ^ 64 → multiply_and_shift v ≡ v / 100000000
unfolding multiply_and_shift
multiply_and_shift_lem v h = omega arith

-- an entry of a table, or one character, at the number `q` that the source computes for `n`
pub digit_char-digits_of : {q n : ℕ} → q ≡ n → n < 10 → digit_char q ∷ [] ≡ digits_of 1 n
unfolding digits_of
digit_char-digits_of e h = ground arith

pub gen_2-digits_of : {q n : ℕ} → q ≡ n → n < 100 → gen_2 q ≡ digits_of 2 n
unfolding gen_2 digits_of
gen_2-digits_of e h = ground arith

pub gen_3-digits_of : {q n : ℕ} → q ≡ n → n < 1000 → gen_3 q ≡ digits_of 3 n
unfolding gen_3 digits_of
gen_3-digits_of e h = ground arith

pub gen_4-digits_of : {q n : ℕ} → q ≡ n → n < 10000 → gen_4 q ≡ digits_of 4 n
unfolding gen_4 digits_of
gen_4-digits_of e h = ground arith

digits_of-split :
    (k v : ℕ) → digits_of (suc (suc (suc (suc k)))) v ≡ digits_of k (v / 10000) ++ gen_4 (v % 10000)
unfolding digits_of gen_4
digits_of-split k v = simp append_assoc (ground arith)

-- Four digits behind the text of `v / 10000`.
pub low_four :
    (k v : ℕ) {lead : Bytes}
    → v < 100000000
    → lead ≡ digits_of k (v / 10000)
    → lead ++ gen_4 (less_10000 v (shift_45 v)) ≡ digits_of (suc (suc (suc (suc k)))) v
low_four k v h e =
    rw (e, digits_of-split k v, shift_45_lem v h)
      (ap (λ r. digits_of k (v / 10000) ++ gen_4 r) (omega arith))

pair_of_fours :
    (v r : ℕ)
    → r ≡ v % 100000000
    → gen_4 (shift_45 r) ++ gen_4 (less_10000 r (shift_45 r))
      ≡ gen_4 (v / 10000 % 10000) ++ gen_4 (v % 10000)
pair_of_fours v r h =
    ap₂ (λ a b. gen_4 a ++ gen_4 b) (omega (arith, shift_45_lem r)) (omega (arith, shift_45_lem r))

digits_of-split_eight :
    (k v : ℕ)
    → digits_of (suc (suc (suc (suc (suc (suc (suc (suc k)))))))) v
      ≡ digits_of k (v / 100000000) ++ (gen_4 (v / 10000 % 10000) ++ gen_4 (v % 10000))
digits_of-split_eight k v =
    digits_of-split (suc (suc (suc (suc k)))) v
    ∙ ap (λ t. t ++ gen_4 (v % 10000)) (digits_of-split k (v / 10000))
    ∙ append_assoc (digits_of k (v / 10000 / 10000)) _ _
    ∙ ap (λ q. digits_of k q ++ (gen_4 (v / 10000 % 10000) ++ gen_4 (v % 10000))) (omega arith)

-- Eight digits behind the text of `v / 100000000`.
pub low_eight :
    (k v : ℕ) {lead : Bytes}
    → v < 2 ^ 64
    → lead ≡ digits_of k (v / 100000000)
    → let r = less_100000000 v (multiply_and_shift v) in
      lead ++ (gen_4 (shift_45 r) ++ gen_4 (less_10000 r (shift_45 r)))
      ≡ digits_of (suc (suc (suc (suc (suc (suc (suc (suc k)))))))) v
low_eight k v h e =
    ap₂ ◌++◌ e (pair_of_fours v _ (omega (arith, multiply_and_shift_lem v)))
    ∙ sym (digits_of-split_eight k v)
