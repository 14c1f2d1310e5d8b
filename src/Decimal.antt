-- ===== src/Decimal.antt =====
-- Decimal text, as the number writer (include/jsonifier-incl/utilities/i_to_str.hpp) and the
-- number reader (include/jsonifier-incl/utilities/str_to_i.hpp) are measured against.
use native.Mathlib.Nat.{pow-suc}
use jsonifier.Prelude.{
  ap, ◌∙◌, ℕ, zero, suc, ◌+◌, ◌-◌, ◌*◌, ◌/◌, ◌%◌, ◌≤◌, ◌<◌, ◌^◌, ◌≡◌, ◌⊎◌, refl, [], ◌∷◌, ◌++◌,
  arith, Bytes, All, All-append, length, length-append,
}

-- The lowest `k` decimal digits of `v`, the most significant first.
unfoldable pub digits_of : ℕ → ℕ → Bytes
digits_of zero v = []
digits_of (suc k) v = digits_of k (v / 10) ++ (48 + v % 10) ∷ []

-- The number that a text of digits spells behind `n`.
abbrev pub value : ℕ → Bytes → ℕ
value n [] = n
value n (c ∷ cs) = value (n * 10 + (c - 48)) cs

abbrev pub IsDigit : ℕ → Type 0
IsDigit c = (48 ≤ c) × (c ≤ 57)

pub value-append : (xs ys : Bytes) (n : ℕ) → value n (xs ++ ys) ≡ value (value n xs) ys
value-append [] ys n = refl
value-append (x ∷ xs) ys n = value-append xs ys (n * 10 + (x - 48))

pub digits_of-All : (k v : ℕ) → All IsDigit (digits_of k v)
unfolding digits_of
digits_of-All zero v = tt
digits_of-All (suc k) v =
    All-append IsDigit (digits_of k (v / 10)) _ (digits_of-All k (v / 10)) (omega arith)

pub length-digits_of : (k v : ℕ) → length (digits_of k v) ≡ k
unfolding digits_of
length-digits_of zero v = refl
length-digits_of (suc k) v =
    omega (
      arith,
      length-append (digits_of k (v / 10)) ((48 + v % 10) ∷ []),
      length-digits_of k (v / 10),
    )

-- `text` is the number `v` in decimal, with no needless zero in front.
pub record IsDecimal (v : ℕ) (text : Bytes) : Type 0 where
  pub k : ℕ
  pub digits : text ≡ digits_of (suc k) v
  pub fits : v < 10 ^ suc k
  pub shortest : (k ≡ 0) ⊎ (10 ^ k ≤ v)

pub value-digits_of : (k v : ℕ) → v < 10 ^ k → value 0 (digits_of k v) ≡ v
unfolding digits_of
value-digits_of zero v h = omega arith
value-digits_of (suc k) v h =
    value-append (digits_of k (v / 10)) ((48 + v % 10) ∷ []) 0
    ∙ ap (λ t. t * 10 + (48 + v % 10 - 48))
        (value-digits_of k (v / 10) (omega (arith, pow-suc 10 k)))
    ∙ omega arith
