-- ===== src/ParseUint/Run.antt =====
-- What the loops of include/jsonifier-incl/utilities/str_to_i.hpp make of a run of digits.
use jsonifier.Prelude.{
  ℕ, zero, suc, ◌+◌, ◌-◌, ◌*◌, ◌%◌, ◌^◌, ◌≤◌, ◌<◌, ◌≡◌, refl, ap, ◌∙◌, true, false, [], ◌∷◌, ◌++◌,
  arith, Bytes, All, length, peek,
}
use jsonifier.Decimal.{value, IsDigit}
use jsonifier.ParseUint.{is_digit, push_digit, scan_exponent, stop, last_block, blocks}

pub is_digit-IsDigit : (c : ℕ) → IsDigit c → is_digit c ≡ true
is_digit-IsDigit c h = ground arith

pub le-value : (ds : Bytes) (n : ℕ) → n ≤ value n ds
le-value [] n = omega arith
le-value (c ∷ cs) n = omega (arith, le-value cs (n * 10 + (c - 48)))

push_digit_lem : (n c : ℕ) → n * 10 + (c - 48) < 2 ^ 64 → push_digit n c ≡ n * 10 + (c - 48)
push_digit_lem n c h = omega arith

blocks_step :
    (n v c : ℕ) (rest : Bytes)
    → IsDigit c
    → v * 10 + (c - 48) < 2 ^ 64
    → blocks (suc n) v (c ∷ rest) ≡ blocks n (v * 10 + (c - 48)) rest
unfolding blocks
blocks_step n v c rest h fits =
    rw (is_digit-IsDigit c h, blocks) (ap (λ t. blocks n t rest) (push_digit_lem v c fits))

-- Digits for all the blocks that are left.
pub blocks-full :
    (ds : Bytes) (n v : ℕ) (rest : Bytes)
    → All IsDigit ds
    → length ds ≡ n
    → value v ds < 2 ^ 64
    → blocks n v (ds ++ rest) ≡ last_block (value v ds) rest
unfolding blocks
blocks-full [] zero v rest h e fits = refl
blocks-full [] (suc n) v rest h e fits = absurd (omega arith)
blocks-full (c ∷ cs) zero v rest h e fits = absurd (omega arith)
blocks-full (c ∷ cs) (suc n) v rest (hc, hs) e fits =
    blocks_step n v c (cs ++ rest) hc (omega (arith, le-value cs (v * 10 + (c - 48))))
    ∙ (blocks-full cs n (v * 10 + (c - 48)) rest hs (omega arith) fits)

last_block-stop :
    (v : ℕ) (rest : Bytes) → is_digit (peek rest) ≡ false → last_block v rest ≡ stop v rest
unfolding last_block
last_block-stop v rest h = rw h

-- Fewer digits than blocks.
pub blocks-part :
    (ds : Bytes) (n v : ℕ) (rest : Bytes)
    → All IsDigit ds
    → length ds ≤ n
    → value v ds < 2 ^ 64
    → is_digit (peek rest) ≡ false
    → blocks n v (ds ++ rest) ≡ stop (value v ds) rest
unfolding blocks
blocks-part [] zero v rest h e fits s = last_block-stop v rest s
blocks-part [] (suc n) v rest h e fits s = rw (s, blocks)
blocks-part (c ∷ cs) zero v rest h e fits s = absurd (omega arith)
blocks-part (c ∷ cs) (suc n) v rest (hc, hs) e fits s =
    blocks_step n v c (cs ++ rest) hc (omega (arith, le-value cs (v * 10 + (c - 48))))
    ∙ (blocks-part cs n (v * 10 + (c - 48)) rest hs (omega arith) fits s)

-- The digits of an exponent are read modulo 2 ^ 64.
pub scan_exponent-value :
    (ds : Bytes) (n : ℕ) (rest : Bytes)
    → All IsDigit ds
    → is_digit (peek rest) ≡ false
    → scan_exponent (ds ++ rest) (n % 2 ^ 64) ≡ (value n ds % 2 ^ 64, rest)
unfolding scan_exponent
scan_exponent-value [] n [] h s = refl
scan_exponent-value [] n (c ∷ cs) h s = rw s
scan_exponent-value (c ∷ cs) n rest (hc, hs) s =
    rw (is_digit-IsDigit c hc, shift) (scan_exponent-value cs (n * 10 + (c - 48)) rest hs s)
  where
    shift : push_digit (n % 2 ^ 64) c ≡ (n * 10 + (c - 48)) % 2 ^ 64
    shift = omega arith
