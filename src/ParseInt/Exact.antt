-- ===== src/ParseInt/Exact.antt =====
-- `integer_parser<int64_t>` of include/jsonifier-incl/utilities/str_to_i.hpp on whole numbers.
use native.Mathlib.Nat.{pow-suc, one-le-pow, le-mul_of_pos_right, mul-le-mul_right}
use jsonifier.Prelude.{
  ℕ, zero, suc, ◌+◌, ◌-◌, ◌*◌, ◌^◌, ◌≤◌, ◌<◌, ◌≡◌, ◌≢◌, ◌⊎◌, inl, inr, refl, sym, ap, ◌∙◌, Bool,
  true, false, [], ◌∷◌, ◌++◌, arith, Bytes, All, length, leb, if◌then◌else◌, ℤ, pos, neg,
  Bool-cases,
}
use jsonifier.Decimal.{value, IsDigit}
use jsonifier.ParseUint.Run.{is_digit-IsDigit}
use jsonifier.ParseUint.Number.{IsNumber, Ends}
use jsonifier.ParseInt.{
  SignedResult, done, null, max_i64, stop, last_block, blocks, parse_magnitude, put_sign,
  parse_integer, parse_int,
}

-- The greatest magnitude of a number of the type.
abbrev pub limit : Bool → ℕ
limit negative = if negative then 2 ^ 63 else max_i64

abbrev pub within : Bool → ℕ → Bytes → SignedResult ℕ
within negative v rest = if leb v (limit negative) then done v rest else null

stop_lem : (v : ℕ) (rest : Bytes) → Ends rest → stop v rest ≡ done v rest
unfolding stop
stop_lem v rest e = rw e.no_exp_frac refl

last_block-digit :
    (negative : Bool) (v d : ℕ) (rest : Bytes)
    → v < 10 ^ 18
    → IsDigit d
    → last_block negative v (d ∷ rest) ≡ within negative (v * 10 + (d - 48)) rest
unfolding last_block
last_block-digit true v d rest h hd = ground arith
last_block-digit false v d rest h hd = ground arith

within-small :
    (negative : Bool) (v : ℕ) (rest : Bytes) → v < 10 ^ 18 → within negative v rest ≡ done v rest
within-small true v rest h = ground arith
within-small false v rest h = ground arith

blocks-stop :
    (negative : Bool) (n v : ℕ) (rest : Bytes) → Ends rest → blocks negative n v rest ≡ done v rest
unfolding blocks last_block
blocks-stop negative zero v rest e = rw (last_block, e.no_digit) (stop_lem v rest e)
blocks-stop negative (suc n) v rest e = rw (blocks, e.no_digit) (stop_lem v rest e)

blocks-last :
    (negative : Bool) (v d : ℕ) (rest : Bytes)
    → v < 10 ^ 18
    → IsDigit d
    → blocks negative 0 v (d ∷ rest) ≡ within negative (v * 10 + (d - 48)) rest
unfolding blocks
blocks-last negative v d rest h hd = last_block-digit negative v d rest h hd

blocks-digit :
    (negative : Bool) (n v d : ℕ) (rest : Bytes)
    → v < 10 ^ 18
    → IsDigit d
    → blocks negative (suc n) v (d ∷ rest) ≡ blocks negative n (v * 10 + (d - 48)) rest
unfolding blocks
blocks-digit negative n v d rest h hd =
    rw (blocks, is_digit-IsDigit d hd) (ap (λ t. blocks negative n t rest) (omega arith))

le_nine : (c : ℕ) → IsDigit c → c - 48 ≤ 9
le_nine c h = omega arith

-- Room for `n` more digits, each of which keeps the number below 10 ^ 18.
room-lt : (n v : ℕ) → (v + 1) * 10 ^ n ≤ 10 ^ 18 → v < 10 ^ 18
room-lt n v h = omega (arith, le-mul_of_pos_right (v + 1) (one-le-pow n 10 (omega arith)))

room-digit :
    (n v d : ℕ)
    → IsDigit d
    → (v + 1) * 10 ^ suc n ≤ 10 ^ 18
    → (v * 10 + (d - 48) + 1) * 10 ^ n ≤ 10 ^ 18
room-digit n v d hd h =
    omega (arith, rw (pow-suc 10 n) at h, mul-le-mul_right (10 ^ n) (le_nine d hd))

-- Digits for some of the blocks, or for all of them and the last, and then anything.
blocks_exact :
    (negative : Bool) (n v : ℕ) (ds rest : Bytes)
    → (v + 1) * 10 ^ n ≤ 10 ^ 18
    → All IsDigit ds
    → length ds ≤ suc n
    → (length ds ≡ suc n) ⊎ Ends rest
    → blocks negative n v (ds ++ rest) ≡ within negative (value v ds) rest
blocks_exact negative n v [] rest b h l (inl e) = absurd (omega arith)
blocks_exact negative n v [] rest b h l (inr e) =
    blocks-stop negative n v rest e ∙ sym (within-small negative v rest (room-lt n v b))
blocks_exact negative zero v (d ∷ []) rest b (hd, hs) l e =
    blocks-last negative v d rest (omega arith) hd
blocks_exact negative zero v (d ∷ c ∷ ds) rest b h l e = absurd (omega arith)
blocks_exact negative (suc n) v (d ∷ ds) rest b (hd, hs) l e =
    blocks-digit negative n v d (ds ++ rest) (room-lt (suc n) v b) hd
    ∙ blocks_exact negative n (v * 10 + (d - 48)) ds rest (room-digit n v d hd b) hs (omega arith)
        (fewer e)
  where
    fewer : (length (d ∷ ds) ≡ suc (suc n)) ⊎ Ends rest → (length ds ≡ suc n) ⊎ Ends rest
    fewer (inl e) = inl (omega arith)
    fewer (inr e) = inr e

magnitude-short :
    (negative : Bool) (c : ℕ) (rest : Bytes)
    → IsDigit c
    → Ends rest
    → parse_magnitude negative (c ∷ rest) ≡ done (c - 48) rest
unfolding parse_magnitude
magnitude-short negative c rest hc e =
    rw (is_digit-IsDigit c hc, e.no_digit) (stop_lem (c - 48) rest e)

magnitude-long :
    (negative : Bool) (c d : ℕ) (rest : Bytes)
    → IsDigit c
    → IsDigit d
    → c ≢ 48
    → parse_magnitude negative (c ∷ d ∷ rest) ≡ blocks negative 16 ((c - 48) * 10 + (d - 48)) rest
unfolding parse_magnitude
magnitude-long negative c d rest hc hd ne = ground arith

parse_magnitude_exact :
    (negative : Bool) (ds rest : Bytes)
    → IsNumber ds
    → length ds ≤ 19
    → (length ds ≡ 19) ⊎ Ends rest
    → parse_magnitude negative (ds ++ rest) ≡ within negative (value 0 ds) rest
parse_magnitude_exact negative [] rest h l e = elim h [ ]
parse_magnitude_exact negative (c ∷ []) rest h l (inl e) = absurd (omega arith)
parse_magnitude_exact negative (c ∷ []) rest h l (inr e) =
    magnitude-short negative c rest h e
    ∙ sym (within-small negative (c - 48) rest (omega arith))
    ∙ ap (λ v. within negative v rest) (omega arith)
parse_magnitude_exact negative (c ∷ d ∷ ds) rest (hc, ne, (hd, hs)) l e =
    magnitude-long negative c d (ds ++ rest) hc hd ne
    ∙ blocks_exact negative 16 ((c - 48) * 10 + (d - 48)) ds rest (omega arith) hs (omega arith)
        (fewer e)
    ∙ ap (λ v. within negative (value v ds) rest) (omega arith)
  where
    fewer : (length (c ∷ d ∷ ds) ≡ 19) ⊎ Ends rest → (length ds ≡ 17) ⊎ Ends rest
    fewer (inl e) = inl (omega arith)
    fewer (inr e) = inr e

-- `-` or nothing
abbrev pub minus_text : Bool → Bytes
minus_text negative = if negative then b'-' ∷ [] else []

abbrev pub signed : Bool → ℕ → ℤ
signed negative v = if negative then neg v else pos v

-- The result that a number asks for.
abbrev pub exact_or_null : Bool → ℕ → Bytes → SignedResult ℤ
exact_or_null negative v rest =
    if leb v (limit negative) then done (signed negative v) rest else null

put_sign-within :
    (negative : Bool) (v : ℕ) (rest : Bytes)
    → put_sign negative (within negative v rest) ≡ exact_or_null negative v rest
unfolding put_sign
put_sign-within negative v rest = elim (Bool-cases (leb v (limit negative))) [
  | inl e ↦ rw e refl
  | inr e ↦ rw e refl
]

parse_integer_exact :
    (negative : Bool) (ds rest : Bytes)
    → parse_magnitude negative (ds ++ rest) ≡ within negative (value 0 ds) rest
    → parse_integer negative (ds ++ rest) ≡ exact_or_null negative (value 0 ds) rest
unfolding parse_integer
parse_integer_exact negative ds rest h =
    ap (put_sign negative) h ∙ put_sign-within negative (value 0 ds) rest

parse_int-minus : (s : Bytes) → parse_int (b'-' ∷ s) ≡ parse_integer true s
unfolding parse_int
parse_int-minus s = refl

parse_int-digit :
    (ds rest : Bytes) → IsNumber ds → parse_int (ds ++ rest) ≡ parse_integer false (ds ++ rest)
unfolding parse_int
parse_int-digit [] rest h = elim h [ ]
parse_int-digit (c ∷ []) rest h = ground arith
parse_int-digit (c ∷ d ∷ ds) rest h = ground arith

-- A whole number of at most nineteen digits, with a minus sign or without, is read exactly if it
-- fits 64 bits, and refused if it does not. Behind fewer than nineteen digits there must be no
-- digit, no fraction and no exponent; behind nineteen there may be anything.
pub parse_int-exact :
    (negative : Bool) (ds rest : Bytes)
    → IsNumber ds
    → length ds ≤ 19
    → (length ds ≡ 19) ⊎ Ends rest
    → parse_int (minus_text negative ++ (ds ++ rest)) ≡ exact_or_null negative (value 0 ds) rest
parse_int-exact true ds rest h l e =
    parse_int-minus (ds ++ rest)
    ∙ parse_integer_exact true ds rest (parse_magnitude_exact true ds rest h l e)
parse_int-exact false ds rest h l e =
    parse_int-digit ds rest h
    ∙ parse_integer_exact false ds rest (parse_magnitude_exact false ds rest h l e)
