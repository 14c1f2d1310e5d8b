-- ===== src/ParseUint/Number.antt =====
-- `integer_parser<uint64_t>::parseInt` of include/jsonifier-incl/utilities/str_to_i.hpp on a whole
-- number: exact below 2 ^ 64, and refused from there on.
use native.Mathlib.Nat.{pow-suc, one-le-pow, le-mul_of_pos_right, mul-le-mul_right}
use native.Mathlib.Decide.{dec_lt}
use jsonifier.Prelude.{
  ℕ, zero, suc, ◌+◌, ◌-◌, ◌*◌, ◌^◌, ◌≤◌, ◌<◌, ◌≡◌, ◌≢◌, refl, ap, ◌∙◌, false, [], ◌∷◌, ◌++◌,
  append_assoc, arith, Bytes, All, length, peek, ltb, lt→ltb, le→ltb, if◌then◌else◌,
}
use jsonifier.Decimal.{value, value-append, IsDigit}
use jsonifier.ParseUint.{
  is_digit, exp_frac_table, push_digit, stop, last_block, after_last, blocks, parse_integer,
  parse_int, ParseResult, done, null,
}
use jsonifier.ParseUint.Run.{is_digit-IsDigit, blocks-full, blocks-part, le-value}

-- The text of a number with no needless zero in front.
abbrev pub IsNumber : Bytes → Type 0
IsNumber [] = ⊥
IsNumber (c ∷ []) = IsDigit c
IsNumber (c ∷ d ∷ ds) = IsDigit c × (c ≢ 48) × All IsDigit (d ∷ ds)

-- What may follow a whole number: no digit, no fraction and no exponent.
pub record Ends (rest : Bytes) : Type 0 where
  pub no_digit : is_digit (peek rest) ≡ false
  pub no_exp_frac : exp_frac_table (peek rest) ≡ false

le_nine : (c : ℕ) → IsDigit c → c - 48 ≤ 9
le_nine c h = omega arith

value-lt :
    (k : ℕ) (ds : Bytes) (n : ℕ) → All IsDigit ds → length ds ≤ k → value n ds < (n + 1) * 10 ^ k
value-lt k [] n h l = omega (arith, le-mul_of_pos_right (n + 1) (one-le-pow k 10 (omega arith)))
value-lt zero (c ∷ cs) n h l = absurd (omega arith)
value-lt (suc k) (c ∷ cs) n (hc, hs) l = rw (pow-suc 10 k) (
    omega (
      arith,
      value-lt k cs (n * 10 + (c - 48)) hs (omega arith),
      mul-le-mul_right (10 ^ k) (le_nine c hc),
    ))

le-value_pow : (k : ℕ) (ds : Bytes) (n : ℕ) → k ≤ length ds → n * 10 ^ k ≤ value n ds
le-value_pow zero ds n l = omega (arith, le-value ds n)
le-value_pow (suc k) [] n l = absurd (omega arith)
le-value_pow (suc k) (c ∷ cs) n l =
    rw (pow-suc 10 k) (omega (arith, le-value_pow k cs (n * 10 + (c - 48)) (omega arith)))

pub stop_lem : (v : ℕ) {rest : Bytes} → Ends rest → stop v rest ≡ done v rest
unfolding stop
stop_lem v e = rw e.no_exp_frac

-- At the twentieth digit, behind a number of nineteen digits.
last_block-digit :
    (v d : ℕ) {rest : Bytes}
    → v < 10 ^ 19
    → IsDigit d
    → Ends rest
    → last_block v (d ∷ rest)
      ≡ (if ltb (v * 10 + (d - 48)) (2 ^ 64) then done (v * 10 + (d - 48)) rest else null)
unfolding last_block after_last
last_block-digit v d h hd e = ground (arith, e.no_digit, e.no_exp_frac)

last_block-more :
    (v d b : ℕ) (rest : Bytes) → IsDigit d → IsDigit b → last_block v (d ∷ b ∷ rest) ≡ null
unfolding last_block after_last
last_block-more v d b rest hd hb = ground arith

-- `xs` up to an element at place `k`, that element, and what follows.
record Cut (k : ℕ) (xs : Bytes) : Type 0 where
  before : Bytes
  at : ℕ
  behind : Bytes
  splits : xs ≡ before ++ at ∷ behind
  place : length before ≡ k
  before_digits : All IsDigit before
  at_digit : IsDigit at
  behind_digits : All IsDigit behind

cut : (k : ℕ) (xs : Bytes) → All IsDigit xs → k < length xs → Cut k xs
cut k [] h l = absurd (omega arith)
cut zero (x ∷ xs) (hx, hs) l = record {
  before = [];
  at = x;
  behind = xs;
  splits = refl;
  place = refl;
  before_digits = tt;
  at_digit = hx;
  behind_digits = hs;
}
cut (suc k) (x ∷ xs) (hx, hs) l =
    let c = cut k xs hs (omega arith) in
    record {
      before = x ∷ c.before;
      at = c.at;
      behind = c.behind;
      splits = ap (λ t. x ∷ t) c.splits;
      place = ap suc c.place;
      before_digits = (hx, c.before_digits);
      at_digit = c.at_digit;
      behind_digits = c.behind_digits;
    }

-- The result that the number `v` asks for.
abbrev pub exact_or_null : ℕ → Bytes → ParseResult
exact_or_null v rest = if ltb v (2 ^ 64) then done v rest else null

blocks-long_exact :
    (before : Bytes) (v at : ℕ) (behind : Bytes) {rest : Bytes}
    → v < 100
    → 10 ≤ v
    → length before ≡ 17
    → All IsDigit before
    → IsDigit at
    → All IsDigit behind
    → Ends rest
    → blocks 17 v (before ++ (at ∷ (behind ++ rest)))
      ≡ exact_or_null (value (value v before * 10 + (at - 48)) behind) rest
blocks-long_exact before v at behind {rest} h l p hb ha hc e =
    blocks-full before 17 v (at ∷ (behind ++ rest)) hb p (omega (arith, small)) ∙ last behind hc
  where
    small : value v before < (v + 1) * 10 ^ 17
    small = value-lt 17 before v hb (omega arith)

    large : v * 10 ^ 17 ≤ value v before
    large = le-value_pow 17 before v (omega arith)

    last :
        (bs : Bytes)
        → All IsDigit bs
        → last_block (value v before) (at ∷ (bs ++ rest))
          ≡ exact_or_null (value (value v before * 10 + (at - 48)) bs) rest
    last [] _ = last_block-digit (value v before) at (omega (arith, small)) ha e
    last (b ∷ bs) (hb', _) =
        last_block-more (value v before) at b (bs ++ rest) ha hb'
        ∙ rw (
            le→ltb (value ((value v before * 10 + (at - 48)) * 10 + (b - 48)) bs) (2 ^ 64) (
              omega
                (arith, large, le-value bs ((value v before * 10 + (at - 48)) * 10 + (b - 48)))))

blocks_exact :
    (v : ℕ) (ds : Bytes) {rest : Bytes}
    → v < 100
    → 10 ≤ v
    → All IsDigit ds
    → Ends rest
    → blocks 17 v (ds ++ rest) ≡ exact_or_null (value v ds) rest
blocks_exact v ds {rest} h l hd e = elim (dec_lt 17 (length ds)) [
  | yes long ↦
      let c = cut 17 ds hd long in
      rw (c.splits, append_assoc, value-append)
        (blocks-long_exact c.before v c.at c.behind h l c.place c.before_digits c.at_digit
          c.behind_digits e)
  | no short ↦
      blocks-part ds 17 v rest hd (omega arith) (omega (arith, bound short)) e.no_digit
      ∙ stop_lem (value v ds) e
      ∙ rw (lt→ltb (value v ds) (2 ^ 64) (omega (arith, bound short)))
]
  where
    bound : ¬ (17 < length ds) → value v ds < (v + 1) * 10 ^ 17
    bound short = value-lt 17 ds v hd (omega arith)

parse_integer-short :
    (c : ℕ) (rest : Bytes)
    → IsDigit c
    → is_digit (peek rest) ≡ false
    → parse_integer (c ∷ rest) ≡ stop (c - 48) rest
unfolding parse_integer
parse_integer-short c rest hc e = rw (is_digit-IsDigit c hc, e)

parse_integer-long :
    (c d : ℕ) (rest : Bytes)
    → IsDigit c
    → IsDigit d
    → c ≢ 48
    → parse_integer (c ∷ d ∷ rest) ≡ blocks 17 (push_digit (c - 48) d) rest
unfolding parse_integer
parse_integer-long c d rest hc hd ne = ground arith

-- A whole number with no needless zero in front, and with no digit, no fraction and no exponent
-- behind it, is read exactly if it fits 64 bits, and refused if it does not.
pub parse_int-IsNumber :
    (ds rest : Bytes)
    → IsNumber ds
    → Ends rest
    → parse_int (ds ++ rest) ≡ (if ltb (value 0 ds) (2 ^ 64) then done (value 0 ds) rest else null)
unfolding parse_int
parse_int-IsNumber [] rest h e = elim h [ ]
parse_int-IsNumber (c ∷ []) rest h e =
    parse_integer-short c rest h e.no_digit ∙ stop_lem (c - 48) e ∙ ground arith
parse_int-IsNumber (c ∷ d ∷ ds) rest (hc, ne, (hd, hs)) e =
    parse_integer-long c d (ds ++ rest) hc hd ne
    ∙ ap (λ v. blocks 17 v (ds ++ rest)) first
    ∙ blocks_exact two ds (omega arith) (omega arith) hs e
    ∙ ap (λ v. exact_or_null (value v ds) rest) (omega arith)
  where
    two : ℕ
    two = (c - 48) * 10 + (d - 48)

    first : push_digit (c - 48) d ≡ two
    first = omega arith

-- A whole number of at most nineteen digits, with whatever stands behind it.
pub parse_int-stop :
    (ds rest : Bytes)
    → IsNumber ds
    → length ds ≤ 19
    → is_digit (peek rest) ≡ false
    → parse_int (ds ++ rest) ≡ stop (value 0 ds) rest
unfolding parse_int
parse_int-stop [] rest h l e = elim h [ ]
parse_int-stop (c ∷ []) rest h l e =
    parse_integer-short c rest h e ∙ ap (λ v. stop v rest) (omega arith)
parse_int-stop (c ∷ d ∷ ds) rest (hc, ne, (hd, hs)) l e =
    parse_integer-long c d (ds ++ rest) hc hd ne
    ∙ blocks-part ds 17 (push_digit (c - 48) d) rest hs (omega arith)
        (omega (arith, value-lt 17 ds (push_digit (c - 48) d) hs (omega arith))) e
    ∙ ap (λ v. stop (value v ds) rest) (omega arith)
