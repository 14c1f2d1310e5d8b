-- ===== src/ParseUint/Exponent.antt =====
-- `integer_parser<uint64_t>` of include/jsonifier-incl/utilities/str_to_i.hpp on a number with an
-- exponent, and on the text of the number writer.
use native.Mathlib.Nat.{pow-suc, one-le-pow, le-div_iff_mul-le}
use jsonifier.Prelude.{
  ℕ, zero, suc, ◌+◌, ◌-◌, ◌*◌, ◌/◌, ◌%◌, ◌^◌, ◌≤◌, ◌<◌, ◌≡◌, ◌≢◌, ◌⊎◌, inl, inr, refl, ap, ◌∙◌,
  Bool, true, false, ◌&&◌, [], ◌∷◌, ◌++◌, arith, Bytes, All, length, peek, ltb, leb, lt→ltb,
  if◌then◌else◌,
}
use jsonifier.Decimal.{digits_of, digits_of-All, value, value-digits_of, IsDigit, IsDecimal}
use jsonifier.ToChars.{to_chars}
use jsonifier.ToChars.Exact.{to_chars-IsDecimal}
use jsonifier.ParseUint.{
  is_digit, stop, parse_int, ParseResult, done, null, exp_table, finish_parse, parse_exponent,
  apply_exponent, scan_exponent, max_u64,
}
use jsonifier.ParseUint.Run.{is_digit-IsDigit, scan_exponent-value}
use jsonifier.ParseUint.Number.{IsNumber, Ends, parse_int-IsNumber, parse_int-stop}

-- The text of the number writer spells its number.
IsDecimal-value : {v : ℕ} {text : Bytes} → IsDecimal v text → value 0 text ≡ v
IsDecimal-value {v} d = rw d.digits (value-digits_of (suc d.k) v d.fits)

-- The most significant digit of a number of `k + 1` digits.
digits_of-head :
    (k v : ℕ)
    → 10 ^ k ≤ v
    → v < 10 ^ suc k
    → (c : ℕ) × (cs : Bytes) × (digits_of (suc k) v ≡ c ∷ cs) × (c ≢ 48)
unfolding digits_of
digits_of-head zero v l h = (48 + v % 10, [], refl, omega arith)
digits_of-head (suc k) v l h =
    let (c, cs, e, ne) =
      digits_of-head k (v / 10) (omega (arith, pow-suc 10 k, l))
        (omega (arith, pow-suc 10 (suc k), h)) in
    (c, cs ++ (48 + v % 10) ∷ [], ap (λ t. t ++ (48 + v % 10) ∷ []) e, ne)

IsNumber-cons : (c : ℕ) (cs : Bytes) → All IsDigit (c ∷ cs) → c ≢ 48 → IsNumber (c ∷ cs)
IsNumber-cons c [] (h, _) ne = h
IsNumber-cons c (d ∷ ds) (h, hs) ne = (h, ne, hs)

digits_of-IsNumber :
    (k v : ℕ) → v < 10 ^ suc k → (k ≡ 0) ⊎ (10 ^ k ≤ v) → IsNumber (digits_of (suc k) v)
digits_of-IsNumber zero v h _ = unfold digits_of in omega arith
digits_of-IsNumber (suc k) v h (inl e) = absurd (omega arith)
digits_of-IsNumber (suc k) v h (inr l) =
    let (c, cs, e, ne) = digits_of-head (suc k) v l h in
    rw e (IsNumber-cons c cs (rw e at (digits_of-All (suc (suc k)) v)) ne)

pub to_chars-IsNumber : (v : ℕ) → v < 2 ^ 64 → IsNumber (to_chars v)
to_chars-IsNumber v h =
    let d = to_chars-IsDecimal v h in rw d.digits (digits_of-IsNumber d.k v d.fits d.shortest)

pub value-to_chars : (v : ℕ) → v < 2 ^ 64 → value 0 (to_chars v) ≡ v
value-to_chars v h = IsDecimal-value (to_chars-IsDecimal v h)

-- The reader reads back what the writer writes, for every 64-bit number, where no digit, no fraction
-- and no exponent is behind it.
pub parse_int-to_chars :
    (v : ℕ) (rest : Bytes) → v < 2 ^ 64 → Ends rest → parse_int (to_chars v ++ rest) ≡ done v rest
parse_int-to_chars v rest h e =
    parse_int-IsNumber (to_chars v) rest (to_chars-IsNumber v h) e
    ∙ rw (value-to_chars v h, lt→ltb v (2 ^ 64) h)

-- How the sign of an exponent is written.
pub data Sign : Type 0 where
  unsigned plus minus : Sign

abbrev pub sign_text : Sign → Bytes
sign_text unsigned = []
sign_text plus = b'+' ∷ []
sign_text minus = b'-' ∷ []

abbrev is_minus : Sign → Bool
is_minus minus = true
is_minus _ = false

-- `v * 10 ^ e` where it fits, and `v / 10 ^ e` for a negative exponent; exponents end at 19.
abbrev pub scaled : Sign → ℕ → ℕ → Bytes → ParseResult
scaled minus v e rest = if leb e 19 then done (v / 10 ^ e) rest else null
scaled _ v e rest = if leb e 19 && ltb (v * 10 ^ e) (2 ^ 64) then done (v * 10 ^ e) rest else null

apply_exponent_grows :
    (v e : ℕ) (rest : Bytes)
    → apply_exponent v rest false e
      ≡ (if leb e 19 && ltb (v * 10 ^ e) (2 ^ 64) then done (v * 10 ^ e) rest else null)
unfolding apply_exponent
apply_exponent_grows v e rest =
    ground
      (arith, le-div_iff_mul-le {k = 10 ^ e} {x = v} {y = max_u64} (one-le-pow e 10 (omega arith)))

apply_exponent-scaled :
    (s : Sign) (v e : ℕ) (rest : Bytes) → apply_exponent v rest (is_minus s) e ≡ scaled s v e rest
apply_exponent-scaled minus v e rest = unfold apply_exponent in refl
apply_exponent-scaled unsigned v e rest = apply_exponent_grows v e rest
apply_exponent-scaled plus v e rest = apply_exponent_grows v e rest

parse_exponent-digits :
    (v c : ℕ) (cs rest : Bytes) (negative : Bool)
    → All IsDigit (c ∷ cs)
    → is_digit (peek rest) ≡ false
    → parse_exponent v (c ∷ (cs ++ rest)) negative
      ≡ apply_exponent v rest negative (value 0 (c ∷ cs) % 2 ^ 64)
unfolding parse_exponent
parse_exponent-digits v c cs rest negative (hc, hs) e =
    rw (is_digit-IsDigit c hc) (ap (λ t. apply_exponent v t.1 negative t.0) scanned)
  where
    scanned : scan_exponent (cs ++ rest) (c - 48) ≡ (value 0 (c ∷ cs) % 2 ^ 64, rest)
    scanned =
        ap (scan_exponent (cs ++ rest)) (omega arith)
        ∙ scan_exponent-value cs (0 * 10 + (c - 48)) rest hs e

finish_parse-exponent :
    (s : Sign) (v mark c : ℕ) (cs : Bytes)
    → exp_table mark ≡ true
    → IsDigit c
    → finish_parse v (mark ∷ (sign_text s ++ c ∷ cs)) ≡ parse_exponent v (c ∷ cs) (is_minus s)
unfolding finish_parse
finish_parse-exponent unsigned v mark c cs m h = ground arith
finish_parse-exponent plus v mark c cs m h = ground arith
finish_parse-exponent minus v mark c cs m h = ground arith

stop-exponent :
    (v mark : ℕ) (rest : Bytes)
    → exp_table mark ≡ true
    → stop v (mark ∷ rest) ≡ finish_parse v (mark ∷ rest)
unfolding stop
stop-exponent v mark rest m = ground arith

-- A number of at most nineteen digits, with no needless zero in front, and with an exponent that no
-- digit follows, is scaled by the power of ten that the exponent gives modulo 2 ^ 64: a power from 20 on
-- and a product that does not fit 64 bits are refused, and a negative power is a quotient.
pub parse_int-exponent :
    (ds : Bytes) (mark : ℕ) (s : Sign) (c : ℕ) (cs rest : Bytes)
    → IsNumber ds
    → length ds ≤ 19
    → exp_table mark ≡ true
    → All IsDigit (c ∷ cs)
    → is_digit (peek rest) ≡ false
    → parse_int (ds ++ mark ∷ (sign_text s ++ c ∷ (cs ++ rest)))
      ≡ scaled s (value 0 ds) (value 0 (c ∷ cs) % 2 ^ 64) rest
parse_int-exponent ds mark s c cs rest h l m (hc, hs) e =
    parse_int-stop ds (mark ∷ (sign_text s ++ c ∷ (cs ++ rest))) h l (ground arith)
    ∙ stop-exponent (value 0 ds) mark (sign_text s ++ c ∷ (cs ++ rest)) m
    ∙ finish_parse-exponent s (value 0 ds) mark c (cs ++ rest) m hc
    ∙ parse_exponent-digits (value 0 ds) c cs rest (is_minus s) (hc, hs) e
    ∙ apply_exponent-scaled s (value 0 ds) (value 0 (c ∷ cs) % 2 ^ 64) rest
