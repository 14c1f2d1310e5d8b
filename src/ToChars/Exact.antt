-- ===== src/ToChars/Exact.antt =====
-- What include/jsonifier-incl/utilities/i_to_str.hpp writes for each length is that many digits of
-- the number, and the ladder of `to_chars<uint64_t>::impl` picks the length of the number.
use jsonifier.Prelude.{
  ℕ, suc, ◌/◌, ◌<◌, ◌≤◌, ◌^◌, ◌≡◌, inl, inr, refl, sym, ap, ◌∙◌, [], ◌∷◌, ◌++◌, append_assoc, arith,
  Bytes, if_ltb,
}
use jsonifier.Decimal.{digits_of, IsDecimal}
use jsonifier.ToChars.{
  gen_4, shift_45, multiply_and_shift, less_10000, less_100000000, digit_char, to_chars_5,
  to_chars_6, to_chars_7, to_chars_8, to_chars_9, to_chars_10, to_chars_11, to_chars_12,
  to_chars_13, to_chars_14, to_chars_15, to_chars_16, to_chars_17, to_chars_18, to_chars_19,
  to_chars_20, to_chars_short, to_chars_middle, to_chars,
}
use jsonifier.ToChars.Chunks.{
  shift_45_lem, multiply_and_shift_lem, digit_char-digits_of, gen_2-digits_of, gen_3-digits_of,
  gen_4-digits_of, low_four, low_eight,
}

-- Twelve digits behind the text of `v / 1000000000000`.
low_twelve :
    (k v : ℕ) {lead : Bytes}
    → v < 10000000000000000
    → lead ≡ digits_of k (multiply_and_shift v / 10000)
    → let m = multiply_and_shift v in
      let r = less_100000000 v m in
      lead
        ++ (gen_4 (less_10000 m (shift_45 m))
            ++ (gen_4 (shift_45 r) ++ gen_4 (less_10000 r (shift_45 r))))
      ≡ digits_of (suc (suc (suc (suc (suc (suc (suc (suc (suc (suc (suc (suc k)))))))))))) v
low_twelve k v {lead} h e =
    sym (append_assoc lead _ _)
    ∙ low_eight (suc (suc (suc (suc k)))) v (omega arith) (
        low_four k (multiply_and_shift v) (omega (arith, multiply_and_shift_lem v)) e
        ∙ ap (digits_of (suc (suc (suc (suc k))))) (multiply_and_shift_lem v (omega arith)))

-- Sixteen digits behind the text of `v / 10000000000000000`.
low_sixteen :
    (k v : ℕ) {lead : Bytes}
    → v < 2 ^ 64
    → lead ≡ digits_of k (multiply_and_shift v / 100000000)
    → let m = multiply_and_shift v in
      let s = less_100000000 m (multiply_and_shift m) in
      let r = less_100000000 v m in
      lead
        ++ (gen_4 (shift_45 s)
            ++ (gen_4 (less_10000 s (shift_45 s))
                ++ (gen_4 (shift_45 r) ++ gen_4 (less_10000 r (shift_45 r)))))
      ≡ digits_of
          (suc (
            suc (
              suc (suc (suc (suc (suc (suc (suc (suc (suc (suc (suc (suc (suc (suc k))))))))))))))))
          v
low_sixteen k v {lead} h e =
    ap (λ t. lead ++ t) (sym (append_assoc (gen_4 _) _ _))
    ∙ sym (append_assoc lead _ _)
    ∙ low_eight (suc (suc (suc (suc (suc (suc (suc (suc k)))))))) v h (
        low_eight k (multiply_and_shift v) (omega (arith, multiply_and_shift_lem v)) e
        ∙ ap (digits_of (suc (suc (suc (suc (suc (suc (suc (suc k)))))))))
            (multiply_and_shift_lem v h))

to_chars_5-digits_of : (v : ℕ) → v < 100000 → to_chars_5 v ≡ digits_of 5 v
unfolding to_chars_5
to_chars_5-digits_of v h =
    low_four 1 v (omega arith) (digit_char-digits_of (shift_45_lem v (omega arith)) (omega arith))

to_chars_6-digits_of : (v : ℕ) → v < 1000000 → to_chars_6 v ≡ digits_of 6 v
unfolding to_chars_6
to_chars_6-digits_of v h =
    low_four 2 v (omega arith) (gen_2-digits_of (shift_45_lem v (omega arith)) (omega arith))

to_chars_7-digits_of : (v : ℕ) → v < 10000000 → to_chars_7 v ≡ digits_of 7 v
unfolding to_chars_7
to_chars_7-digits_of v h =
    low_four 3 v (omega arith) (gen_3-digits_of (shift_45_lem v (omega arith)) (omega arith))

to_chars_8-digits_of : (v : ℕ) → v < 100000000 → to_chars_8 v ≡ digits_of 8 v
unfolding to_chars_8
to_chars_8-digits_of v h =
    low_four 4 v (omega arith) (gen_4-digits_of (shift_45_lem v (omega arith)) (omega arith))

to_chars_9-digits_of : (v : ℕ) → v < 1000000000 → to_chars_9 v ≡ digits_of 9 v
unfolding to_chars_9
to_chars_9-digits_of v h =
    low_eight 1 v (omega arith)
      (digit_char-digits_of (multiply_and_shift_lem v (omega arith)) (omega arith))

to_chars_10-digits_of : (v : ℕ) → v < 10000000000 → to_chars_10 v ≡ digits_of 10 v
unfolding to_chars_10
to_chars_10-digits_of v h =
    low_eight 2 v (omega arith)
      (gen_2-digits_of (multiply_and_shift_lem v (omega arith)) (omega arith))

to_chars_11-digits_of : (v : ℕ) → v < 100000000000 → to_chars_11 v ≡ digits_of 11 v
unfolding to_chars_11
to_chars_11-digits_of v h =
    low_eight 3 v (omega arith)
      (gen_3-digits_of (multiply_and_shift_lem v (omega arith)) (omega arith))

to_chars_12-digits_of : (v : ℕ) → v < 1000000000000 → to_chars_12 v ≡ digits_of 12 v
unfolding to_chars_12
to_chars_12-digits_of v h =
    low_eight 4 v (omega arith)
      (gen_4-digits_of (multiply_and_shift_lem v (omega arith)) (omega arith))

to_chars_13-digits_of : (v : ℕ) → v < 10000000000000 → to_chars_13 v ≡ digits_of 13 v
unfolding to_chars_13
to_chars_13-digits_of v h = low_twelve 1 v (omega arith) (
    digit_char-digits_of (shift_45_lem _ (omega (arith, multiply_and_shift_lem v)))
      (omega (arith, multiply_and_shift_lem v)))

to_chars_14-digits_of : (v : ℕ) → v < 100000000000000 → to_chars_14 v ≡ digits_of 14 v
unfolding to_chars_14
to_chars_14-digits_of v h = low_twelve 2 v (omega arith) (
    gen_2-digits_of (shift_45_lem _ (omega (arith, multiply_and_shift_lem v)))
      (omega (arith, multiply_and_shift_lem v)))

to_chars_15-digits_of : (v : ℕ) → v < 1000000000000000 → to_chars_15 v ≡ digits_of 15 v
unfolding to_chars_15
to_chars_15-digits_of v h = low_twelve 3 v (omega arith) (
    gen_3-digits_of (shift_45_lem _ (omega (arith, multiply_and_shift_lem v)))
      (omega (arith, multiply_and_shift_lem v)))

to_chars_16-digits_of : (v : ℕ) → v < 10000000000000000 → to_chars_16 v ≡ digits_of 16 v
unfolding to_chars_16
to_chars_16-digits_of v h = low_twelve 4 v (omega arith) (
    gen_4-digits_of (shift_45_lem _ (omega (arith, multiply_and_shift_lem v)))
      (omega (arith, multiply_and_shift_lem v)))

to_chars_17-digits_of : (v : ℕ) → v < 100000000000000000 → to_chars_17 v ≡ digits_of 17 v
unfolding to_chars_17
to_chars_17-digits_of v h = low_sixteen 1 v (omega arith) (
    digit_char-digits_of (multiply_and_shift_lem _ (omega (arith, multiply_and_shift_lem v)))
      (omega (arith, multiply_and_shift_lem v)))

to_chars_18-digits_of : (v : ℕ) → v < 1000000000000000000 → to_chars_18 v ≡ digits_of 18 v
unfolding to_chars_18
to_chars_18-digits_of v h = low_sixteen 2 v (omega arith) (
    gen_2-digits_of (multiply_and_shift_lem _ (omega (arith, multiply_and_shift_lem v)))
      (omega (arith, multiply_and_shift_lem v)))

to_chars_19-digits_of : (v : ℕ) → v < 10000000000000000000 → to_chars_19 v ≡ digits_of 19 v
unfolding to_chars_19
to_chars_19-digits_of v h = low_sixteen 3 v (omega arith) (
    gen_3-digits_of (multiply_and_shift_lem _ (omega (arith, multiply_and_shift_lem v)))
      (omega (arith, multiply_and_shift_lem v)))

to_chars_20-digits_of : (v : ℕ) → v < 2 ^ 64 → to_chars_20 v ≡ digits_of 20 v
unfolding to_chars_20
to_chars_20-digits_of v h = low_sixteen 4 v (omega arith) (
    gen_4-digits_of (multiply_and_shift_lem _ (omega (arith, multiply_and_shift_lem v)))
      (omega (arith, multiply_and_shift_lem v)))

long :
    (k v : ℕ) {text : Bytes}
    → text ≡ digits_of (suc k) v
    → v < 10 ^ suc k
    → 10 ^ k ≤ v
    → IsDecimal v text
long k v e h l = record { k = k; digits = e; fits = h; shortest = inr l }

to_chars_short-IsDecimal : (v : ℕ) → v < 100000000 → IsDecimal v (to_chars_short v)
unfolding to_chars_short
to_chars_short-IsDecimal v h =
    if_ltb P v 10000
      (λ u.
        if_ltb P v 100
          (λ u.
            if_ltb P v 10 one (λ l. long 1 v (gen_2-digits_of refl (omega arith)) (omega arith) l))
          (λ l.
            if_ltb P v 1000 (λ b. long 2 v (gen_3-digits_of refl b) b l)
              (λ l. long 3 v (gen_4-digits_of refl (omega arith)) (omega arith) l)))
      (λ l.
        if_ltb P v 1000000
          (λ u.
            if_ltb P v 100000 (λ b. long 4 v (to_chars_5-digits_of v b) b l)
              (λ l. long 5 v (to_chars_6-digits_of v (omega arith)) (omega arith) l))
          (λ l.
            if_ltb P v 10000000 (λ b. long 6 v (to_chars_7-digits_of v b) b l)
              (λ l. long 7 v (to_chars_8-digits_of v h) h l)))
  where
    P : Bytes → Type 0
    P = IsDecimal v

    one : v < 10 → IsDecimal v (digit_char v ∷ [])
    one b = record { k = 0; digits = digit_char-digits_of refl b; fits = b; shortest = inl refl }

to_chars_middle-IsDecimal :
    (v : ℕ) → 100000000 ≤ v → v < 10000000000000000 → IsDecimal v (to_chars_middle v)
unfolding to_chars_middle
to_chars_middle-IsDecimal v l h =
    if_ltb P v 1000000000000
      (λ u.
        if_ltb P v 10000000000
          (λ u.
            if_ltb P v 1000000000 (λ b. long 8 v (to_chars_9-digits_of v b) b l)
              (λ l. long 9 v (to_chars_10-digits_of v (omega arith)) (omega arith) l))
          (λ l.
            if_ltb P v 100000000000 (λ b. long 10 v (to_chars_11-digits_of v b) b l)
              (λ l. long 11 v (to_chars_12-digits_of v (omega arith)) (omega arith) l)))
      (λ l.
        if_ltb P v 100000000000000
          (λ u.
            if_ltb P v 10000000000000 (λ b. long 12 v (to_chars_13-digits_of v b) b l)
              (λ l. long 13 v (to_chars_14-digits_of v (omega arith)) (omega arith) l))
          (λ l.
            if_ltb P v 1000000000000000 (λ b. long 14 v (to_chars_15-digits_of v b) b l)
              (λ l. long 15 v (to_chars_16-digits_of v h) h l)))
  where
    P : Bytes → Type 0
    P = IsDecimal v

-- For every 64-bit number the writer gives its digits, as many as the number has.
pub to_chars-IsDecimal : (v : ℕ) → v < 2 ^ 64 → IsDecimal v (to_chars v)
unfolding to_chars
to_chars-IsDecimal v h = if_ltb P v 100000000 (to_chars_short-IsDecimal v) (λ l.
    if_ltb P v 10000000000000000 (to_chars_middle-IsDecimal v l) (λ l.
      if_ltb P v 1000000000000000000
        (λ u.
          if_ltb P v 100000000000000000 (λ b. long 16 v (to_chars_17-digits_of v b) b l)
            (λ l. long 17 v (to_chars_18-digits_of v (omega arith)) (omega arith) l))
        (λ l.
          if_ltb P v 10000000000000000000 (λ b. long 18 v (to_chars_19-digits_of v b) b l)
            (λ l. long 19 v (to_chars_20-digits_of v h) (omega arith) l))))
  where
    P : Bytes → Type 0
    P = IsDecimal v
