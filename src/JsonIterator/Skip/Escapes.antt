-- ===== src/JsonIterator/Skip/Escapes.antt =====
-- include/jsonifier-incl/utilities/string_utils.hpp: the bytes that `handleUnicodeCodePoint` takes, as
-- `skipStringImpl` reads over them.
use Prim.Native.Nat.{bit_or}
use jsonifier.Prelude.{
  ◌+◌, ◌-◌, ◌*◌, ◌/◌, ◌%◌, ◌^◌, ◌≢◌, if_both, leb, ℕ, ◌≤◌, ◌≡◌, ◌⊎◌, inl, inr, refl, ap, sym, ◌∙◌,
  false, ◌&&◌, [], ◌∷◌, ◌==◌, if◌then◌else◌, ltb, Bytes, peek, next, drop, length, Option, none,
  some, arith, Bool-cases, ==→≡,
}
use jsonifier.CodePoint.{
  hex_value, hex_to_u32, UnicodeResult, wrote, refused, undefined, code_point_to_utf8,
  store_code_point, low_surrogate, handle_unicode_code_point,
}
use jsonifier.CodePoint.Hex.{no_digit, IsHexless, hex_to_u32_none}
use jsonifier.JsonIterator.Skip.Strings.{closing_quote}
use jsonifier.JsonIterator.Skip.Items.{closing_quote-plain, closing_quote-escaped}

-- A quote or a backslash.
abbrev pub IsSpecial : ℕ → Type 0
IsSpecial c = (c ≡ b'"') ⊎ (c ≡ b'\\')

IsSpecial-IsHexless : (c : ℕ) → IsSpecial c → IsHexless c
unfolding hex_value
IsSpecial-IsHexless c (inl e) = rw e (omega arith, refl)
IsSpecial-IsHexless c (inr e) = rw e (omega arith, refl)

IsSpecial-cases : (c : ℕ) → IsSpecial c ⊎ (((c == b'"') ≡ false) × ((c == b'\\') ≡ false))
IsSpecial-cases c = elim (Bool-cases (c == b'"')) [
  | inl q ↦ inl (inl (==→≡ c b'"' q))
  | inr q ↦ elim (Bool-cases (c == b'\\')) [
    | inl b ↦ inl (inr (==→≡ c b'\\' b))
    | inr b ↦ inr (q, b)
  ]
]

-- Four bytes that give any number but the entry of a byte that is no digit.
closing_quote-four :
    (a b c d v : ℕ) (rest : Bytes)
    → hex_to_u32 (a ∷ b ∷ c ∷ d ∷ rest) ≡ some v
    → v ≢ no_digit
    → closing_quote false (a ∷ b ∷ c ∷ d ∷ rest) ≡ closing_quote false rest
closing_quote-four a b c d v rest h n = elim (IsSpecial-cases a) [
  | inl e ↦ absurd (n (hex_to_u32_none a b c d v rest (inl (IsSpecial-IsHexless a e)) h))
  | inr (qa, ba) ↦ elim (IsSpecial-cases b) [
    | inl e ↦ absurd (n (hex_to_u32_none a b c d v rest (inr (inl (IsSpecial-IsHexless b e))) h))
    | inr (qb, bb) ↦ elim (IsSpecial-cases c) [
      | inl e ↦
          absurd (n (hex_to_u32_none a b c d v rest (inr (inr (inl (IsSpecial-IsHexless c e)))) h))
      | inr (qc, bc) ↦ elim (IsSpecial-cases d) [
        | inl e ↦
            absurd
              (n (hex_to_u32_none a b c d v rest (inr (inr (inr (IsSpecial-IsHexless d e)))) h))
        | inr (qd, bd) ↦
            closing_quote-plain a (b ∷ c ∷ d ∷ rest) qa ba
            ∙ closing_quote-plain b (c ∷ d ∷ rest) qb bb
            ∙ closing_quote-plain c (d ∷ rest) qc bc
            ∙ closing_quote-plain d rest qd bd
      ]
    ]
  ]
]

closing_quote-six :
    (s : Bytes) (v : ℕ)
    → 6 ≤ length s
    → peek s ≡ b'\\'
    → hex_to_u32 (drop 2 s) ≡ some v
    → v ≢ no_digit
    → closing_quote false s ≡ closing_quote false (drop 6 s)
closing_quote-six (x ∷ u ∷ a ∷ b ∷ c ∷ d ∷ rest) v l e h n =
    ap (λ t. closing_quote false (t ∷ u ∷ a ∷ b ∷ c ∷ d ∷ rest)) e
    ∙ closing_quote-escaped u (a ∷ b ∷ c ∷ d ∷ rest)
    ∙ closing_quote-four a b c d v rest h n
closing_quote-six [] v l e h n = absurd (omega arith)
closing_quote-six (x ∷ []) v l e h n = absurd (omega arith)
closing_quote-six (x ∷ u ∷ []) v l e h n = absurd (omega arith)
closing_quote-six (x ∷ u ∷ a ∷ []) v l e h n = absurd (omega arith)
closing_quote-six (x ∷ u ∷ a ∷ b ∷ []) v l e h n = absurd (omega arith)
closing_quote-six (x ∷ u ∷ a ∷ b ∷ c ∷ []) v l e h n = absurd (omega arith)

-- What an escape leaves of the string is behind it.
abbrev pub Leaves : Bytes → UnicodeResult → Type 0
Leaves s (wrote bytes rest) = closing_quote false s ≡ closing_quote false rest
Leaves s refused = Unit
Leaves s undefined = Unit

utf8_no_digit : code_point_to_utf8 no_digit ≡ []
unfolding code_point_to_utf8
utf8_no_digit = refl

bytes_stored : (cp c : ℕ) (cs : Bytes) → code_point_to_utf8 cp ≡ c ∷ cs → cp ≢ no_digit
bytes_stored cp c cs e k =
    let z = sym (utf8_no_digit) ∙ ap code_point_to_utf8 (sym k) ∙ e in absurd (ground arith)

store_code_point-Leaves :
    (cp : ℕ) (s t : Bytes)
    → (cp ≢ no_digit → closing_quote false s ≡ closing_quote false t)
    → Leaves s (store_code_point cp t)
unfolding store_code_point
store_code_point-Leaves cp s t h = go (code_point_to_utf8 cp) refl
  where
    go :
        (x : Bytes)
        → code_point_to_utf8 cp ≡ x
        → Leaves s (elim x [ [] ↦ refused | c ∷ cs ↦ wrote (c ∷ cs) t ])
    go [] e = tt
    go (c ∷ cs) e = h (bytes_stored cp c cs e)

-- The second escape of a pair, where its number is known.
low_number-Leaves :
    (cp low : ℕ) (s t : Bytes)
    → (low ≢ no_digit → closing_quote false s ≡ closing_quote false t)
    → Leaves s (
        let low_bit = (low + 2 ^ 32 - 0xDC00) % 2 ^ 32 in
        if low_bit / 2 ^ 10 == 0
        then store_code_point (bit_or ((cp - 0xD800) * 2 ^ 10) low_bit + 0x10000) t
        else refused)
low_number-Leaves cp low s t h =
    elim (Bool-cases ((low + 2 ^ 32 - 0xDC00) % 2 ^ 32 / 2 ^ 10 == 0)) [
      | inl e ↦ rw e (store_code_point-Leaves _ s t (λ k. h (λ z. ground arith)))
      | inr e ↦ rw e tt
    ]

low_surrogate-Leaves :
    (cp : ℕ) (s t : Bytes)
    → closing_quote false s ≡ closing_quote false t
    → Leaves s (low_surrogate cp t)
unfolding low_surrogate
low_surrogate-Leaves cp s t h = elim (Bool-cases (ltb (length t) 6)) [
  | inl l ↦ rw l tt
  | inr l ↦ rw l (elim (Bool-cases (peek t == b'\\' && peek (next t) == b'u')) [
    | inl e ↦ rw e (go (ground arith) (ground arith) (hex_to_u32 (drop 2 t)) refl)
    | inr e ↦ rw e tt
  ])
]
  where
    go :
        6 ≤ length t
        → peek t ≡ b'\\'
        → (x : Option ℕ) → hex_to_u32 (drop 2 t) ≡ x
        → Leaves s (elim x [
          | none ↦ undefined
          | some low ↦
              let low_bit = (low + 2 ^ 32 - 0xDC00) % 2 ^ 32 in
              if low_bit / 2 ^ 10 == 0
              then store_code_point (bit_or ((cp - 0xD800) * 2 ^ 10) low_bit + 0x10000) (drop 6 t)
              else refused
        ])
    go l b none e = tt
    go l b (some low) e =
        low_number-Leaves cp low s (drop 6 t) (λ n. h ∙ closing_quote-six t low l b e n)

-- The first escape, where its number is known.
number-Leaves :
    (cp : ℕ) (s t : Bytes)
    → (cp ≢ no_digit → closing_quote false s ≡ closing_quote false t)
    → Leaves s (
        if leb 0xD800 cp && leb cp 0xDFFF
        then (if leb 0xDC00 cp then refused else low_surrogate cp t)
        else store_code_point cp t)
number-Leaves cp s t h = elim (Bool-cases (leb 0xD800 cp && leb cp 0xDFFF)) [
  | inl e ↦
      rw e (
        if_both (Leaves s) (leb 0xDC00 cp) tt (low_surrogate-Leaves cp s t (h (λ z. ground arith))))
  | inr e ↦ rw e (store_code_point-Leaves cp s t h)
]

-- `handleUnicodeCodePoint` takes neither a quote nor a backslash but those of the escapes.
pub handle-Leaves : (s : Bytes) → peek s ≡ b'\\' → Leaves s (handle_unicode_code_point s)
unfolding handle_unicode_code_point
handle-Leaves s b = elim (Bool-cases (ltb (length s) 6)) [
  | inl l ↦ rw l tt
  | inr l ↦ rw l (go (ground arith) (hex_to_u32 (drop 2 s)) refl)
]
  where
    go :
        6 ≤ length s
        → (x : Option ℕ) → hex_to_u32 (drop 2 s) ≡ x
        → Leaves s (elim x [
          | none ↦ undefined
          | some cp ↦
              if leb 0xD800 cp && leb cp 0xDFFF
              then (if leb 0xDC00 cp then refused else low_surrogate cp (drop 6 s))
              else store_code_point cp (drop 6 s)
        ])
    go l none e = tt
    go l (some cp) e = number-Leaves cp s (drop 6 s) (closing_quote-six s cp l b e)
