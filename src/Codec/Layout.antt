-- ===== src/Codec/Layout.antt =====
-- include/jsonifier-incl/serializing/serialize_impl.hpp: `blitWithOverflow`, and the bytes between the
-- elements of a vector.
use jsonifier.Prelude.{
  ℕ, zero, suc, ◌+◌, ◌-◌, ◌*◌, ◌≤◌, ◌≡◌, refl, ap, ◌∙◌, true, false, [], ◌∷◌, ◌++◌, if◌then◌else◌,
  Bytes, codes, take, replicate, length, append_assoc, arith, inl, inr, if_ltb, if_both,
}
use jsonifier.Minifier.{whitespace_table}
use jsonifier.Minifier.Compact.{IsWhite}
use jsonifier.Serializer.{
  SerializeOptions, blit_with_overflow, open_array, comma, close_array, open_object, close_object,
  colon,
}
use jsonifier.JsonIterator.{ParseOptions}
use jsonifier.JsonIterator.White.{IsBlank}
use jsonifier.Codec.{Fits}

take-replicate : (n m c : ℕ) → n ≤ m → take n (replicate m c) ≡ replicate n c
take-replicate zero m c h = refl
take-replicate (suc n) zero c h = absurd (omega arith)
take-replicate (suc n) (suc m) c h = ap (λ t. c ∷ t) (take-replicate n m c (omega arith))

take_start : (s t : Bytes) (n : ℕ) → take (length s + n) (s ++ t) ≡ s ++ take n t
take_start [] t n = ap (λ k. take k t) (omega arith)
take_start (c ∷ s) t n =
    ap (λ k. take k (c ∷ (s ++ t))) {x = suc (length s) + n} {y = suc (length s + n)} (omega arith)
    ∙ ap (λ u. c ∷ u) (take_start s t n)

replicate-append : (n m c : ℕ) → replicate n c ++ replicate m c ≡ replicate (n + m) c
replicate-append zero m c = ap (λ k. replicate k c) (omega arith)
replicate-append (suc n) m c =
    ap (λ t. c ∷ t) (replicate-append n m c)
    ∙ ap (λ k. replicate k c) {x = suc (n + m)} {y = suc n + m} (omega arith)

-- `blitWithOverflow`, with its table of eight levels and the fill behind it, moves over the start and one
-- `indentChar` for each byte of the indentation, however deep.
pub blit_with_overflow_lem :
    (p : SerializeOptions) (start : Bytes) (total : ℕ)
    → blit_with_overflow p start total ≡ start ++ replicate total p.indent_char
unfolding blit_with_overflow
blit_with_overflow_lem p start total =
    if_ltb
      (λ capped.
        take (length start + capped) (start ++ replicate (8 * p.indent_size) p.indent_char)
          ++ replicate (total - capped) p.indent_char
        ≡ start ++ replicate total p.indent_char)
      total (8 * p.indent_size) (λ l. filled total (omega arith) (omega arith))
      (λ l. filled (8 * p.indent_size) (omega arith) l)
  where
    filled :
        (capped : ℕ)
        → capped ≤ 8 * p.indent_size
        → capped ≤ total
        → take (length start + capped) (start ++ replicate (8 * p.indent_size) p.indent_char)
            ++ replicate (total - capped) p.indent_char
          ≡ start ++ replicate total p.indent_char
    filled capped h k =
        ap (λ t. t ++ replicate (total - capped) p.indent_char)
          (take_start start _ capped
            ∙ ap (λ t. start ++ t) (take-replicate capped _ p.indent_char h))
        ∙ append_assoc start (replicate capped p.indent_char)
            (replicate (total - capped) p.indent_char)
        ∙ ap (λ t. start ++ t)
            (replicate-append capped (total - capped) p.indent_char
              ∙ ap (λ k. replicate k p.indent_char) (omega arith))

-- The line break and indentation before an element, or nothing.
abbrev pub gap : SerializeOptions → ℕ → Bytes
gap p n = if p.prettify then b'\n' ∷ replicate n p.indent_char else []

module _ (p : SerializeOptions) (n : ℕ) where
  pub open_array-gap : open_array p n ≡ b'[' ∷ gap p n
  unfolding open_array
  open_array-gap =
      elim p.prettify
        as (λ b.
          (if b then blit_with_overflow p (codes "[" ++ b'\n' ∷ []) n else codes "[")
          ≡ b'[' ∷ (if b then b'\n' ∷ replicate n p.indent_char else [])) [
            | true ↦ blit_with_overflow_lem p (codes "[" ++ b'\n' ∷ []) n
            | false ↦ refl
          ]

  pub comma-gap : comma p n ≡ b',' ∷ gap p n
  unfolding comma
  comma-gap =
      elim p.prettify
        as (λ b.
          (if b then blit_with_overflow p (codes "," ++ b'\n' ∷ []) n else codes ",")
          ≡ b',' ∷ (if b then b'\n' ∷ replicate n p.indent_char else [])) [
            | true ↦ blit_with_overflow_lem p (codes "," ++ b'\n' ∷ []) n
            | false ↦ refl
          ]

  pub close_array-gap : close_array p n ≡ gap p n ++ codes "]"
  unfolding close_array
  close_array-gap =
      elim p.prettify
        as (λ b.
          ((if b then blit_with_overflow p (b'\n' ∷ []) n else []) ++ codes "]")
          ≡ (if b then b'\n' ∷ replicate n p.indent_char else []) ++ codes "]") [
            | true ↦ ap (λ t. t ++ codes "]") (blit_with_overflow_lem p (b'\n' ∷ []) n)
            | false ↦ refl
          ]

  pub open_object-gap : open_object p n ≡ b'{' ∷ gap p n
  unfolding open_object
  open_object-gap =
      elim p.prettify
        as (λ b.
          (if b then blit_with_overflow p (codes "{" ++ b'\n' ∷ []) n else codes "{")
          ≡ b'{' ∷ (if b then b'\n' ∷ replicate n p.indent_char else [])) [
            | true ↦ blit_with_overflow_lem p (codes "{" ++ b'\n' ∷ []) n
            | false ↦ refl
          ]

  pub close_object-gap : close_object p n ≡ gap p n ++ codes "}"
  unfolding close_object
  close_object-gap =
      elim p.prettify
        as (λ b.
          ((if b then blit_with_overflow p (b'\n' ∷ []) n else []) ++ codes "}")
          ≡ (if b then b'\n' ∷ replicate n p.indent_char else []) ++ codes "}") [
            | true ↦ ap (λ t. t ++ codes "}") (blit_with_overflow_lem p (b'\n' ∷ []) n)
            | false ↦ refl
          ]

-- The space behind a colon, or nothing.
abbrev pub space : SerializeOptions → Bytes
space p = if p.prettify then codes " " else []

pub colon-space : (p : SerializeOptions) → colon p ≡ b':' ∷ space p
unfolding colon
colon-space p =
    elim p.prettify
      as (λ b. (if b then codes ": " else codes ":") ≡ b':' ∷ (if b then codes " " else [])) [
        | true ↦ refl
        | false ↦ refl
      ]

replicate-IsWhite : (n c : ℕ) → whitespace_table c ≡ true → IsWhite (replicate n c)
replicate-IsWhite zero c h = tt
replicate-IsWhite (suc n) c h = (h, replicate-IsWhite n c h)

break_white : whitespace_table b'\n' ≡ true
unfolding whitespace_table
break_white = refl

pub gap-IsBlank : (o : ParseOptions) (p : SerializeOptions) (n : ℕ) → Fits o p → IsBlank o (gap p n)
gap-IsBlank o p n (inl e) = rw e (tt, inr refl)
gap-IsBlank o p n (inr (m, h)) =
    if_both (IsBlank o) p.prettify ((break_white, replicate-IsWhite n p.indent_char h), inl m)
      (tt, inr refl)

space_white : whitespace_table b' ' ≡ true
unfolding whitespace_table
space_white = refl

pub space-IsBlank : (o : ParseOptions) (p : SerializeOptions) → Fits o p → IsBlank o (space p)
space-IsBlank o p (inl e) = rw e (tt, inr refl)
space-IsBlank o p (inr (m, h)) =
    if_both (IsBlank o) p.prettify ((space_white, tt), inl m) (tt, inr refl)
