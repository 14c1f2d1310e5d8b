-- ===== src/JsonTypes/Tape.antt =====
-- A text cut into pieces, and the tape that has the start of each, as the clients of
-- include/jsonifier-incl/utilities/simd.hpp read them.
use mathlib.Core.Path.{ap₂}
use jsonifier.Prelude.{
  ℕ, ◌+◌, ◌≡◌, ◌∙◌, refl, sym, ap, List, [], ◌∷◌, ◌++◌, append_assoc, arith, Bytes, peek, take,
  drop, length, length-append, ◌≤◌, some, le→leb,
}
use jsonifier.JsonTypes.{tape_at, byte_in, slice, slice_in}

-- The text of the tokens, and where each starts.
abbrev pub join : List Bytes → Bytes
join [] = []
join (t ∷ ts) = t ++ join ts

abbrev pub positions : ℕ → List Bytes → List ℕ
positions p [] = []
positions p (t ∷ ts) = p ∷ positions (p + length t) ts

pub drop-length : (a b : Bytes) → drop (length a) (a ++ b) ≡ b
drop-length [] b = refl
drop-length (c ∷ cs) b = drop-length cs b

pub take-length : (a b : Bytes) → take (length a) (a ++ b) ≡ a
take-length [] b = refl
take-length (c ∷ cs) b = ap (λ t. c ∷ t) (take-length cs b)

tape_at-positions :
    (pre : Bytes) (ts : List Bytes)
    → tape_at (pre ++ join ts) (positions (length pre) ts) ≡ length pre
tape_at-positions pre [] = length-append pre [] ∙ omega arith
tape_at-positions pre (t ∷ ts) = refl

pub byte_in-positions :
    (pre : Bytes) (ts : List Bytes)
    → byte_in (pre ++ join ts) (positions (length pre) ts) ≡ some (peek (join ts))
unfolding byte_in
byte_in-positions pre ts =
    rw
      (
        tape_at-positions pre ts,
        le→leb (length pre) (length (pre ++ join ts)) (omega (arith, length-append pre (join ts))),
      )
      (ap (λ s. some (peek s)) (drop-length pre (join ts)))

pub slice_in_lem :
    (pre t : Bytes) (ts : List Bytes)
    → slice_in
        (pre ++ (t ++ join ts))
        (length pre)
        (tape_at (pre ++ (t ++ join ts)) (positions (length pre + length t) ts))
      ≡ some t
unfolding slice_in slice
slice_in_lem pre t ts =
    rw
      (
        next,
        le→leb (length pre + length t) (length (pre ++ (t ++ join ts))) inside,
        le→leb (length pre) (length pre + length t) (omega arith),
      )
      (ap some (
        ap₂ (λ k s. take k s) (omega arith) (drop-length pre (t ++ join ts))
        ∙ take-length t (join ts)))
  where
    next :
        tape_at (pre ++ (t ++ join ts)) (positions (length pre + length t) ts)
        ≡ length pre + length t
    next =
        ap₂ (λ s p. tape_at s (positions p ts)) (sym (append_assoc pre t (join ts)))
          (sym (length-append pre t))
        ∙ tape_at-positions (pre ++ t) ts
        ∙ length-append pre t

    inside : length pre + length t ≤ length (pre ++ (t ++ join ts))
    inside = omega (arith, length-append pre (t ++ join ts), length-append t (join ts))

pub next_byte :
    (pre t : Bytes) (ts : List Bytes)
    → byte_in (pre ++ (t ++ join ts)) (positions (length pre + length t) ts) ≡ some (peek (join ts))
next_byte pre t ts =
    ap₂ (λ s p. byte_in s (positions p ts)) (sym (append_assoc pre t (join ts)))
      (sym (length-append pre t))
    ∙ byte_in-positions (pre ++ t) ts
