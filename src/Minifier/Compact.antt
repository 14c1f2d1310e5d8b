-- ===== src/Minifier/Compact.antt =====
-- include/jsonifier-incl/serializing/minifier.hpp on the tokens of a text with white space between them.
use mathlib.Core.Path.{ap₂}
use jsonifier.Prelude.{
  some, le→leb, ℕ, ◌+◌, ◌-◌, ◌≡◌, ◌≤◌, ◌⊎◌, inl, inr, ◌∙◌, refl, sym, ap, true, false, List, [],
  ◌∷◌, ◌++◌, append_assoc, arith, Bytes, All, codes, peek, take, drop, length, length-append,
  if◌then◌else◌, ltb,
}
use jsonifier.JsonTypes.{number, json_types, slice}
use jsonifier.JsonTypes.Tape.{join, positions, drop-length, take-length}
use jsonifier.Minifier.{
  whitespace_table, back_track_ws, number_tail, stored, minify_round, minify_string, minify_number,
  minified, positive_length, after_minify, minify_loop, written, minify_json, copy_minified,
}

abbrev pub IsWhite : Bytes → Type 0
IsWhite = All (λ c. whitespace_table c ≡ true)

abbrev pub IsPlain : Bytes → Type 0
IsPlain = All (λ c. whitespace_table c ≡ false)

-- A token: a string up to its closing quote, a number, a literal name or a single byte of structure.
pub data IsToken : Bytes → Type 0 where
  text : (s : Bytes) → IsToken (b'"' ∷ (s ++ b'"' ∷ []))
  digits : (c : ℕ) (s : Bytes) → json_types c ≡ number → IsPlain s → IsToken (c ∷ s)
  literal :
      (t : Bytes) → (t ≡ codes "null") ⊎ ((t ≡ codes "true") ⊎ (t ≡ codes "false")) → IsToken t
  mark :
      (c : ℕ)
      → (c ≡ b',') ⊎ ((c ≡ b':') ⊎ ((c ≡ b'[') ⊎ ((c ≡ b']') ⊎ ((c ≡ b'{') ⊎ (c ≡ b'}')))))
      → IsToken (c ∷ [])

-- A token, the white space behind it, and so on.
abbrev pub Spaced : Type 0
Spaced = List (Bytes × Bytes)

abbrev pub IsSpaced : Spaced → Type 0
IsSpaced = All (λ p. IsToken p.0 × IsWhite p.1)

-- The pieces of the tokens, and that of a last byte.
abbrev pub laid : Spaced → ℕ → Bytes → List Bytes
laid [] c w = (c ∷ w) ∷ []
laid (p ∷ ps) c w = (p.0 ++ p.1) ∷ laid ps c w

abbrev pub compact : Spaced → Bytes
compact [] = []
compact (p ∷ ps) = p.0 ++ compact ps

back_track_ws-IsWhite : (w : Bytes) → IsWhite w → back_track_ws w ≡ []
unfolding back_track_ws
back_track_ws-IsWhite [] h = refl
back_track_ws-IsWhite (c ∷ cs) (h, hs) = rw (back_track_ws-IsWhite cs hs, h) refl

back_track_ws_string : (s w : Bytes) → IsWhite w → back_track_ws (s ++ (b'"' ∷ w)) ≡ s ++ b'"' ∷ []
unfolding back_track_ws whitespace_table
back_track_ws_string [] w h = rw (back_track_ws-IsWhite w h) refl
back_track_ws_string (c ∷ []) w h = rw (back_track_ws_string [] w h) refl
back_track_ws_string (c ∷ d ∷ s) w h = rw (back_track_ws_string (d ∷ s) w h) refl

number_tail-IsPlain : (s w : Bytes) → IsPlain s → IsWhite w → number_tail (s ++ w) ≡ s
unfolding number_tail
number_tail-IsPlain [] [] h k = refl
number_tail-IsPlain [] (c ∷ cs) h (k, ks) = rw k refl
number_tail-IsPlain (c ∷ cs) w (h, hs) k = rw h (ap (λ t. c ∷ t) (number_tail-IsPlain cs w hs k))

minify_text :
    (s w : Bytes)
    → IsWhite w
    → positive_length (back_track_ws ((b'"' ∷ (s ++ b'"' ∷ [])) ++ w))
      ≡ stored (b'"' ∷ (s ++ b'"' ∷ []))
minify_text s w h =
    ap (λ t. positive_length (back_track_ws (b'"' ∷ t))) (append_assoc s (b'"' ∷ []) w)
    ∙ ap positive_length (back_track_ws_string (b'"' ∷ s) w h)

minify_round-IsToken :
    (t w rest : Bytes)
    → IsToken t
    → IsWhite w
    → minify_round (json_types (peek ((t ++ w) ++ rest))) (peek ((t ++ w) ++ rest)) (some (t ++ w))
      ≡ stored t
unfolding minify_round minify_string minify_number json_types
minify_round-IsToken t w rest (text s) h = minify_text s w h
minify_round-IsToken t w rest (digits c s e p) h =
    rw e (ap (λ t. stored (c ∷ t)) (number_tail-IsPlain s w p h))
minify_round-IsToken t w rest (literal _ (inl e)) h = rw e refl
minify_round-IsToken t w rest (literal _ (inr (inl e))) h = rw e refl
minify_round-IsToken t w rest (literal _ (inr (inr e))) h = rw e refl
minify_round-IsToken t w rest (mark c (inl e)) h = rw e refl
minify_round-IsToken t w rest (mark c (inr (inl e))) h = rw e refl
minify_round-IsToken t w rest (mark c (inr (inr (inl e)))) h = rw e refl
minify_round-IsToken t w rest (mark c (inr (inr (inr (inl e))))) h = rw e refl
minify_round-IsToken t w rest (mark c (inr (inr (inr (inr (inl e)))))) h = rw e refl
minify_round-IsToken t w rest (mark c (inr (inr (inr (inr (inr e)))))) h = rw e refl

positions-laid :
    (q : ℕ) (ps : Spaced) (c : ℕ) (w : Bytes)
    → positions q (laid ps c w) ≡ q ∷ drop 1 (positions q (laid ps c w))
positions-laid q [] c w = refl
positions-laid q (p ∷ ps) c w = refl

slice_piece :
    (pre t rest : Bytes) → slice (pre ++ (t ++ rest)) (length pre) (length (pre ++ t)) ≡ some t
unfolding slice
slice_piece pre t rest =
    rw (le→leb (length pre) (length (pre ++ t)) (omega (arith, length-append pre t))) (
      ap some (
        ap₂ (λ j s. take (j - length pre) s) (length-append pre t) (drop-length pre (t ++ rest))
        ∙ ap (λ k. take k (t ++ rest)) (omega arith)
        ∙ take-length t rest))

-- one round at a token
minify_loop-token :
    (pre t w rest : Bytes) (is : List ℕ) (out : Bytes)
    → IsToken t
    → IsWhite w
    → minify_loop (pre ++ ((t ++ w) ++ rest)) (length pre) (length (pre ++ (t ++ w)) ∷ is) out
      ≡ minify_loop (pre ++ ((t ++ w) ++ rest)) (length (pre ++ (t ++ w))) is (out ++ t)
unfolding minify_loop after_minify
minify_loop-token pre t w rest is out h k =
    ap
      (after_minify
        (λ out'. minify_loop (pre ++ ((t ++ w) ++ rest)) (length (pre ++ (t ++ w))) is out') out)
      (ap₂ (λ s piece. minify_round (json_types (peek s)) (peek s) piece)
          (drop-length pre ((t ++ w) ++ rest)) (slice_piece pre (t ++ w) rest)
        ∙ minify_round-IsToken t w rest h k)

minify_loop-last :
    (pre : Bytes) (c : ℕ) (w out : Bytes)
    → minify_loop (pre ++ (c ∷ w)) (length pre) [] out ≡ minified (out ++ c ∷ [])
unfolding minify_loop
minify_loop-last pre c w out = ap (λ s. minified (out ++ peek s ∷ [])) (drop-length pre (c ∷ w))

minify_loop-laid :
    (ps : Spaced) (pre : Bytes) (c : ℕ) (w : Bytes) (out : Bytes)
    → IsSpaced ps
    → minify_loop
        (pre ++ join (laid ps c w))
        (length pre)
        (drop 1 (positions (length pre) (laid ps c w)))
        out
      ≡ minified (out ++ (compact ps ++ c ∷ []))
minify_loop-laid [] pre c w out h = last
  where
    last : minify_loop (pre ++ ((c ∷ w) ++ [])) (length pre) [] out ≡ minified (out ++ c ∷ [])
    last = minify_loop-last pre c (w ++ []) out
minify_loop-laid (p ∷ ps) pre c w out ((h, k), hs) =
    ap (λ is. minify_loop (pre ++ ((p.0 ++ p.1) ++ join (laid ps c w))) (length pre) is out) tape
    ∙ minify_loop-token pre p.0 p.1 (join (laid ps c w)) _ out h k
    ∙ ap
        (λ text.
          minify_loop text (length (pre ++ (p.0 ++ p.1)))
            (drop 1 (positions (length (pre ++ (p.0 ++ p.1))) (laid ps c w))) (out ++ p.0))
        (sym (append_assoc pre (p.0 ++ p.1) (join (laid ps c w))))
    ∙ minify_loop-laid ps (pre ++ (p.0 ++ p.1)) c w (out ++ p.0) hs
    ∙ ap minified (
        append_assoc out p.0 (compact ps ++ c ∷ [])
        ∙ ap (λ t. out ++ t) (sym (append_assoc p.0 (compact ps) (c ∷ []))))
  where
    tape :
        positions (length pre + length (p.0 ++ p.1)) (laid ps c w)
        ≡ length (pre ++ (p.0 ++ p.1))
          ∷ drop 1 (positions (length (pre ++ (p.0 ++ p.1))) (laid ps c w))
    tape =
        ap (λ q. positions q (laid ps c w)) (sym (length-append pre (p.0 ++ p.1)))
        ∙ positions-laid (length (pre ++ (p.0 ++ p.1))) ps c w

length-compact :
    (ps : Spaced) (c : ℕ) (w : Bytes) → length (compact ps ++ c ∷ []) ≤ length (join (laid ps c w))
length-compact [] c w = omega (arith, length-append w [])
length-compact (p ∷ ps) c w = omega (
  arith,
  length-compact ps c w,
  length-append (p.0 ++ compact ps) (c ∷ []),
  length-append (compact ps) (c ∷ []),
  length-append p.0 (compact ps),
  length-append (p.0 ++ p.1) (join (laid ps c w)),
  length-append p.0 p.1,
)

copy_minified-fits :
    (size n : ℕ) (out : Bytes)
    → length out ≤ n
    → copy_minified (if ltb size n then n else size) (minified out) ≡ written out
copy_minified-fits size n out h = ground arith

-- `minifyJson` on a text of tokens with white space before, between and behind them, that ends with a
-- closing bracket or another single byte: the white space is gone, the tokens are whole and in order,
-- and the output fits the buffer.
pub minify_json-compact :
    (size : ℕ) (pre : Bytes) (ps : Spaced) (c : ℕ) (w : Bytes)
    → IsSpaced ps
    → minify_json size (pre ++ join (laid ps c w)) (positions (length pre) (laid ps c w))
      ≡ written (compact ps ++ c ∷ [])
unfolding minify_json
minify_json-compact size pre ps c w h =
    ap (minify_json size (pre ++ join (laid ps c w))) (positions-laid (length pre) ps c w)
    ∙ ap (copy_minified (if ltb size n then n else size)) (minify_loop-laid ps pre c w [] h)
    ∙ copy_minified-fits size n (compact ps ++ c ∷ [])
        (omega (arith, length-compact ps c w, length-append pre (join (laid ps c w))))
  where
    n : ℕ
    n = length (pre ++ join (laid ps c w))
