-- ===== src/StringReader/Total.antt =====
-- `string_parser` of include/jsonifier-incl/utilities/string_utils.hpp ends on every text.
use jsonifier.Prelude.{
  ℕ, zero, suc, ◌≤◌, ◌<◌, ◌≡◌, ◌≢◌, refl, List, [], ◌∷◌, arith, Bytes, All, peek, next, drop, take,
  length, ltb, ◌==◌, if◌then◌else◌, Bool-cases, inl, inr, if_ltb,
}
use jsonifier.CodePoint.{
  UnicodeResult, wrote, refused, undefined, store_code_point, low_surrogate,
  handle_unicode_code_point,
}
use jsonifier.StringReader.{
  escape_map, ReadResult, ended, more, failed, unknown, starved, store, after_unicode, read_escape,
  read_short, find_parse, has_byte_less_than_32, parse_step, after_step, string_parser,
}

store_code_point-rest :
    (cp : ℕ) (iter : Bytes) {out rest : Bytes}
    → store_code_point cp iter ≡ wrote out rest
    → length rest ≤ length iter
unfolding store_code_point
store_code_point-rest cp iter h = ground arith

length-drop_le : (n : ℕ) (s : Bytes) → length (drop n s) ≤ length s
length-drop_le zero s = omega arith
length-drop_le (suc n) [] = omega arith
length-drop_le (suc n) (c ∷ cs) = omega (arith, length-drop_le n cs)

length-drop : (n : ℕ) (s : Bytes) → 0 < length s → length (drop (suc n) s) < length s
length-drop n [] h = absurd (omega arith)
length-drop n (c ∷ cs) h = omega (arith, length-drop_le n cs)

low_surrogate-rest :
    (cp : ℕ) (iter : Bytes) {out rest : Bytes}
    → low_surrogate cp iter ≡ wrote out rest
    → length rest ≤ length iter
unfolding low_surrogate
low_surrogate-rest cp iter h = grind (arith, store_code_point-rest, length-drop_le)

handle-rest :
    (s : Bytes) {out rest : Bytes}
    → handle_unicode_code_point s ≡ wrote out rest
    → length rest < length s
unfolding handle_unicode_code_point
handle-rest s h = grind (arith, store_code_point-rest, low_surrogate-rest, length-drop)

store-starved : (out : Bytes) (r : ReadResult) → r ≢ starved → store out r ≢ starved
unfolding store
store-starved out (ended a b) h = λ e. ground arith
store-starved out (more a b) h = λ e. ground arith
store-starved out failed h = λ e. ground arith
store-starved out unknown h = λ e. ground arith
store-starved out starved h = λ e. h refl

after_unicode-total :
    (go : Bytes → ReadResult) (r : UnicodeResult)
    → ((out rest : Bytes) → r ≡ wrote out rest → go rest ≢ starved)
    → after_unicode go r ≢ starved
unfolding after_unicode
after_unicode-total go (wrote out rest) h = store-starved out (go rest) (h out rest refl)
after_unicode-total go refused h = λ e. ground arith
after_unicode-total go undefined h = λ e. ground arith

-- A loop that ends on every shorter text.
abbrev EndsBelow : (Bytes → ReadResult) → ℕ → Type 0
EndsBelow go n = (rest : Bytes) → length rest < n → go rest ≢ starved

read_escape-total :
    (go : Bytes → ReadResult) (s : Bytes)
    → 0 < length s
    → EndsBelow go (length s)
    → read_escape go s ≢ starved
unfolding read_escape
read_escape-total go s l h = elim (Bool-cases (peek (next s) == b'u')) [
  | inl e ↦ rw e (
      after_unicode-total go (handle_unicode_code_point s) (λ out rest e. h rest (handle-rest s e)))
  | inr e ↦ rw e (elim (Bool-cases (escape_map (peek (next s)) == 0)) [
    | inl z ↦ rw z (λ e. ground arith)
    | inr z ↦ rw z (
        store-starved (escape_map (peek (next s)) ∷ []) (go (drop 2 s))
          (h (drop 2 s) (length-drop 1 s l)))
  ])
]

read_short-total : (fuel : ℕ) (s : Bytes) → length s < fuel → read_short fuel s ≢ starved
unfolding read_short
read_short-total zero s h = absurd (omega arith)
read_short-total (suc fuel) [] h = λ e. ground arith
read_short-total (suc fuel) (c ∷ cs) h = elim (Bool-cases (c == b'"')) [
  | inl q ↦ rw q (λ e. ground arith)
  | inr q ↦ rw q (elim (Bool-cases (c == b'\\')) [
    | inl b ↦ rw b (
        read_escape-total (read_short fuel) (c ∷ cs) (omega arith)
          (λ rest l. read_short-total fuel rest (omega arith)))
    | inr b ↦ rw b (elim (Bool-cases (ltb c 32)) [
      | inl k ↦ rw k (λ e. ground arith)
      | inr k ↦
          rw k
            (store-starved (c ∷ []) (read_short fuel cs) (read_short-total fuel cs (omega arith)))
    ])
  ])
]

find_parse_le : (n : ℕ) (s : Bytes) → find_parse n s ≤ n
unfolding find_parse
find_parse_le zero s = omega arith
find_parse_le (suc n) [] = omega arith
find_parse_le (suc n) (c ∷ cs) = ground (arith, find_parse_le n cs)

lt-length-drop : (k : ℕ) (s : Bytes) → k < length s → 0 < length (drop k s)
lt-length-drop zero s h = h
lt-length-drop (suc k) [] h = absurd (omega arith)
lt-length-drop (suc k) (c ∷ cs) h = lt-length-drop k cs (omega arith)

round-total :
    (go : Bytes → ReadResult) (n k : ℕ) (s : Bytes)
    → k ≤ suc n
    → suc n < length s
    → EndsBelow go (length s)
    → (if k == suc n
        then (if has_byte_less_than_32 (take (suc n) s)
            then failed
            else store (take (suc n) s) (go (drop (suc n) s)))
        else if peek (drop k s) == b'"'
        then ended (take k s) (drop k s)
        else store (take k s) (read_escape go (drop k s)))
      ≢ starved
round-total go n k s kn ns h = elim (Bool-cases (k == suc n)) [
  | inl e ↦ rw e (elim (Bool-cases (has_byte_less_than_32 (take (suc n) s))) [
    | inl b ↦ rw b (λ e. ground arith)
    | inr b ↦ rw b (
        store-starved (take (suc n) s) (go (drop (suc n) s))
          (h (drop (suc n) s) (length-drop n s (omega arith))))
  ])
  | inr e ↦ rw e (elim (Bool-cases (peek (drop k s) == b'"')) [
    | inl b ↦ rw b (λ e. ground arith)
    | inr b ↦ rw b (
        store-starved (take k s) (read_escape go (drop k s)) (
          read_escape-total go (drop k s) (lt-length-drop k s (omega arith))
            (λ rest l. h rest (omega (arith, length-drop_le k s)))))
  ])
]

parse_step-total : (n fuel : ℕ) (s : Bytes) → length s < fuel → parse_step (suc n) fuel s ≢ starved
unfolding parse_step
parse_step-total n zero s h = absurd (omega arith)
parse_step-total n (suc fuel) s h =
    if_ltb (λ r. r ≢ starved) (suc n) (length s)
      (λ l.
        round-total (parse_step (suc n) fuel) n (find_parse (suc n) s) s (find_parse_le (suc n) s) l
          (λ rest b. parse_step-total n fuel rest (omega arith)))
      (λ l e. ground arith)

after_step-total :
    (go : Bytes → ReadResult) (r : ReadResult)
    → ((rest : Bytes) → go rest ≢ starved)
    → r ≢ starved
    → after_step go r ≢ starved
unfolding after_step
after_step-total go (ended out rest) h ne = λ e. ground arith
after_step-total go (more out rest) h ne = store-starved out (go rest) (h rest)
after_step-total go failed h ne = λ e. ground arith
after_step-total go unknown h ne = λ e. ground arith
after_step-total go starved h ne = λ e. ne refl

-- On every text, and for registers of any sizes but 0, the loops of `string_parser` end within the
-- fuel that they are given, one round for each byte and one more.
pub string_parser-total :
    (sizes : List ℕ) → All (λ n. 0 < n) sizes → (s : Bytes) → string_parser sizes s ≢ starved
unfolding string_parser
string_parser-total [] h s = read_short-total (suc (length s)) s (omega arith)
string_parser-total (zero ∷ ns) (h, hs) s = absurd (omega arith)
string_parser-total (suc n ∷ ns) (h, hs) s =
    after_step-total (string_parser ns) (parse_step (suc n) (suc (length s)) s)
      (λ rest. string_parser-total ns hs rest) (parse_step-total n (suc (length s)) s (omega arith))
