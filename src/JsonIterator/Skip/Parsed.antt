-- ===== src/JsonIterator/Skip/Parsed.antt =====
-- include/jsonifier-incl/utilities/string_utils.hpp: `skipStringImpl` on every string that `string_parser`
-- reads.
use jsonifier.Prelude.{
  ℕ, zero, suc, ◌<◌, ◌≡◌, ◌⊎◌, inl, inr, refl, ap, ◌∙◌, true, false, ◌||◌, List, [], ◌∷◌, ◌==◌,
  if◌then◌else◌, if_both, if_ltb, ltb, Bytes, peek, next, drop, take, length, some, arith,
  Bool-cases, ==→≡,
}
use mathlib.Core.Path.{subst}
use jsonifier.CodePoint.{UnicodeResult, wrote, refused, undefined, handle_unicode_code_point}
use jsonifier.StringReader.{
  escape_map, ReadResult, ended, more, failed, unknown, starved, store, after_unicode, read_escape,
  read_short, find_parse, has_byte_less_than_32, parse_step, after_step, string_parser,
}
use jsonifier.JsonIterator.{ParseOptions, JsonIterator, move_to}
use jsonifier.JsonIterator.Skip.{skip_string}
use jsonifier.JsonIterator.Skip.Strings.{closing_quote, skip_string-some}
use jsonifier.JsonIterator.Skip.Items.{closing_quote-plain, closing_quote-escaped}
use jsonifier.JsonIterator.Skip.Escapes.{Leaves, handle-Leaves}

-- What a reading of `s` says of the closing quote of `s`.
abbrev Finds : Bytes → ReadResult → Type 0
Finds s (ended out rest) = closing_quote false s ≡ some (next rest)
Finds s (more out rest) = closing_quote false s ≡ closing_quote false rest
Finds s failed = Unit
Finds s unknown = Unit
Finds s starved = Unit

store-Finds :
    (out s t : Bytes) (r : ReadResult)
    → closing_quote false s ≡ closing_quote false t
    → Finds t r
    → Finds s (store out r)
unfolding store
store-Finds out s t (ended o rest) e h = e ∙ h
store-Finds out s t (more o rest) e h = e ∙ h
store-Finds out s t failed e h = tt
store-Finds out s t unknown e h = tt
store-Finds out s t starved e h = tt

after_unicode-Finds :
    (go : Bytes → ReadResult) (s : Bytes) (r : UnicodeResult)
    → Leaves s r
    → ((t : Bytes) → Finds t (go t))
    → Finds s (after_unicode go r)
unfolding after_unicode
after_unicode-Finds go s (wrote bytes rest) e h = store-Finds bytes s rest (go rest) e (h rest)
after_unicode-Finds go s refused e h = tt
after_unicode-Finds go s undefined e h = tt

-- a backslash and the byte behind it
closing_quote-two :
    (s : Bytes)
    → peek s ≡ b'\\'
    → (escape_map (peek (next s)) == 0) ≡ false
    → closing_quote false s ≡ closing_quote false (drop 2 s)
unfolding escape_map
closing_quote-two [] b h = absurd (omega arith)
closing_quote-two (x ∷ []) b h = absurd (ground arith)
closing_quote-two (x ∷ c ∷ cs) b h =
    ap (λ t. closing_quote false (t ∷ c ∷ cs)) b ∙ closing_quote-escaped c cs

read_escape-Finds :
    (go : Bytes → ReadResult) (s : Bytes)
    → peek s ≡ b'\\'
    → ((t : Bytes) → Finds t (go t))
    → Finds s (read_escape go s)
unfolding read_escape
read_escape-Finds go s b h = elim (Bool-cases (peek (next s) == b'u')) [
  | inl e ↦ rw e (after_unicode-Finds go s (handle_unicode_code_point s) (handle-Leaves s b) h)
  | inr e ↦ rw e (elim (Bool-cases (escape_map (peek (next s)) == 0)) [
    | inl z ↦ rw z tt
    | inr z ↦ rw z (
        store-Finds (escape_map (peek (next s)) ∷ []) s (drop 2 s) (go (drop 2 s))
          (closing_quote-two s b z) (h (drop 2 s)))
  ])
]

closing_quote-quote :
    (c : ℕ) (s : Bytes) → (c == b'"') ≡ true → closing_quote false (c ∷ s) ≡ some s
unfolding closing_quote
closing_quote-quote c s h = rw h refl

read_short-Finds : (fuel : ℕ) (s : Bytes) → Finds s (read_short fuel s)
unfolding read_short
read_short-Finds zero s = tt
read_short-Finds (suc fuel) [] = tt
read_short-Finds (suc fuel) (c ∷ cs) = elim (Bool-cases (c == b'"')) [
  | inl q ↦ rw q (closing_quote-quote c cs q)
  | inr q ↦ rw q (elim (Bool-cases (c == b'\\')) [
    | inl b ↦
        rw b (read_escape-Finds (read_short fuel) (c ∷ cs) (==→≡ c b'\\' b) (read_short-Finds fuel))
    | inr b ↦ rw b (
        if_both (Finds (c ∷ cs)) (ltb c 32) tt (
          store-Finds (c ∷ []) (c ∷ cs) cs (read_short fuel cs) (closing_quote-plain c cs q b)
            (read_short-Finds fuel cs)))
  ])
]

-- The bytes before the place that `findParse` gives.
closing_quote-find_parse :
    (n : ℕ) (s : Bytes) → closing_quote false s ≡ closing_quote false (drop (find_parse n s) s)
unfolding find_parse
closing_quote-find_parse zero s = refl
closing_quote-find_parse (suc n) [] = refl
closing_quote-find_parse (suc n) (c ∷ cs) = elim (Bool-cases (c == b'\\' || c == b'"')) [
  | inl e ↦ rw e refl
  | inr e ↦
      rw e (closing_quote-plain c cs (ground arith) (ground arith) ∙ closing_quote-find_parse n cs)
]

find_parse-stops :
    (n : ℕ) (s : Bytes)
    → n < length s
    → (find_parse n s ≡ n)
      ⊎ (peek (drop (find_parse n s) s) ≡ b'\\')
      ⊎ (peek (drop (find_parse n s) s) ≡ b'"')
unfolding find_parse
find_parse-stops zero s l = inl refl
find_parse-stops (suc n) [] l = absurd (omega arith)
find_parse-stops (suc n) (c ∷ cs) l = elim (Bool-cases (c == b'\\' || c == b'"')) [
  | inl e ↦ rw e (inr (ground arith))
  | inr e ↦
      rw e (elim (find_parse-stops n cs (omega arith)) [ inl k ↦ inl (ap suc k) | inr k ↦ inr k ])
]

closing_quote-next : (s : Bytes) → (peek s == b'"') ≡ true → closing_quote false s ≡ some (next s)
closing_quote-next [] h = absurd (ground arith)
closing_quote-next (c ∷ cs) h = closing_quote-quote c cs h

-- a quote or a backslash in the register
special-Finds :
    (go : Bytes → ReadResult) (k : ℕ) (s : Bytes)
    → closing_quote false s ≡ closing_quote false (drop k s)
    → ((peek (drop k s) == b'"') ≡ false → peek (drop k s) ≡ b'\\')
    → ((t : Bytes) → Finds t (go t))
    → Finds s (
        if peek (drop k s) == b'"'
        then ended (take k s) (drop k s)
        else store (take k s) (read_escape go (drop k s)))
special-Finds go k s e b h = elim (Bool-cases (peek (drop k s) == b'"')) [
  | inl q ↦ rw q (e ∙ closing_quote-next (drop k s) q)
  | inr q ↦ rw q (
      store-Finds (take k s) s (drop k s) (read_escape go (drop k s)) e
        (read_escape-Finds go (drop k s) (b q) h))
]

parse_step-Finds : (n fuel : ℕ) (s : Bytes) → Finds s (parse_step n fuel s)
unfolding parse_step
parse_step-Finds n zero s = tt
parse_step-Finds n (suc fuel) s =
    if_ltb (Finds s) n (length s)
      (λ l. elim (Bool-cases (find_parse n s == n)) [
        | inl e ↦ rw e (
            if_both (Finds s) (has_byte_less_than_32 (take n s)) tt (
              store-Finds (take n s) s (drop n s) (parse_step n fuel (drop n s))
                (closing_quote-find_parse n s
                  ∙ ap (λ k. closing_quote false (drop k s)) (==→≡ (find_parse n s) n e))
                (parse_step-Finds n fuel (drop n s))))
        | inr e ↦ rw e (
            special-Finds (parse_step n fuel) (find_parse n s) s (closing_quote-find_parse n s)
              (λ q. elim (find_parse-stops n s l) [
                | inl k ↦ absurd (ground arith)
                | inr (inl k) ↦ k
                | inr (inr k) ↦ absurd (ground arith)
              ])
              (parse_step-Finds n fuel))
      ])
      (λ l. refl)

after_step-Finds :
    (go : Bytes → ReadResult) (s : Bytes) (r : ReadResult)
    → Finds s r
    → ((t : Bytes) → Finds t (go t))
    → Finds s (after_step go r)
unfolding after_step
after_step-Finds go s (ended out rest) e h = e
after_step-Finds go s (more out rest) e h = store-Finds out s rest (go rest) e (h rest)
after_step-Finds go s failed e h = tt
after_step-Finds go s unknown e h = tt
after_step-Finds go s starved e h = tt

string_parser-Finds : (sizes : List ℕ) (s : Bytes) → Finds s (string_parser sizes s)
unfolding string_parser
string_parser-Finds [] s = read_short-Finds (suc (length s)) s
string_parser-Finds (n ∷ ns) s =
    after_step-Finds (string_parser ns) s (parse_step n (suc (length s)) s)
      (parse_step-Finds n (suc (length s)) s) (string_parser-Finds ns)

-- `skipString` agrees with `string_parser` on the end of every string that `string_parser` reads, whatever
-- bytes and escapes the string has and whatever registers the machine has: where `string_parser` stops
-- before the bytes `rest`, `skipString` is true, with the iterator one byte further on.
pub skip_string-string_parser :
    (o : ParseOptions) (sizes : List ℕ) (st : JsonIterator) (out rest : Bytes)
    → string_parser sizes (next st.iter) ≡ ended out rest
    → skip_string o st ≡ (true, move_to st (next rest))
skip_string-string_parser o sizes st out rest e =
    skip_string-some o st (next rest)
      (subst (Finds (next st.iter)) e (string_parser-Finds sizes (next st.iter)))
