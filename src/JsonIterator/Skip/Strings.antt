-- ===== src/JsonIterator/Skip/Strings.antt =====
-- include/jsonifier-incl/utilities/string_utils.hpp: `skipStringImpl`, against a reading of the string from
-- its start, byte by byte.
use jsonifier.Prelude.{
  ℕ, zero, suc, ◌<◌, ◌≡◌, refl, sym, ap, ◌∙◌, Bool, true, false, not, ◌&&◌, ◌%◌, [], ◌∷◌, ◌==◌,
  if◌then◌else◌, Bytes, peek, next, length, Option, none, some, arith, inl, inr, Bool-cases, ==→≡,
}
use jsonifier.JsonIterator.{
  ParseOptions, JsonIterator, Outcome, move_to, reject, is_before_end, unexpected_string_end,
}
use jsonifier.JsonIterator.Skip.{
  find_quote, backslashes, after_quote, skip_string_loop, skip_string_impl, close_string,
  skip_string,
}

-- The bytes behind the closing quote. The flag says that the byte before was an unescaped backslash.
unfoldable pub closing_quote : Bool → Bytes → Option Bytes
closing_quote escaped [] = none
closing_quote true (c ∷ cs) = closing_quote false cs
closing_quote false (c ∷ cs) =
    let rest = closing_quote (c == b'\\') cs in if c == b'"' then some cs else rest

-- What `closing_quote` gives where the first quote is known, with `n` backslashes before.
abbrev expected : ℕ → Option (Bytes × Bytes) → Option Bytes
expected n none = none
expected n (some (pre, rest)) =
    if suc (backslashes n pre) % 2 == 0 then closing_quote false (next rest) else some (next rest)

abbrev run : ℕ → ℕ → ℕ
run n c = if c == b'\\' then suc n else 0

abbrev cons_pre : ℕ → Option (Bytes × Bytes) → Option (Bytes × Bytes)
cons_pre c none = none
cons_pre c (some (pre, s)) = some (c ∷ pre, s)

expected-cons :
    (n c : ℕ) (x : Option (Bytes × Bytes)) → expected n (cons_pre c x) ≡ expected (run n c) x
unfolding backslashes
expected-cons n c none = refl
expected-cons n c (some (pre, rest)) = elim (Bool-cases (c == b'\\')) [
  | inl e ↦ rw e refl
  | inr e ↦ rw e refl
]

find_quote-quote : (s : Bytes) → find_quote (b'"' ∷ s) ≡ some ([], b'"' ∷ s)
unfolding find_quote
find_quote-quote s = refl

find_quote-other :
    (c : ℕ) (s : Bytes) → (c == b'"') ≡ false → find_quote (c ∷ s) ≡ cons_pre c (find_quote s)
unfolding find_quote
find_quote-other c s e = rw e (elim (find_quote s) [ none ↦ refl | some p ↦ refl ])

odd_next : (n : ℕ) → (suc (suc n) % 2 == 0) ≡ not (suc n % 2 == 0)
odd_next n = ground arith

closing_quote-other :
    (b : Bool) (n c : ℕ) (s : Bytes)
    → (c == b'"') ≡ false
    → (suc n % 2 == 0) ≡ b
    → closing_quote b (c ∷ s) ≡ closing_quote (suc (run n c) % 2 == 0) s
unfolding closing_quote
closing_quote-other true n c s e h = elim (Bool-cases (c == b'\\')) [
  | inl k ↦ rw (k, odd_next n, h) refl
  | inr k ↦ rw k refl
]
closing_quote-other false n c s e h =
    rw e (elim (Bool-cases (c == b'\\')) [ inl k ↦ rw (k, odd_next n, h) refl | inr k ↦ rw k refl ])

closing_quote-quote :
    (b : Bool) (s : Bytes)
    → closing_quote b (b'"' ∷ s) ≡ (if b then closing_quote false s else some s)
unfolding closing_quote
closing_quote-quote true s = refl
closing_quote-quote false s = refl

closing_quote_nothing : (b : Bool) (n : ℕ) → closing_quote b [] ≡ expected n (find_quote [])
unfolding closing_quote find_quote
closing_quote_nothing b n = refl

closing_quote-expected :
    (n : ℕ) (s : Bytes) → closing_quote (suc n % 2 == 0) s ≡ expected n (find_quote s)
unfolding backslashes
closing_quote-expected n [] = closing_quote_nothing (suc n % 2 == 0) n
closing_quote-expected n (c ∷ cs) = elim (Bool-cases (c == b'"')) [
  | inl e ↦ rw (==→≡ c b'"' e, find_quote-quote cs) (closing_quote-quote (suc n % 2 == 0) cs)
  | inr e ↦ rw (find_quote-other c cs e) (
      closing_quote-other (suc n % 2 == 0) n c cs e refl
      ∙ closing_quote-expected (run n c) cs
      ∙ sym (expected-cons n c (find_quote cs)))
]

-- The first quote, if there is one, is where the bytes stand that are returned.
abbrev FoundIn : Bytes → Option (Bytes × Bytes) → Type 0
FoundIn s none = (peek s == b'"') ≡ false
FoundIn s (some (pre, rest)) =
    ((peek rest == b'"') ≡ true) × is_before_end rest ≡ true × length (next rest) < length s

FoundIn-cons :
    (c : ℕ) (s : Bytes) (x : Option (Bytes × Bytes))
    → (c == b'"') ≡ false
    → FoundIn s x
    → FoundIn (c ∷ s) (cons_pre c x)
FoundIn-cons c s none e h = e
FoundIn-cons c s (some (pre, rest)) e (q, b, l) = (q, b, omega arith)

find_quote_nothing : FoundIn [] (find_quote [])
unfolding find_quote
find_quote_nothing = refl

find_quote-FoundIn : (s : Bytes) → FoundIn s (find_quote s)
find_quote-FoundIn [] = find_quote_nothing
find_quote-FoundIn (c ∷ cs) = elim (Bool-cases (c == b'"')) [
  | inl e ↦ rw (==→≡ c b'"' e, find_quote-quote cs) (refl, refl, omega arith)
  | inr e ↦
      rw (find_quote-other c cs e) (FoundIn-cons c cs (find_quote cs) e (find_quote-FoundIn cs))
]

-- What `skipString` makes of the place where `skipStringImpl` stops.
abbrev behind : Bytes → Option Bytes
behind s = if is_before_end s && (peek s == b'"') then some (next s) else none

after_quote-behind :
    (go : Bytes → Bytes) (s : Bytes) (x : Option (Bytes × Bytes))
    → FoundIn s x
    → ((rest : Bytes) → length rest < length s → behind (go rest) ≡ closing_quote false rest)
    → behind (after_quote go s x) ≡ expected 0 x
unfolding after_quote
after_quote-behind go [] none h k = refl
after_quote-behind go (c ∷ cs) none h k = rw h refl
after_quote-behind go s (some (pre, rest)) (q, b, l) k =
    elim (Bool-cases (suc (backslashes 0 pre) % 2 == 0)) [
      | inl e ↦ rw e (k (next rest) l)
      | inr e ↦ rw (e, b, q) refl
    ]

skip_string_loop-behind :
    (fuel : ℕ) (s : Bytes)
    → length s < fuel
    → behind (skip_string_loop fuel s) ≡ closing_quote false s
unfolding skip_string_loop
skip_string_loop-behind zero s h = absurd (omega arith)
skip_string_loop-behind (suc fuel) s h =
    after_quote-behind (skip_string_loop fuel) s (find_quote s) (find_quote-FoundIn s)
      (λ rest l. skip_string_loop-behind fuel rest (omega arith))
    ∙ sym (closing_quote-expected 0 s)

behind-skip_string_impl : (s : Bytes) → behind (skip_string_impl s) ≡ closing_quote false s
unfolding skip_string_impl
behind-skip_string_impl s = skip_string_loop-behind (suc (length s)) s (omega arith)

-- The outcome of `skipString` for the bytes behind the closing quote; with none, `s` is where it stops.
abbrev pub string_outcome : JsonIterator → Bytes → Option Bytes → Outcome
string_outcome st s (some rest) = (true, move_to st rest)
string_outcome st s none = reject unexpected_string_end (move_to st s)

close_string-behind :
    (o : ParseOptions) (st : JsonIterator) (s : Bytes)
    → close_string o (move_to st s) ≡ string_outcome st s (behind s)
unfolding close_string
close_string-behind o st [] = elim (Bool-cases o.null_terminated) [
  | inl n ↦ rw n refl
  | inr n ↦ rw n refl
]
close_string-behind o st (c ∷ cs) = elim (Bool-cases (c == b'"')) [
  | inl e ↦ elim (Bool-cases o.null_terminated) [ inl n ↦ rw (e, n) refl | inr n ↦ rw (e, n) refl ]
  | inr e ↦ elim (Bool-cases o.null_terminated) [ inl n ↦ rw (e, n) refl | inr n ↦ rw (e, n) refl ]
]

-- `skipString`, which finds the quotes first and counts the backslashes back from them, leaves the
-- iterator behind the quote that an escape-by-escape reading from the start finds; where there is none,
-- it is refused with `unexpected_string_end`.
pub skip_string-closing_quote :
    (o : ParseOptions) (st : JsonIterator)
    → skip_string o st
      ≡ string_outcome st (skip_string_impl (next st.iter)) (closing_quote false (next st.iter))
unfolding skip_string
skip_string-closing_quote o st =
    close_string-behind o st (skip_string_impl (next st.iter))
    ∙ ap (string_outcome st (skip_string_impl (next st.iter)))
        (behind-skip_string_impl (next st.iter))

pub skip_string-some :
    (o : ParseOptions) (st : JsonIterator) (rest : Bytes)
    → closing_quote false (next st.iter) ≡ some rest
    → skip_string o st ≡ (true, move_to st rest)
skip_string-some o st rest h =
    skip_string-closing_quote o st ∙ ap (string_outcome st (skip_string_impl (next st.iter))) h
