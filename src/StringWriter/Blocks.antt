-- ===== src/StringWriter/Blocks.antt =====
-- The vector loops of `string_serializer` (include/jsonifier-incl/utilities/string_utils.hpp) against
-- the plain loop that ends it.
use mathlib.Core.Path.{ap₂, subst}
use jsonifier.Prelude.{
  ℕ, zero, suc, ◌≤◌, ◌<◌, ◌≡◌, ◌∙◌, refl, sym, ap, true, false, List, [], ◌∷◌, ◌++◌, append_assoc,
  ◌==◌, if◌then◌else◌, Bytes, peek, take, drop, length, arith, All, Bool-cases, if_ltb, inl, inr,
}
use jsonifier.StringWriter.{
  escape_table, escape_byte, short_impl, is_escapeable, find_serialize, serialize_step,
  string_serializer,
}

-- What the vector loops write: a NUL has an empty entry in the table, and vanishes.
abbrev pub vector_impl : Bytes → Bytes
vector_impl [] = []
vector_impl (c ∷ cs) = (if c == 0 then [] else escape_byte c) ++ vector_impl cs

-- A prefix of `s` is written to `out`, and `tail` is left.
pub record Written (n : ℕ) (s : Bytes) (step : Bytes × Bytes) : Type 0 where
  pub read : Bytes
  pub splits : s ≡ read ++ step.1
  pub wrote : step.0 ≡ vector_impl read
  pub left : length step.1 ≤ n

-- `k` plain bytes and one that is escaped, or `n` plain bytes.
record Found (n k : ℕ) (s : Bytes) : Type 0 where
  at_most : k ≤ n
  plain : vector_impl (take k s) ≡ take k s
  splits : s ≡ take k s ++ drop k s
  escaped : k < n → vector_impl (peek (drop k s) ∷ []) ≡ escape_table (peek (drop k s))
  head : drop k s ≡ peek (drop k s) ∷ drop (suc k) s

vector-plain : (c : ℕ) → is_escapeable c ≡ false → vector_impl (c ∷ []) ≡ c ∷ []
unfolding escape_byte escape_table
vector-plain c h = ground arith

vector-escaped : (c : ℕ) → is_escapeable c ≡ true → vector_impl (c ∷ []) ≡ escape_table c
unfolding escape_byte escape_table
vector-escaped c h = ground arith

vector-append : (a b : Bytes) → vector_impl (a ++ b) ≡ vector_impl a ++ vector_impl b
vector-append [] b = refl
vector-append (c ∷ cs) b =
    ap (λ t. (if c == 0 then [] else escape_byte c) ++ t) (vector-append cs b)
    ∙ sym (append_assoc (if c == 0 then [] else escape_byte c) (vector_impl cs) (vector_impl b))

find_serialize-Found : (n : ℕ) (s : Bytes) → n < length s → Found n (find_serialize n s) s
unfolding find_serialize
find_serialize-Found n [] h = absurd (omega arith)
find_serialize-Found zero (c ∷ cs) h = record {
  at_most = omega arith;
  plain = refl;
  splits = refl;
  escaped = λ below. absurd (omega arith);
  head = refl;
}
find_serialize-Found (suc n) (c ∷ cs) h = elim (Bool-cases (is_escapeable c)) [
  | inl e ↦ rw e (record {
    at_most = omega arith;
    plain = refl;
    splits = refl;
    escaped = λ below. vector-escaped c e;
    head = refl;
  })
  | inr e ↦ rw e (
      let found = find_serialize-Found n cs (omega arith) in
      record {
        at_most = omega (arith, found.at_most);
        plain =
            vector-append (c ∷ []) (take (find_serialize n cs) cs)
            ∙ ap₂ (λ a b. a ++ b) (vector-plain c e) found.plain;
        splits = ap (λ t. c ∷ t) found.splits;
        escaped = λ below. found.escaped (omega arith);
        head = found.head;
      })
]

Written-prefix :
    (n k : ℕ) (s out : Bytes) (step : Bytes × Bytes)
    → (read : Bytes) → s ≡ read ++ drop k s
    → vector_impl read ≡ out
    → Written n (drop k s) step
    → Written n s (out ++ step.0, step.1)
Written-prefix n k s out step read splits wrote rest = record {
  read = read ++ rest.read;
  splits = splits ∙ ap (λ t. read ++ t) rest.splits ∙ sym (append_assoc read rest.read step.1);
  wrote = ap₂ (λ a b. a ++ b) (sym wrote) rest.wrote ∙ sym (vector-append read rest.read);
  left = rest.left;
}

length-drop_le : (n : ℕ) (s : Bytes) → length (drop n s) ≤ length s
length-drop_le zero s = omega arith
length-drop_le (suc n) [] = omega arith
length-drop_le (suc n) (c ∷ cs) = omega (arith, length-drop_le n cs)

length-drop : (n : ℕ) (s : Bytes) → 0 < length s → length (drop (suc n) s) < length s
length-drop n [] h = absurd (omega arith)
length-drop n (c ∷ cs) h = omega (arith, length-drop_le n cs)

-- one round, and then the loop on what is left
round_escaped :
    (n k : ℕ) (s : Bytes) (step : Bytes × Bytes)
    → Found n k s
    → k < n
    → Written n (drop (suc k) s) step
    → Written n s (take k s ++ (escape_table (peek (drop k s)) ++ step.0), step.1)
round_escaped n k s step found below rest =
    subst (λ out. Written n s (out, step.1)) (append_assoc (take k s) (escape_table c) step.0)
      (Written-prefix n (suc k) s (take k s ++ escape_table c) step (take k s ++ c ∷ [])
        (found.splits
          ∙ ap (λ t. take k s ++ t) found.head
          ∙ sym (append_assoc (take k s) (c ∷ []) (drop (suc k) s)))
        (vector-append (take k s) (c ∷ []) ∙ ap₂ (λ a b. a ++ b) found.plain (found.escaped below))
        rest)
  where
    c : ℕ
    c = peek (drop k s)

round_plain :
    (n : ℕ) (s : Bytes) (step : Bytes × Bytes)
    → Found n n s
    → Written n (drop n s) step
    → Written n s (take n s ++ step.0, step.1)
round_plain n s step found rest =
    Written-prefix n n s (take n s) step (take n s) found.splits found.plain rest

Written-none : (n : ℕ) (s : Bytes) → length s ≤ n → Written n s ([], s)
Written-none n s h = record { read = []; splits = refl; wrote = refl; left = h }

round :
    (n k : ℕ) (s : Bytes) (plain escaped : Bytes × Bytes)
    → Found n k s
    → Written n (drop n s) plain
    → Written n (drop (suc k) s) escaped
    → Written n s (
        if k == n
        then (take n s ++ plain.0, plain.1)
        else (take k s ++ (escape_table (peek (drop k s)) ++ escaped.0), escaped.1))
round n k s plain escaped found after_plain after_escaped = elim (Bool-cases (k == n)) [
  | inl e ↦ rw e (round_plain n s plain (subst (λ t. Found n t s) (ground arith) found) after_plain)
  | inr e ↦ rw e (round_escaped n k s escaped found (ground (arith, found.at_most)) after_escaped)
]

-- A byte at least is consumed in each round, so fuel for the length is enough.
serialize_step-Written :
    (n fuel : ℕ) (s : Bytes) → length s ≤ fuel → Written (suc n) s (serialize_step (suc n) fuel s)
unfolding serialize_step
serialize_step-Written n zero s f = Written-none (suc n) s (omega arith)
serialize_step-Written n (suc fuel) s f =
    if_ltb (Written (suc n) s) (suc n) (length s)
      (λ more.
        round (suc n) (find_serialize (suc n) s) s (serialize_step (suc n) fuel (drop (suc n) s))
          (serialize_step (suc n) fuel (drop (suc (find_serialize (suc n) s)) s))
          (find_serialize-Found (suc n) s more)
          (serialize_step-Written n fuel (drop (suc n) s)
            (omega (arith, length-drop n s (omega arith))))
          (serialize_step-Written n fuel (drop (suc (find_serialize (suc n) s)) s)
            (omega (arith, length-drop (find_serialize (suc n) s) s (omega arith)))))
      (λ done. Written-none (suc n) s done)

-- The registers' sizes are not zero.
abbrev pub Sizes : List ℕ → Type 0
Sizes = All (λ n. 0 < n)

-- The vector loops write a prefix, and `shortImpl` the rest.
pub record Serialized (s out : Bytes) : Type 0 where
  pub front : Bytes
  pub back : Bytes
  pub splits : s ≡ front ++ back
  pub wrote : out ≡ vector_impl front ++ short_impl back

Serialized-prefix :
    (n : ℕ) (s out : Bytes) (step : Bytes × Bytes)
    → Written n s step
    → Serialized step.1 out
    → Serialized s (step.0 ++ out)
Serialized-prefix n s out step w r = record {
  front = w.read ++ r.front;
  back = r.back;
  splits = w.splits ∙ ap (λ t. w.read ++ t) r.splits ∙ sym (append_assoc w.read r.front r.back);
  wrote =
      ap₂ (λ a b. a ++ b) w.wrote r.wrote
      ∙ sym (append_assoc (vector_impl w.read) (vector_impl r.front) (short_impl r.back))
      ∙ ap (λ t. t ++ short_impl r.back) (sym (vector-append w.read r.front));
}

pub string_serializer-Serialized :
    (sizes : List ℕ) → Sizes sizes → (s : Bytes) → Serialized s (string_serializer sizes s)
unfolding string_serializer
string_serializer-Serialized [] h s = record { front = []; back = s; splits = refl; wrote = refl }
string_serializer-Serialized (zero ∷ ns) (h, hs) s = absurd (omega arith)
string_serializer-Serialized (suc n ∷ ns) (h, hs) s =
    Serialized-prefix (suc n) s (string_serializer ns (serialize_step (suc n) (length s) s).1)
      (serialize_step (suc n) (length s) s) (serialize_step-Written n (length s) s (omega arith))
      (string_serializer-Serialized ns hs (serialize_step (suc n) (length s) s).1)

short-append : (a b : Bytes) → short_impl (a ++ b) ≡ short_impl a ++ short_impl b
unfolding short_impl
short-append [] b = refl
short-append (c ∷ cs) b =
    ap (λ t. escape_byte c ++ t) (short-append cs b)
    ∙ sym (append_assoc (escape_byte c) (short_impl cs) (short_impl b))

vector-short : (a : Bytes) → All (λ c. 0 < c) a → vector_impl a ≡ short_impl a
unfolding short_impl
vector-short [] h = refl
vector-short (c ∷ cs) (h, hs) = ap₂ (λ a b. a ++ b) (head c h) (vector-short cs hs)
  where
    head : (c : ℕ) → 0 < c → (if c == 0 then [] else escape_byte c) ≡ escape_byte c
    head c h = ground arith

All-front : (a b : Bytes) → All (λ c. 0 < c) (a ++ b) → All (λ c. 0 < c) a
All-front [] b h = tt
All-front (c ∷ cs) b (h, hs) = (h, All-front cs b hs)

-- On a text with no NUL the vector loops make no difference: for registers of any sizes but 0,
-- the result
-- of `string_serializer` is that of the plain loop.
pub string_serializer-short_impl :
    (sizes : List ℕ)
    → Sizes sizes
    → (s : Bytes) → All (λ c. 0 < c) s
    → string_serializer sizes s ≡ short_impl s
string_serializer-short_impl sizes h s nul =
    let r = string_serializer-Serialized sizes h s in
    r.wrote
    ∙ ap (λ t. t ++ short_impl r.back)
        (vector-short r.front (All-front r.front r.back (subst (All (λ c. 0 < c)) r.splits nul)))
    ∙ sym (short-append r.front r.back)
    ∙ ap short_impl (sym r.splits)
