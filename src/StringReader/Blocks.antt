-- ===== src/StringReader/Blocks.antt =====
-- The vector loops of `string_parser` (include/jsonifier-incl/utilities/string_utils.hpp) on the strings
-- of RFC 8259.
use jsonifier.Prelude.{
  ℕ, zero, suc, ◌+◌, ◌≤◌, ◌<◌, ◌≡◌, ◌≢◌, ◌∙◌, refl, sym, ap, true, false, ◌||◌, List, [], ◌∷◌, ◌++◌,
  append-nil, append_assoc, ◌==◌, if◌then◌else◌, Bytes, peek, take, drop, length, arith, All,
  Bool-cases, if_ltb, inl, inr,
}
use mathlib.Core.Path.{subst}
use jsonifier.CodePoint.Utf8.{utf8}
use jsonifier.CodePoint.Unicode.{single, paired}
use jsonifier.StringReader.{
  escape_map, ReadResult, ended, more, failed, store, read_escape, find_parse,
  has_byte_less_than_32, parse_step, after_step, string_parser,
}
use jsonifier.StringReader.Items.{
  Item, plain, letter, escaped, IsItem, string_text, meaning, read_escape-letter,
  read_escape-escaped, length-string_text, read_short-Items,
}

-- The first `k` bytes are plain, and the rest are the items `back`.
record Split (n k : ℕ) (items : List Item) (rest : Bytes) : Type 0 where
  at_most : k ≤ n
  back : List Item
  valid : All IsItem back
  fewer : length back + k ≤ length items
  left : drop k (string_text items rest) ≡ string_text back rest
  text : meaning items ≡ take k (string_text items rest) ++ meaning back
  clean : has_byte_less_than_32 (take k (string_text items rest)) ≡ false
  special :
      k < n → (peek (string_text back rest) == b'\\' || peek (string_text back rest) == b'"') ≡ true

Split-start :
    (n : ℕ) (items : List Item) (rest : Bytes)
    → All IsItem items
    → (0 < n
        → (peek (string_text items rest) == b'\\' || peek (string_text items rest) == b'"') ≡ true)
    → Split n 0 items rest
unfolding has_byte_less_than_32
Split-start n items rest h special = record {
  at_most = omega arith;
  back = items;
  valid = h;
  fewer = omega arith;
  left = refl;
  text = refl;
  clean = refl;
  special = special;
}

not_control :
    (c : ℕ) (cs : Bytes)
    → 32 ≤ c
    → has_byte_less_than_32 cs ≡ false
    → has_byte_less_than_32 (c ∷ cs) ≡ false
unfolding has_byte_less_than_32
not_control c cs l h = ground arith

find_parse-Split :
    (n : ℕ) (items : List Item) (rest : Bytes)
    → All IsItem items
    → Split n (find_parse n (string_text items rest)) items rest
unfolding find_parse
find_parse-Split zero items rest h = Split-start 0 items rest h (λ l. absurd (omega arith))
find_parse-Split (suc n) [] rest h = Split-start (suc n) [] rest h (λ l. refl)
find_parse-Split (suc n) (plain c ∷ is) rest ((l, q, b), hs) =
    rw (not_special c q b) (later (find_parse-Split n is rest hs))
  where
    not_special : (c : ℕ) → c ≢ b'"' → c ≢ b'\\' → (c == b'\\' || c == b'"') ≡ false
    not_special c q b = ground arith

    later : {k : ℕ} → Split n k is rest → Split (suc n) (suc k) (plain c ∷ is) rest
    later s = record {
      at_most = omega (arith, s.at_most);
      back = s.back;
      valid = s.valid;
      fewer = omega (arith, s.fewer);
      left = s.left;
      text = ap (λ t. c ∷ t) s.text;
      clean = not_control c _ l s.clean;
      special = λ below. s.special (omega arith);
    }
find_parse-Split (suc n) (letter c ∷ is) rest h =
    Split-start (suc n) (letter c ∷ is) rest h (λ l. refl)
find_parse-Split (suc n) (escaped cp t ∷ is) rest ((h, single l p), hs) =
    Split-start (suc n) (escaped cp _ ∷ is) rest ((h, single l p), hs) (λ below. refl)
find_parse-Split (suc n) (escaped cp t ∷ is) rest ((h, paired l p q), hs) =
    Split-start (suc n) (escaped cp _ ∷ is) rest ((h, paired l p q), hs) (λ below. refl)

-- A loop has read the whole string, or it stops before the items `back`.
data Step (items : List Item) (rest : Bytes) : ReadResult → Type 0 where
  done : {out : Bytes} → out ≡ meaning items → Step items rest (ended out (b'"' ∷ rest))
  goes :
      (out : Bytes) (back : List Item)
      → All IsItem back
      → meaning items ≡ out ++ meaning back
      → Step items rest (more out (string_text back rest))

Step-store :
    (items back : List Item) {rest : Bytes} {r : ReadResult} (out : Bytes)
    → meaning items ≡ out ++ meaning back
    → Step back rest r
    → Step items rest (store out r)
unfolding store
Step-store items back out h (done e) = done (ap (λ t. out ++ t) e ∙ sym h)
Step-store items back out h (goes out' back' v e) =
    goes (out ++ out') back' v
      (h ∙ ap (λ t. out ++ t) e ∙ sym (append_assoc out out' (meaning back')))

-- `go` does what is promised on fewer than `bound` items.
abbrev Goes : (Bytes → ReadResult) → ℕ → Bytes → Type 0
Goes go bound rest =
    (back : List Item)
    → All IsItem back
    → length back < bound
    → Step back rest (go (string_text back rest))

-- A quote or a backslash behind the bytes `out`.
at_special :
    (go : Bytes → ReadResult) (items back : List Item) (rest out : Bytes)
    → meaning items ≡ out ++ meaning back
    → All IsItem back
    → Goes go (length back) rest
    → (peek (string_text back rest) == b'\\' || peek (string_text back rest) == b'"') ≡ true
    → Step items rest (
        if peek (string_text back rest) == b'"'
        then ended out (string_text back rest)
        else store out (read_escape go (string_text back rest)))
at_special go items [] rest out h v g e = done (sym (h ∙ append-nil out))
at_special go items (plain c ∷ is) rest out h ((l, q, b), v) g e = absurd (ground arith)
at_special go items (letter c ∷ is) rest out h (i, v) g e =
    rw (read_escape-letter go c (string_text is rest) i) (
      Step-store items (letter c ∷ is) out h
        (Step-store (letter c ∷ is) is (escape_map c ∷ []) refl (g is v (omega arith))))
at_special go items (escaped cp t ∷ is) rest out h ((i, single l p), v) g e =
    rw (read_escape-escaped go cp _ (string_text is rest) i (single l p)) (
      Step-store items (escaped cp t ∷ is) out h
        (Step-store (escaped cp t ∷ is) is (utf8 cp) refl (g is v (omega arith))))
at_special go items (escaped cp t ∷ is) rest out h ((i, paired l p q), v) g e =
    rw (read_escape-escaped go cp _ (string_text is rest) i (paired l p q)) (
      Step-store items (escaped cp t ∷ is) out h
        (Step-store (escaped cp t ∷ is) is (utf8 cp) refl (g is v (omega arith))))

round_full :
    (go : Bytes → ReadResult) (n : ℕ) (items : List Item) (rest : Bytes)
    → Split (suc n) (suc n) items rest
    → Goes go (length items) rest
    → Step items rest (
        if has_byte_less_than_32 (take (suc n) (string_text items rest))
        then failed
        else store
            (take (suc n) (string_text items rest))
            (go (drop (suc n) (string_text items rest))))
round_full go n items rest s g =
    rw (s.clean, s.left)
      (Step-store items s.back (take (suc n) (string_text items rest)) s.text
        (g s.back s.valid (omega (arith, s.fewer))))

round :
    (go : Bytes → ReadResult) (n k : ℕ) (items : List Item) (rest : Bytes)
    → Split (suc n) k items rest
    → Goes go (length items) rest
    → Step items rest (
        if k == suc n
        then (if has_byte_less_than_32 (take (suc n) (string_text items rest))
            then failed
            else store
                (take (suc n) (string_text items rest))
                (go (drop (suc n) (string_text items rest))))
        else if peek (drop k (string_text items rest)) == b'"'
        then ended (take k (string_text items rest)) (drop k (string_text items rest))
        else store
            (take k (string_text items rest))
            (read_escape go (drop k (string_text items rest))))
round go n k items rest s g = elim (Bool-cases (k == suc n)) [
  | inl e ↦
      rw e (round_full go n items rest (subst (λ t. Split (suc n) t items rest) (ground arith) s) g)
  | inr e ↦
      rw (e, s.left)
        (at_special go items s.back rest (take k (string_text items rest)) s.text s.valid
          (λ b v l. g b v (omega (arith, s.fewer))) (s.special (ground (arith, s.at_most))))
]

-- A round takes an item at least, so fuel beyond the count of the items is enough.
parse_step-Step :
    (n fuel : ℕ) (items : List Item) (rest : Bytes)
    → All IsItem items
    → length items < fuel
    → Step items rest (parse_step (suc n) fuel (string_text items rest))
unfolding parse_step
parse_step-Step n zero items rest h f = absurd (omega arith)
parse_step-Step n (suc fuel) items rest h f =
    if_ltb (Step items rest) (suc n) (length (string_text items rest))
      (λ l.
        round (parse_step (suc n) fuel) n (find_parse (suc n) (string_text items rest)) items rest
          (find_parse-Split (suc n) items rest h)
          (λ back v b. parse_step-Step n fuel back rest v (omega arith)))
      (λ l. goes [] items h refl)

string_parser-step :
    (ns : List ℕ) (items : List Item) (rest : Bytes) {r : ReadResult}
    → Step items rest r
    → ((back : List Item)
        → All IsItem back
        → string_parser ns (string_text back rest) ≡ ended (meaning back) (b'"' ∷ rest))
    → after_step (string_parser ns) r ≡ ended (meaning items) (b'"' ∷ rest)
unfolding after_step store
string_parser-step ns items rest (done {out} e) h = ap (λ t. ended t (b'"' ∷ rest)) e
string_parser-step ns items rest (goes out back v e) h =
    rw (h back v) (ap (λ t. ended t (b'"' ∷ rest)) (sym e))

-- `string_parser` on a string of RFC 8259, for vector registers of any sizes: it stops at the closing
-- quote, and has stored what the items mean.
pub string_parser-Items :
    (sizes : List ℕ)
    → All (λ n. 0 < n) sizes
    → (items : List Item) (rest : Bytes) → All IsItem items
    → string_parser sizes (string_text items rest) ≡ ended (meaning items) (b'"' ∷ rest)
unfolding string_parser
string_parser-Items [] z items rest h =
    read_short-Items (suc (length (string_text items rest))) items rest h
      (omega (arith, length-string_text items rest h))
string_parser-Items (zero ∷ ns) (z, zs) items rest h = absurd (omega arith)
string_parser-Items (suc n ∷ ns) (z, zs) items rest h =
    string_parser-step ns items rest
      (parse_step-Step n (suc (length (string_text items rest))) items rest h
        (omega (arith, length-string_text items rest h)))
      (λ back v. string_parser-Items ns zs back rest v)
