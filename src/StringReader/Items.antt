-- ===== src/StringReader/Items.antt =====
-- The strings of RFC 8259, and what `string_parser` (include/jsonifier-incl/utilities/string_utils.hpp)
-- makes of them.
use jsonifier.Prelude.{
  ℕ, zero, suc, ◌≤◌, ◌<◌, ◌≡◌, ◌≢◌, ◌∙◌, refl, ap, List, [], ◌∷◌, ◌++◌, Bytes, length,
  length-append, arith, All,
}
use jsonifier.CodePoint.Utf8.{utf8, IsScalar}
use jsonifier.CodePoint.Unicode.{Escapes, single, paired, handle_unicode_code_point-Escapes}
use jsonifier.StringReader.{
  escape_map, ReadResult, ended, store, after_unicode, read_escape, read_short,
}

-- A byte as it is, a backslash and the letter behind it, or an escaped code point.
pub data Item : Type 0 where
  plain : ℕ → Item
  letter : ℕ → Item
  escaped : ℕ → Bytes → Item

abbrev pub spelled : Item → Bytes
spelled (plain c) = c ∷ []
spelled (letter c) = b'\\' ∷ c ∷ []
spelled (escaped cp t) = t

abbrev pub meant : Item → Bytes
meant (plain c) = c ∷ []
meant (letter c) = escape_map c ∷ []
meant (escaped cp t) = utf8 cp

abbrev pub IsItem : Item → Type 0
IsItem (plain c) = (32 ≤ c) × (c ≢ b'"') × (c ≢ b'\\')
IsItem (letter c) = escape_map c ≢ 0
IsItem (escaped cp t) = IsScalar cp × Escapes cp t

-- The text of a string with its closing quote, before `rest`.
abbrev pub string_text : List Item → Bytes → Bytes
string_text [] rest = b'"' ∷ rest
string_text (i ∷ is) rest = spelled i ++ string_text is rest

abbrev pub meaning : List Item → Bytes
meaning [] = []
meaning (i ∷ is) = meant i ++ meaning is

-- The loop goes on behind an escape, with its bytes stored.
pub read_escape-letter :
    (go : Bytes → ReadResult) (c : ℕ) (s : Bytes)
    → escape_map c ≢ 0
    → read_escape go (b'\\' ∷ c ∷ s) ≡ store (escape_map c ∷ []) (go s)
unfolding read_escape escape_map
read_escape-letter go c s h = ground arith

pub read_escape-escaped :
    (go : Bytes → ReadResult) (cp : ℕ) (t s : Bytes)
    → IsScalar cp
    → Escapes cp t
    → read_escape go (t ++ s) ≡ store (utf8 cp) (go s)
unfolding read_escape after_unicode
read_escape-escaped go cp t s h (single l p) =
    rw (handle_unicode_code_point-Escapes cp s h (single l p)) refl
read_escape-escaped go cp t s h (paired l p q) =
    rw (handle_unicode_code_point-Escapes cp s h (paired l p q)) refl

pub length-string_text :
    (items : List Item) (rest : Bytes)
    → All IsItem items
    → length items < length (string_text items rest)
length-string_text [] rest h = omega arith
length-string_text (plain c ∷ is) rest (h, hs) = omega (arith, length-string_text is rest hs)
length-string_text (letter c ∷ is) rest (h, hs) = omega (arith, length-string_text is rest hs)
length-string_text (escaped cp t ∷ is) rest ((h, single {t = lo} l p), hs) =
    omega (arith, length-string_text is rest hs, length-append lo (string_text is rest))
length-string_text (escaped cp t ∷ is) rest ((h, paired {s = hi} {t = lo} l p q), hs) = omega (
  arith,
  length-string_text is rest hs,
  length-append (hi ++ b'\\' ∷ b'u' ∷ lo) (string_text is rest),
)

-- one round of the plain loop
read_short-plain :
    (fuel c : ℕ) (s : Bytes)
    → IsItem (plain c)
    → read_short (suc fuel) (c ∷ s) ≡ store (c ∷ []) (read_short fuel s)
unfolding read_short
read_short-plain fuel c s h = ground arith

read_short-quote : (fuel : ℕ) (s : Bytes) → read_short (suc fuel) (b'"' ∷ s) ≡ ended [] (b'"' ∷ s)
unfolding read_short
read_short-quote fuel s = refl

read_short-backslash :
    (fuel : ℕ) (s : Bytes)
    → read_short (suc fuel) (b'\\' ∷ s) ≡ read_escape (read_short fuel) (b'\\' ∷ s)
unfolding read_short
read_short-backslash fuel s = refl

read_short-item :
    (fuel : ℕ) (i : Item) (s : Bytes)
    → IsItem i
    → read_short (suc fuel) (spelled i ++ s) ≡ store (meant i) (read_short fuel s)
read_short-item fuel (plain c) s h = read_short-plain fuel c s h
read_short-item fuel (letter c) s h =
    read_short-backslash fuel _ ∙ read_escape-letter (read_short fuel) c s h
read_short-item fuel (escaped cp t) s (h, single l p) =
    read_short-backslash fuel _ ∙ read_escape-escaped (read_short fuel) cp _ s h (single l p)
read_short-item fuel (escaped cp t) s (h, paired l p q) =
    read_short-backslash fuel _ ∙ read_escape-escaped (read_short fuel) cp _ s h (paired l p q)

store-ended : (a b rest : Bytes) → store a (ended b rest) ≡ ended (a ++ b) rest
unfolding store
store-ended a b rest = refl

pub read_short-Items :
    (fuel : ℕ) (items : List Item) (rest : Bytes)
    → All IsItem items
    → length items < fuel
    → read_short fuel (string_text items rest) ≡ ended (meaning items) (b'"' ∷ rest)
read_short-Items zero items rest h f = absurd (omega arith)
read_short-Items (suc fuel) [] rest h f = read_short-quote fuel rest
read_short-Items (suc fuel) (i ∷ is) rest (h, hs) f =
    read_short-item fuel i (string_text is rest) h
    ∙ ap (store (meant i)) (read_short-Items fuel is rest hs (omega arith))
    ∙ store-ended (meant i) (meaning is) (b'"' ∷ rest)
