-- ===== src/JsonIterator/Skip/Items.antt =====
-- include/jsonifier-incl/utilities/string_utils.hpp: `skipStringImpl` on the strings of RFC 8259.
use jsonifier.Prelude.{
  ℕ, ◌≡◌, refl, ap, ◌∙◌, false, List, [], ◌∷◌, ◌++◌, ◌==◌, Bytes, some, arith, All, append_assoc,
}
use jsonifier.CodePoint.{hex_value}
use jsonifier.CodePoint.Hex.{hex_value_bounds}
use jsonifier.CodePoint.Unicode.{Spells, spells, single, paired}
use jsonifier.StringReader.Items.{Item, plain, letter, escaped, spelled, IsItem, string_text}
use jsonifier.JsonIterator.Skip.Strings.{closing_quote}

pub closing_quote-plain :
    (c : ℕ) (s : Bytes)
    → (c == b'"') ≡ false
    → (c == b'\\') ≡ false
    → closing_quote false (c ∷ s) ≡ closing_quote false s
unfolding closing_quote
closing_quote-plain c s h k = rw (h, k) refl

pub closing_quote-escaped :
    (c : ℕ) (s : Bytes) → closing_quote false (b'\\' ∷ c ∷ s) ≡ closing_quote false s
unfolding closing_quote
closing_quote-escaped c s = refl

closing_hex : (c v : ℕ) → hex_value c ≡ some v → (c == b'\\') ≡ false
unfolding hex_value
closing_hex c v h = ground arith

closing_quote-hex :
    (c v : ℕ) (s : Bytes)
    → hex_value c ≡ some v
    → closing_quote false (c ∷ s) ≡ closing_quote false s
closing_quote-hex c v s h =
    closing_quote-plain c s (ground (arith, hex_value_bounds c h)) (closing_hex c v h)

closing_quote-Spells :
    (n : ℕ) (t s : Bytes) → Spells n t → closing_quote false (t ++ s) ≡ closing_quote false s
closing_quote-Spells n _ s (spells a b c d {va} {vb} {vc} {vd} ha hb hc hd e) =
    closing_quote-hex a va (b ∷ c ∷ d ∷ s) ha
    ∙ closing_quote-hex b vb (c ∷ d ∷ s) hb
    ∙ closing_quote-hex c vc (d ∷ s) hc
    ∙ closing_quote-hex d vd s hd

closing_quote-item :
    (i : Item) (s : Bytes) → IsItem i → closing_quote false (spelled i ++ s) ≡ closing_quote false s
closing_quote-item (plain c) s (l, q, b) = closing_quote-plain c s (ground arith) (ground arith)
closing_quote-item (letter c) s h = closing_quote-escaped c s
closing_quote-item (escaped cp t) s (h, single {t = lo} l p) =
    closing_quote-escaped b'u' (lo ++ s) ∙ closing_quote-Spells cp lo s p
closing_quote-item (escaped cp t) s (h, paired {s = hi} {t = lo} l p q) =
    closing_quote-escaped b'u' ((hi ++ b'\\' ∷ b'u' ∷ lo) ++ s)
    ∙ ap (closing_quote false) (append_assoc hi (b'\\' ∷ b'u' ∷ lo) s)
    ∙ closing_quote-Spells _ hi (b'\\' ∷ b'u' ∷ (lo ++ s)) p
    ∙ closing_quote-escaped b'u' (lo ++ s)
    ∙ closing_quote-Spells _ lo s q

closing_quote_end : (s : Bytes) → closing_quote false (b'"' ∷ s) ≡ some s
unfolding closing_quote
closing_quote_end s = refl

pub closing_quote-Items :
    (items : List Item) (rest : Bytes)
    → All IsItem items
    → closing_quote false (string_text items rest) ≡ some rest
closing_quote-Items [] rest h = closing_quote_end rest
closing_quote-Items (i ∷ is) rest (h, hs) =
    closing_quote-item i (string_text is rest) h ∙ closing_quote-Items is rest hs
