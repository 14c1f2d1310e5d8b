-- ===== src/JsonIterator/Skip/Grammar.antt =====
-- The values of RFC 8259, as the iterators read over them.
use jsonifier.Prelude.{
  ℕ, ◌≤◌, ◌≡◌, ◌≢◌, ◌⊎◌, refl, ap, ◌∙◌, true, false, List, [], ◌∷◌, ◌++◌, Bytes, All, length,
  length-append, append_assoc, arith,
}
use jsonifier.Minifier.{whitespace_table}
use jsonifier.StringReader.Items.{Item, spelled, IsItem, string_text}

abbrev pub IsOpening : ℕ → Type 0
IsOpening c = (c ≡ b'{') ⊎ (c ≡ b'[')

abbrev pub IsClosing : ℕ → Type 0
IsClosing c = (c ≡ b'}') ⊎ (c ≡ b']')

-- A byte that is no quote, bracket or NUL: white space, a comma, a colon, or of a number or literal name.
abbrev pub IsOther : ℕ → Type 0
IsOther c = (c ≢ b'"') × (c ≢ b'{') × (c ≢ b'[') × (c ≢ b'}') × (c ≢ b']') × (c ≢ 0)

-- Strings, other bytes and brackets that match in number: what stands inside an array or object.
pub data IsBalanced : Bytes → Type 0 where
  nothing : IsBalanced []
  other : {c : ℕ} {s : Bytes} → IsOther c → IsBalanced s → IsBalanced (c ∷ s)
  quoted :
      (items : List Item) {s : Bytes}
      → All IsItem items
      → IsBalanced s
      → IsBalanced (b'"' ∷ string_text items s)
  nested :
      {opening closing : ℕ} {i s : Bytes}
      → IsOpening opening
      → IsClosing closing
      → IsBalanced i
      → IsBalanced s
      → IsBalanced (opening ∷ (i ++ closing ∷ s))

-- A byte of a number or a literal name.
abbrev pub IsPlainByte : ℕ → Type 0
IsPlainByte c = (c ≢ b',') × (c ≢ b']') × (c ≢ b'}') × (c ≢ 0) × (whitespace_table c ≡ false)

-- A string, a number or literal name, an array or an object.
pub data IsValue : Bytes → Type 0 where
  text : (items : List Item) → All IsItem items → IsValue (b'"' ∷ string_text items [])
  name : {c : ℕ} {s : Bytes} → IsOther c → IsPlainByte c → All IsPlainByte s → IsValue (c ∷ s)
  container :
      {opening closing : ℕ} {i : Bytes}
      → IsOpening opening
      → IsClosing closing
      → IsBalanced i
      → IsValue (opening ∷ (i ++ closing ∷ []))

-- What may stand behind a value: the end, a comma, a closing bracket or white space.
abbrev pub EndsValue : Bytes → Type 0
EndsValue [] = Unit
EndsValue (c ∷ cs) = (c ≡ b',') ⊎ ((c ≡ b']') ⊎ ((c ≡ b'}') ⊎ (whitespace_table c ≡ true)))

pub string_text-append :
    (items : List Item) (s rest : Bytes)
    → string_text items s ++ rest ≡ string_text items (s ++ rest)
string_text-append [] s rest = refl
string_text-append (i ∷ is) s rest =
    append_assoc (spelled i) (string_text is s) rest
    ∙ ap (λ t. spelled i ++ t) (string_text-append is s rest)

pub le-string_text : (items : List Item) (s : Bytes) → length s ≤ length (string_text items s)
le-string_text [] s = omega arith
le-string_text (i ∷ is) s =
    omega (arith, length-append (spelled i) (string_text is s), le-string_text is s)
