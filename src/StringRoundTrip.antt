-- ===== src/StringRoundTrip.antt =====
-- include/jsonifier-incl/utilities/string_utils.hpp: what `string_serializer` writes, read by
-- `string_parser`.
use jsonifier.Prelude.{
  ℕ, ◌/◌, ◌%◌, ◌≤◌, ◌<◌, ◌≡◌, ◌≢◌, ◌∙◌, refl, sym, ap, List, [], ◌∷◌, ◌++◌, append_assoc, ltb, ◌==◌,
  Bytes, next, arith, All, Bool-cases, inl, inr, some,
}
use mathlib.Core.Path.{subst, ap₂}
use jsonifier.CodePoint.{hex_value}
use jsonifier.CodePoint.Utf8.{utf8}
use jsonifier.CodePoint.Unicode.{spells, single}
use jsonifier.StringWriter.{
  hex_upper, escape_table, escape_byte, short_impl, string_serializer, write_string,
}
use jsonifier.StringWriter.Blocks.{Sizes, string_serializer-short_impl}
use jsonifier.StringReader.{escape_map, ended, string_parser}
use jsonifier.StringReader.Items.{
  Item, plain, letter, escaped, spelled, meant, IsItem, string_text, meaning,
}
use jsonifier.StringReader.Blocks.{string_parser-Items}

-- A byte that the writer gives a spelling of JSON: no NUL, no BEL and no vertical tab.
abbrev pub IsText : ℕ → Type 0
IsText c = (0 < c) × (c ≢ 7) × (c ≢ 11)

-- The item that the writer spells for `c`.
record Written (c : ℕ) : Type 0 where
  item : Item
  written : spelled item ≡ escape_byte c
  read : meant item ≡ c ∷ []
  valid : IsItem item

or_else {ℓ} : (P : ℕ → Type ℓ) (c k : ℕ) → P k → (c ≢ k → P c) → P c
or_else P c k at_k other = elim (Bool-cases (c == k)) [
  | inl e ↦ subst P (ground arith) at_k
  | inr e ↦ other (ground arith)
]

-- the letters of the escapes, and the bytes that they stand for
by_letter : (c l : ℕ) → escape_table c ≡ b'\\' ∷ l ∷ [] → escape_map l ≡ c → 0 < c → Written c
unfolding escape_byte
by_letter c l w r h = record {
  item = letter l;
  written = rw (escape_byte, w) refl;
  read = ap (λ t. t ∷ []) r;
  valid = omega (arith, r);
}

hex_value-hex_upper : (d : ℕ) → d < 16 → hex_value (hex_upper d) ≡ some d
unfolding hex_value
hex_value-hex_upper d h = ground arith

utf8_ascii : (c : ℕ) → c < 128 → utf8 c ≡ c ∷ []
utf8_ascii c h = ground arith

by_digits :
    (c : ℕ)
    → c < 32
    → c ≢ 8
    → c ≢ 9
    → c ≢ 10
    → c ≢ 12
    → c ≢ 13
    → IsText c
    → escape_byte c ≡ b'\\' ∷ b'u' ∷ b'0' ∷ b'0' ∷ hex_upper (c / 16) ∷ hex_upper (c % 16) ∷ []
unfolding escape_byte escape_table
by_digits c h h8 h9 h10 h12 h13 t = ground arith

by_plain : (c : ℕ) → 32 ≤ c → c ≢ b'"' → c ≢ b'\\' → escape_byte c ≡ c ∷ []
unfolding escape_byte escape_table
by_plain c h q b = ground arith

byte-Written : (c : ℕ) → IsText c → Written c
unfolding escape_table escape_map hex_value
byte-Written c t = or_else Written c 8 (by_letter 8 b'b' refl refl (omega arith)) (λ h8.
    or_else Written c 9 (by_letter 9 b't' refl refl (omega arith)) (λ h9.
      or_else Written c 10 (by_letter 10 b'n' refl refl (omega arith)) (λ h10.
        or_else Written c 12 (by_letter 12 b'f' refl refl (omega arith)) (λ h12.
          or_else Written c 13 (by_letter 13 b'r' refl refl (omega arith)) (λ h13.
            or_else Written c b'"' (by_letter b'"' b'"' refl refl (omega arith)) (λ hq.
              or_else Written c b'\\' (by_letter b'\\' b'\\' refl refl (omega arith)) (λ hb.
                elim (Bool-cases (ltb c 32)) [
                  | inl e ↦ record {
                    item =
                        escaped c (
                          b'\\'
                          ∷ b'u'
                          ∷ b'0'
                          ∷ b'0'
                          ∷ hex_upper (c / 16)
                          ∷ hex_upper (c % 16)
                          ∷ []);
                    written = sym (by_digits c (ground arith) h8 h9 h10 h12 h13 t);
                    read = utf8_ascii c (ground arith);
                    valid = (
                      (ground arith, inl (ground arith)),
                      single (ground arith) (
                          spells b'0' b'0' (hex_upper (c / 16)) (hex_upper (c % 16)) refl refl
                            (hex_value-hex_upper (c / 16) (ground arith))
                            (hex_value-hex_upper (c % 16) (omega arith)) (omega arith)),
                    );
                  }
                  | inr e ↦ record {
                    item = plain c;
                    written = sym (by_plain c (ground arith) hq hb);
                    read = refl;
                    valid = (ground arith, hq, hb);
                  }
                ])))))))

-- The items of a whole text.
record Writing (s : Bytes) : Type 0 where
  items : List Item
  written : (rest : Bytes) → string_text items rest ≡ short_impl s ++ b'"' ∷ rest
  read : meaning items ≡ s
  valid : All IsItem items

text-Writing : (s : Bytes) → All IsText s → Writing s
unfolding short_impl
text-Writing [] h = record { items = []; written = λ rest. refl; read = refl; valid = tt }
text-Writing (c ∷ cs) (h, hs) =
    let w = byte-Written c h in
    let ws = text-Writing cs hs in
    record {
      items = w.item ∷ ws.items;
      written = λ rest.
          ap₂ (λ a b. a ++ b) w.written (ws.written rest)
          ∙ sym (append_assoc (escape_byte c) (short_impl cs) (b'"' ∷ rest));
      read = ap₂ (λ a b. a ++ b) w.read ws.read;
      valid = (w.valid, ws.valid);
    }

no_nul : (s : Bytes) → All IsText s → All (λ c. 0 < c) s
no_nul [] h = tt
no_nul (c ∷ cs) (h, hs) = (h.0, no_nul cs hs)

write_string_lem :
    (sizes : List ℕ)
    → Sizes sizes
    → (s rest : Bytes) → All IsText s
    → next (write_string sizes s ++ rest) ≡ short_impl s ++ b'"' ∷ rest
unfolding write_string short_impl
write_string_lem sizes z [] rest h = refl
write_string_lem sizes z (c ∷ cs) rest h =
    append_assoc (string_serializer sizes (c ∷ cs)) (b'"' ∷ []) rest
    ∙ ap (λ t. t ++ b'"' ∷ rest) (string_serializer-short_impl sizes z (c ∷ cs) (no_nul (c ∷ cs) h))

-- A text without NUL, BEL and vertical tab is written as a JSON string that the parser reads back
-- whole, and the parser stops at the closing quote. The registers of the writer and those of the
-- reader have any sizes but 0.
pub string_parser-write_string :
    (writes reads : List ℕ)
    → Sizes writes
    → Sizes reads
    → (s rest : Bytes) → All IsText s
    → string_parser reads (next (write_string writes s ++ rest)) ≡ ended s (b'"' ∷ rest)
string_parser-write_string writes reads zw zr s rest h =
    let w = text-Writing s h in
    ap (string_parser reads) (write_string_lem writes zw s rest h ∙ sym (w.written rest))
    ∙ string_parser-Items reads zr w.items rest w.valid
    ∙ ap (λ t. ended t (b'"' ∷ rest)) w.read
