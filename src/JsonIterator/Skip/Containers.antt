-- ===== src/JsonIterator/Skip/Containers.antt =====
-- include/jsonifier-incl/utilities/json_iterator.hpp: the loop of `skipValue` over an array or object.
use jsonifier.Prelude.{
  ℕ, suc, ◌+◌, ◌^◌, ◌<◌, ◌≡◌, refl, ap, ◌∙◌, true, false, ◌∷◌, ◌++◌, ◌==◌, if◌then◌else◌, Bytes,
  length, length-append, append_assoc, arith, inl, inr, Bool-cases, sub64,
}
use jsonifier.Minifier.{whitespace_table}
use jsonifier.StringReader.Items.{string_text}
use jsonifier.JsonIterator.{ParseOptions, JsonIterator, Outcome, move_to}
use jsonifier.JsonIterator.Skip.{skip_mark}
use jsonifier.JsonIterator.Skip.Items.{closing_quote-Items}
use jsonifier.JsonIterator.Skip.Loop.{skip_all, skip_all-mark, skip_all_string, skip_all_white}
use jsonifier.JsonIterator.Skip.Grammar.{
  IsOpening, IsClosing, IsOther, IsBalanced, nothing, other, quoted, nested, string_text-append,
  le-string_text,
}

module _ (go : ℕ → JsonIterator → Outcome) (d c : ℕ) (st : JsonIterator) where
  skip_mark-other : IsOther c → skip_mark go d c st ≡ go d st
  unfolding skip_mark
  skip_mark-other h = ground arith

  skip_mark-opening : IsOpening c → d + 1 < 2 ^ 64 → skip_mark go d c st ≡ go (suc d) st
  unfolding skip_mark
  skip_mark-opening (inl e) l = rw e (ap (λ k. go k st) (omega arith))
  skip_mark-opening (inr e) l = rw e (ap (λ k. go k st) (omega arith))

  skip_mark-closing :
      IsClosing c
      → d + 1 < 2 ^ 64
      → skip_mark go (suc d) c st ≡ (if d == 0 then (true, st) else go d st)
  unfolding skip_mark
  skip_mark-closing (inl e) l =
      rw e (
        ap (λ k. if k == 0 then (true, st) else go k st) {x = sub64 (suc d) 1} {y = d}
          (omega arith))
  skip_mark-closing (inr e) l =
      rw e (
        ap (λ k. if k == 0 then (true, st) else go k st) {x = sub64 (suc d) 1} {y = d}
          (omega arith))

pub opening_facts :
    (c : ℕ)
    → IsOpening c
    → ((c == 0) ≡ false) × ((c == b'"') ≡ false) × (whitespace_table c ≡ false)
unfolding whitespace_table
opening_facts c (inl e) = rw e (refl, refl, refl)
opening_facts c (inr e) = rw e (refl, refl, refl)

closing_facts :
    (c : ℕ)
    → IsClosing c
    → ((c == 0) ≡ false) × ((c == b'"') ≡ false) × (whitespace_table c ≡ false)
unfolding whitespace_table
closing_facts c (inl e) = rw e (refl, refl, refl)
closing_facts c (inr e) = rw e (refl, refl, refl)

module _ (o : ParseOptions) where
  skip_all-other :
      (d c : ℕ) (st : JsonIterator) (cs : Bytes)
      → IsOther c
      → skip_all o d (move_to st (c ∷ cs)) ≡ skip_all o d (move_to st cs)
  skip_all-other d c st cs h = elim (Bool-cases (whitespace_table c)) [
    | inl w ↦ skip_all_white o d c st cs w
    | inr w ↦
        skip_all-mark o d st c cs (ground arith) (ground arith) w
        ∙ skip_mark-other (skip_all o) d c (move_to st cs) h
  ]

  skip_all-opening :
      (d c : ℕ) (st : JsonIterator) (cs : Bytes)
      → IsOpening c
      → d + 1 < 2 ^ 64
      → skip_all o d (move_to st (c ∷ cs)) ≡ skip_all o (suc d) (move_to st cs)
  skip_all-opening d c st cs h l =
      let (z, q, w) = opening_facts c h in
      skip_all-mark o d st c cs z q w ∙ skip_mark-opening (skip_all o) d c (move_to st cs) h l

  skip_all-closing :
      (d c : ℕ) (st : JsonIterator) (cs : Bytes)
      → IsClosing c
      → d + 1 < 2 ^ 64
      → skip_all o (suc d) (move_to st (c ∷ cs))
        ≡ (if d == 0 then (true, move_to st cs) else skip_all o d (move_to st cs))
  skip_all-closing d c st cs h l =
      let (z, q, w) = closing_facts c h in
      skip_all-mark o (suc d) st c cs z q w ∙ skip_mark-closing (skip_all o) d c (move_to st cs) h l

  skip_all-IsBalanced :
      (d : ℕ) (st : JsonIterator) (i rest : Bytes)
      → IsBalanced i
      → d + 1 + length i < 2 ^ 64
      → skip_all o (suc d) (move_to st (i ++ rest)) ≡ skip_all o (suc d) (move_to st rest)
  skip_all-IsBalanced d st _ rest nothing l = refl
  skip_all-IsBalanced d st _ rest (other {c} {s} h b) l =
      skip_all-other (suc d) c st (s ++ rest) h ∙ skip_all-IsBalanced d st s rest b (omega arith)
  skip_all-IsBalanced d st _ rest (quoted items {s} h b) l =
      ap (λ t. skip_all o (suc d) (move_to st (b'"' ∷ t))) (string_text-append items s rest)
      ∙ skip_all_string o (suc d) st (string_text items (s ++ rest)) (s ++ rest)
          (closing_quote-Items items (s ++ rest) h)
      ∙ skip_all-IsBalanced d st s rest b (omega (arith, le-string_text items s))
  skip_all-IsBalanced d st _ rest (nested {opening} {closing} {i} {s} ho hc bi bs) l =
      ap (λ t. skip_all o (suc d) (move_to st (opening ∷ t))) (append_assoc i (closing ∷ s) rest)
      ∙ skip_all-opening (suc d) opening st (i ++ (closing ∷ (s ++ rest))) ho
          (omega (arith, length-append i (closing ∷ s)))
      ∙ skip_all-IsBalanced (suc d) st i (closing ∷ (s ++ rest)) bi
          (omega (arith, length-append i (closing ∷ s)))
      ∙ skip_all-closing (suc d) closing st (s ++ rest) hc
          (omega (arith, length-append i (closing ∷ s)))
      ∙ ap
          (λ b.
            if b
            then (true, move_to st (s ++ rest))
            else skip_all o (suc d) (move_to st (s ++ rest)))
          {x = suc d == 0} {y = false} (ground arith)
      ∙ skip_all-IsBalanced d st s rest bs (omega (arith, length-append i (closing ∷ s)))

  pub skip_all-container :
      (opening closing : ℕ) (st : JsonIterator) (i rest : Bytes)
      → IsOpening opening
      → IsClosing closing
      → IsBalanced i
      → length i + 1 < 2 ^ 64
      → skip_all o 0 (move_to st (opening ∷ (i ++ closing ∷ rest))) ≡ (true, move_to st rest)
  skip_all-container opening closing st i rest ho hc b l =
      skip_all-opening 0 opening st (i ++ closing ∷ rest) ho (omega arith)
      ∙ skip_all-IsBalanced 0 st i (closing ∷ rest) b (omega arith)
      ∙ skip_all-closing 0 closing st rest hc (omega arith)
