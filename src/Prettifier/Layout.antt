-- ===== src/Prettifier/Layout.antt =====
-- include/jsonifier-incl/serializing/prettifier.hpp on whole documents.
use jsonifier.Prelude.{
  ℕ, zero, suc, ◌+◌, ◌^◌, ◌<◌, ◌≡◌, ◌≢◌, inl, inr, ◌∙◌, refl, ap, List, [], ◌∷◌, ◌++◌, arith, Bytes,
  codes, peek, length,
}
use jsonifier.JsonTypes.{string, json_types}
use jsonifier.Prettifier.{PrettifyOptions, state, returned, impl}
use jsonifier.Prettifier.Document.{
  Json, scalar, array, object, Elements, no_elements, element, Members, no_members, member,
  IsScalar, IsDocument, AreElements, AreMembers, tokens, more_elements, more_members, pretty,
  pretty_elements, pretty_members,
}
use jsonifier.JsonTypes.Tape.{join, positions}
use jsonifier.Prettifier.Run.{run, loop-run}
use jsonifier.Prettifier.Steps.{Ready, Ran, Ran-none, Ran-then, comma-Ran, scalar-Ran}
use jsonifier.Prettifier.Containers.{square, curly, container-Ran, empty-Ran, member-Ran}

-- A value does not start with a closing bracket.
peek-string :
    (t s : Bytes) → json_types (peek t) ≡ string → (peek (t ++ s) ≢ b']') × (peek (t ++ s) ≢ b'}')
unfolding json_types
peek-string [] s h = absurd (ground arith)
peek-string (c ∷ cs) s h = (λ e. ground arith, λ e. ground arith)

peek-scalar : (t s : Bytes) → IsScalar t → peek (t ++ s) ≢ b']'
unfolding json_types
peek-scalar t s (inl (inl h)) = (peek-string t s h).0
peek-scalar [] s (inl (inr h)) = absurd (ground arith)
peek-scalar (c ∷ cs) s (inl (inr h)) = λ e. ground arith
peek-scalar t s (inr (inl e)) = rw e (λ e. ground arith)
peek-scalar t s (inr (inr (inl e))) = rw e (λ e. ground arith)
peek-scalar t s (inr (inr (inr e))) = rw e (λ e. ground arith)

peek-tokens : (v : Json) (rest : List Bytes) → IsDocument v → peek (join (tokens v rest)) ≢ b']'
unfolding tokens IsDocument
peek-tokens (scalar t) rest h = peek-scalar t (join rest) h
peek-tokens (array no_elements) rest h = λ e. omega arith
peek-tokens (array (element v es)) rest h = λ e. omega arith
peek-tokens (object no_members) rest h = λ e. omega arith
peek-tokens (object (member k v ms)) rest h = λ e. omega arith

module _ (o : PrettifyOptions) where
  mutual
    unfolding tokens more_elements more_members pretty pretty_elements pretty_members IsDocument
        AreElements AreMembers

    value-Ran :
        (v : Json) (fuel : ℕ) (rest : List Bytes) (out : Bytes) (indent depth slots : ℕ)
        → IsDocument v
        → Ready fuel (length (tokens v rest)) depth slots
        → Ran o fuel (tokens v rest) rest out indent depth slots (pretty o indent v)
    value-Ran (scalar t) fuel rest out indent depth slots h r =
        scalar-Ran o fuel t rest out indent depth slots h r
    value-Ran (array no_elements) fuel rest out indent depth slots h r =
        empty-Ran o fuel rest out indent depth slots r
    value-Ran (array (element v es)) fuel rest out indent depth slots (h, hs) r =
        container-Ran o (square o) fuel (tokens v (more_elements es (codes "]" ∷ rest))) rest out
          indent depth slots
          (pretty o (indent + o.indent_size) v ++ pretty_elements o (indent + o.indent_size) es) r
          (peek-tokens v _ h)
          (λ left size before r'.
            Ran-then o
              (value-Ran v left (more_elements es (codes "]" ∷ rest)) before
                (indent + o.indent_size) (suc depth) size h r')
              (λ left' size' r''.
                elements-Ran es left' (codes "]" ∷ rest) _ (indent + o.indent_size) (suc depth)
                  size' hs r''))
    value-Ran (object no_members) fuel rest out indent depth slots h r = elim h [ ]
    value-Ran (object (member k v ms)) fuel rest out indent depth slots (hk, h, hs) r =
        container-Ran o (curly o) fuel
          (k ∷ codes ":" ∷ tokens v (more_members ms (codes "}" ∷ rest))) rest out indent depth
          slots
          (k
            ++ (b':'
                ∷ o.indent_char
                ∷ (pretty o (indent + o.indent_size) v
                    ++ pretty_members o (indent + o.indent_size) ms)))
          r (peek-string k _ hk).1
          (λ left size before r'.
            member-Ran o left k (tokens v (more_members ms (codes "}" ∷ rest))) (codes "}" ∷ rest)
              before (indent + o.indent_size) (suc depth) size _ hk r'
              (λ left size before r'.
                Ran-then o
                  (value-Ran v left (more_members ms (codes "}" ∷ rest)) before
                    (indent + o.indent_size) (suc depth) size h r')
                  (λ left' size' r''.
                    members-Ran ms left' (codes "}" ∷ rest) _ (indent + o.indent_size) (suc depth)
                      size' hs r'')))

    elements-Ran :
        (es : Elements) (fuel : ℕ) (rest : List Bytes) (out : Bytes) (indent depth slots : ℕ)
        → AreElements es
        → Ready fuel (length (more_elements es rest)) depth slots
        → Ran o fuel
            (more_elements es rest)
            rest
            out
            indent
            depth
            slots
            (pretty_elements o indent es)
    elements-Ran no_elements fuel rest out indent depth slots h r =
        Ran-none o fuel rest out indent depth slots r
    elements-Ran (element v es) fuel rest out indent depth slots (h, hs) r =
        Ran-then o (comma-Ran o fuel (tokens v (more_elements es rest)) out indent depth slots r)
          (λ left size r'.
            Ran-then o (value-Ran v left (more_elements es rest) _ indent depth size h r')
              (λ left' size' r''. elements-Ran es left' rest _ indent depth size' hs r''))

    members-Ran :
        (ms : Members) (fuel : ℕ) (rest : List Bytes) (out : Bytes) (indent depth slots : ℕ)
        → AreMembers ms
        → Ready fuel (length (more_members ms rest)) depth slots
        → Ran o fuel (more_members ms rest) rest out indent depth slots (pretty_members o indent ms)
    members-Ran no_members fuel rest out indent depth slots h r =
        Ran-none o fuel rest out indent depth slots r
    members-Ran (member k v ms) fuel rest out indent depth slots (hk, h, hs) r =
        Ran-then o
          (comma-Ran o fuel (k ∷ codes ":" ∷ tokens v (more_members ms rest)) out indent depth slots
            r)
          (λ left size r'.
            member-Ran o left k (tokens v (more_members ms rest)) rest _ indent depth size _ hk r'
              (λ left size before r'.
                Ran-then o (value-Ran v left (more_members ms rest) before indent depth size h r')
                  (λ left' size' r''. members-Ran ms left' rest _ indent depth size' hs r'')))

length-positions : (p : ℕ) (ts : List Bytes) → length (positions p ts) ≡ length ts
length-positions p [] = refl
length-positions p (t ∷ ts) = ap suc (length-positions (p + length t) ts)

run-end :
    (o : PrettifyOptions) (fuel : ℕ) (out : Bytes) (indent depth slots : ℕ)
    → 0 < fuel
    → run o fuel [] (state out indent depth slots) ≡ returned out
unfolding run
run-end o zero out indent depth slots h = absurd (omega arith)
run-end o (suc fuel) out indent depth slots h = refl

-- The output for a document without white space and without an empty object, of fewer than 2 ^ 64 tokens,
-- read along their tape: each value, key and bracket in its place, and every line at the indentation of its depth.
pub impl-pretty :
    (o : PrettifyOptions) (v : Json)
    → IsDocument v
    → length (tokens v []) < 2 ^ 64
    → impl o (join (tokens v [])) (positions 0 (tokens v [])) ≡ returned (pretty o 0 v)
unfolding impl
impl-pretty o v h small =
    loop-run o (suc (length (positions 0 (tokens v [])))) [] (tokens v []) (state [] 0 0 64)
    ∙ r.runs
    ∙ run-end o r.left (pretty o 0 v) 0 0 r.size (omega (arith, r.ready.enough))
  where
    r : Ran o (suc (length (positions 0 (tokens v [])))) (tokens v []) [] [] 0 0 64 (pretty o 0 v)
    r = value-Ran o v (suc (length (positions 0 (tokens v [])))) [] [] 0 0 64 h (record {
      enough = omega (arith, length-positions 0 (tokens v []));
      room = omega arith;
      some_slots = omega arith;
      small = omega arith;
    })
