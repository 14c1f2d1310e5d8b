-- ===== src/Minifier/Layout.antt =====
-- The layout of a document by include/jsonifier-incl/serializing/prettifier.hpp, as tokens with white space
-- behind them.
use jsonifier.Prelude.{
  ℕ, zero, suc, ◌+◌, ◌≡◌, ◌∙◌, refl, ap, true, List, [], ◌∷◌, ◌++◌, append-nil, append_assoc, Bytes,
  codes, replicate, arith,
}
use jsonifier.JsonTypes.Tape.{join}
use jsonifier.Prettifier.{PrettifyOptions, newline}
use jsonifier.Prettifier.Document.{
  Json, scalar, array, object, Elements, no_elements, element, Members, no_members, member, tokens,
  more_elements, more_members, pretty, pretty_elements, pretty_members,
}
use jsonifier.Minifier.{whitespace_table}
use jsonifier.Minifier.Compact.{IsWhite, IsToken, mark, Spaced, IsSpaced, compact}

-- The scalars and keys are tokens.
unfoldable mutual
  pub HasTokens : Json → Type 0
  HasTokens (scalar t) = IsToken t
  HasTokens (array es) = ElementsHaveTokens es
  HasTokens (object ms) = MembersHaveTokens ms

  pub ElementsHaveTokens : Elements → Type 0
  ElementsHaveTokens no_elements = Unit
  ElementsHaveTokens (element v es) = HasTokens v × ElementsHaveTokens es

  pub MembersHaveTokens : Members → Type 0
  MembersHaveTokens no_members = Unit
  MembersHaveTokens (member k v ms) = IsToken k × HasTokens v × MembersHaveTokens ms

-- what is behind the last token of an element or a member
abbrev pub behind_element : Elements → Bytes → Bytes
behind_element no_elements close = close
behind_element (element v es) close = []

abbrev pub behind_member : Members → Bytes → Bytes
behind_member no_members close = close
behind_member (member k v ms) close = []

abbrev pub joined : Spaced → Bytes
joined [] = []
joined (p ∷ ps) = (p.0 ++ p.1) ++ joined ps

regroup_more : (a b c e : Bytes) → a ++ (b ++ (c ++ e)) ≡ (a ++ (b ++ c)) ++ e
regroup_more a b c e = simp (append_assoc) refl

regroup :
    (a b c d z e : Bytes) → a ++ (b ++ (c ++ (d ++ (z ++ e)))) ≡ (a ++ ((b ++ c) ++ (d ++ z))) ++ e
regroup a b c d z e = simp (append_assoc) refl

regroup_more_member :
    (a k m b c e : Bytes)
    → a ++ ((k ++ []) ++ (m ++ (b ++ (c ++ e)))) ≡ (a ++ (k ++ (m ++ (b ++ c)))) ++ e
regroup_more_member a k m b c e = simp (append_assoc, append-nil) refl

regroup_member :
    (a k m b c d z e : Bytes)
    → a ++ ((k ++ []) ++ (m ++ (b ++ (c ++ (d ++ (z ++ e))))))
      ≡ (a ++ ((k ++ (m ++ (b ++ c))) ++ (d ++ z))) ++ e
regroup_member a k m b c d z e = simp (append_assoc, append-nil) refl

module _ (o : PrettifyOptions) (white : whitespace_table o.indent_char ≡ true) where
  -- The tokens of the layout, each with the white space behind it: `w` is behind the last.
  unfoldable mutual
    pub value_spaced : ℕ → Json → Bytes → Spaced → Spaced
    value_spaced n (scalar t) w rest = (t, w) ∷ rest
    value_spaced n (array no_elements) w rest = (codes "[", []) ∷ (codes "]", w) ∷ rest
    value_spaced n (array (element v es)) w rest =
        (codes "[", newline o (n + o.indent_size))
        ∷ value_spaced (n + o.indent_size) v (behind_element es (newline o n))
            (elements_spaced (n + o.indent_size) es (newline o n) ((codes "]", w) ∷ rest))
    value_spaced n (object no_members) w rest = (codes "{", []) ∷ (codes "}", w) ∷ rest
    value_spaced n (object (member k v ms)) w rest =
        (codes "{", newline o (n + o.indent_size))
        ∷ (k, [])
        ∷ (codes ":", o.indent_char ∷ [])
        ∷ value_spaced (n + o.indent_size) v (behind_member ms (newline o n))
            (members_spaced (n + o.indent_size) ms (newline o n) ((codes "}", w) ∷ rest))

    pub elements_spaced : ℕ → Elements → Bytes → Spaced → Spaced
    elements_spaced n no_elements close rest = rest
    elements_spaced n (element v es) close rest =
        (codes ",", newline o n)
        ∷ value_spaced n v (behind_element es close) (elements_spaced n es close rest)

    pub members_spaced : ℕ → Members → Bytes → Spaced → Spaced
    members_spaced n no_members close rest = rest
    members_spaced n (member k v ms) close rest =
        (codes ",", newline o n)
        ∷ (k, [])
        ∷ (codes ":", o.indent_char ∷ [])
        ∷ value_spaced n v (behind_member ms close) (members_spaced n ms close rest)

  pub newline-IsWhite : (n : ℕ) → IsWhite (newline o n)
  unfolding whitespace_table
  newline-IsWhite n = (refl, spaces n)
    where
      spaces : (n : ℕ) → IsWhite (replicate n o.indent_char)
      spaces zero = tt
      spaces (suc n) = (white, spaces n)

  pub behind_element-IsWhite :
      (es : Elements) (close : Bytes) → IsWhite close → IsWhite (behind_element es close)
  behind_element-IsWhite no_elements close h = h
  behind_element-IsWhite (element v es) close h = tt

  pub behind_member-IsWhite :
      (ms : Members) (close : Bytes) → IsWhite close → IsWhite (behind_member ms close)
  behind_member-IsWhite no_members close h = h
  behind_member-IsWhite (member k v ms) close h = tt

  mutual
    unfolding value_spaced elements_spaced members_spaced HasTokens ElementsHaveTokens
        MembersHaveTokens

    pub value_spaced-IsSpaced :
        (v : Json) (n : ℕ) (w : Bytes) (rest : Spaced)
        → HasTokens v
        → IsWhite w
        → IsSpaced rest
        → IsSpaced (value_spaced n v w rest)
    value_spaced-IsSpaced (scalar t) n w rest h k r = ((h, k), r)
    value_spaced-IsSpaced (array no_elements) n w rest h k r =
        ((mark b'[' (omega arith), tt), ((mark b']' (omega arith), k), r))
    value_spaced-IsSpaced (array (element v es)) n w rest (h, hs) k r = (
      (mark b'[' (omega arith), newline-IsWhite (n + o.indent_size)),
      value_spaced-IsSpaced v (n + o.indent_size) _ _ h
          (behind_element-IsWhite es _ (newline-IsWhite n))
          (elements_spaced-IsSpaced es (n + o.indent_size) (newline o n) _ hs (newline-IsWhite n)
            ((mark b']' (omega arith), k), r)),
    )
    value_spaced-IsSpaced (object no_members) n w rest h k r =
        ((mark b'{' (omega arith), tt), ((mark b'}' (omega arith), k), r))
    value_spaced-IsSpaced (object (member key v ms)) n w rest (hk, h, hs) k r = (
      (mark b'{' (omega arith), newline-IsWhite (n + o.indent_size)),
      (
        (hk, tt),
        (
          (mark b':' (omega arith), (white, tt)),
          value_spaced-IsSpaced v (n + o.indent_size) _ _ h
              (behind_member-IsWhite ms _ (newline-IsWhite n))
              (members_spaced-IsSpaced ms (n + o.indent_size) (newline o n) _ hs (newline-IsWhite n)
                ((mark b'}' (omega arith), k), r)),
        ),
      ),
    )

    pub elements_spaced-IsSpaced :
        (es : Elements) (n : ℕ) (close : Bytes) (rest : Spaced)
        → ElementsHaveTokens es
        → IsWhite close
        → IsSpaced rest
        → IsSpaced (elements_spaced n es close rest)
    elements_spaced-IsSpaced no_elements n close rest h k r = r
    elements_spaced-IsSpaced (element v es) n close rest (h, hs) k r = (
      (mark b',' (omega arith), newline-IsWhite n),
      value_spaced-IsSpaced v n _ _ h (behind_element-IsWhite es close k)
          (elements_spaced-IsSpaced es n close rest hs k r),
    )

    pub members_spaced-IsSpaced :
        (ms : Members) (n : ℕ) (close : Bytes) (rest : Spaced)
        → MembersHaveTokens ms
        → IsWhite close
        → IsSpaced rest
        → IsSpaced (members_spaced n ms close rest)
    members_spaced-IsSpaced no_members n close rest h k r = r
    members_spaced-IsSpaced (member key v ms) n close rest (hk, h, hs) k r = (
      (mark b',' (omega arith), newline-IsWhite n),
      (
        (hk, tt),
        (
          (mark b':' (omega arith), (white, tt)),
          value_spaced-IsSpaced v n _ _ h (behind_member-IsWhite ms close k)
              (members_spaced-IsSpaced ms n close rest hs k r),
        ),
      ),
    )

  mutual
    unfolding value_spaced elements_spaced members_spaced tokens more_elements more_members

    -- `z` is what is behind the tokens of `rest`.
    pub value-compact :
        (v : Json) (n : ℕ) (w : Bytes) (rest : Spaced) (z : Bytes) (ts : List Bytes)
        → compact rest ++ z ≡ join ts
        → compact (value_spaced n v w rest) ++ z ≡ join (tokens v ts)
    value-compact (scalar t) n w rest z ts h = append_assoc t (compact rest) z ∙ ap (λ s. t ++ s) h
    value-compact (array no_elements) n w rest z ts h = ap (λ s. b'[' ∷ b']' ∷ s) h
    value-compact (array (element v es)) n w rest z ts h =
        ap (λ s. b'[' ∷ s)
          (value-compact v (n + o.indent_size) _ _ z _
            (elements-compact es (n + o.indent_size) _ _ z _ (ap (λ s. b']' ∷ s) h)))
    value-compact (object no_members) n w rest z ts h = ap (λ s. b'{' ∷ b'}' ∷ s) h
    value-compact (object (member k v ms)) n w rest z ts h =
        ap (λ s. b'{' ∷ s) (append_assoc k _ z)
        ∙ ap (λ s. b'{' ∷ (k ++ (b':' ∷ s)))
            (value-compact v (n + o.indent_size) _ _ z _
              (members-compact ms (n + o.indent_size) _ _ z _ (ap (λ s. b'}' ∷ s) h)))

    pub elements-compact :
        (es : Elements) (n : ℕ) (close : Bytes) (rest : Spaced) (z : Bytes) (ts : List Bytes)
        → compact rest ++ z ≡ join ts
        → compact (elements_spaced n es close rest) ++ z ≡ join (more_elements es ts)
    elements-compact no_elements n close rest z ts h = h
    elements-compact (element v es) n close rest z ts h =
        ap (λ s. b',' ∷ s) (value-compact v n _ _ z _ (elements-compact es n close rest z ts h))

    pub members-compact :
        (ms : Members) (n : ℕ) (close : Bytes) (rest : Spaced) (z : Bytes) (ts : List Bytes)
        → compact rest ++ z ≡ join ts
        → compact (members_spaced n ms close rest) ++ z ≡ join (more_members ms ts)
    members-compact no_members n close rest z ts h = h
    members-compact (member k v ms) n close rest z ts h =
        ap (λ s. b',' ∷ s) (append_assoc k _ z)
        ∙ ap (λ s. b',' ∷ (k ++ (b':' ∷ s)))
            (value-compact v n _ _ z _ (members-compact ms n close rest z ts h))

  mutual
    unfolding value_spaced elements_spaced members_spaced pretty pretty_elements pretty_members

    pub value-joined :
        (v : Json) (n : ℕ) (w : Bytes) (rest : Spaced)
        → joined (value_spaced n v w rest) ≡ pretty o n v ++ (w ++ joined rest)
    value-joined (scalar t) n w rest = append_assoc t w (joined rest)
    value-joined (array no_elements) n w rest = refl
    value-joined (array (element v es)) n w rest =
        ap (λ s. (b'[' ∷ newline o (n + o.indent_size)) ++ s)
          (value-joined v (n + o.indent_size) _ _
            ∙ ap (λ s. pretty o (n + o.indent_size) v ++ s)
                (elements-joined es (n + o.indent_size) (newline o n) ((codes "]", w) ∷ rest)))
        ∙ regroup (b'[' ∷ newline o (n + o.indent_size)) (pretty o (n + o.indent_size) v)
            (pretty_elements o (n + o.indent_size) es) (newline o n) (codes "]") (w ++ joined rest)
    value-joined (object no_members) n w rest = refl
    value-joined (object (member k v ms)) n w rest =
        ap
          (λ s. (b'{' ∷ newline o (n + o.indent_size)) ++ ((k ++ []) ++ (b':' ∷ o.indent_char ∷ s)))
          (value-joined v (n + o.indent_size) _ _
            ∙ ap (λ s. pretty o (n + o.indent_size) v ++ s)
                (members-joined ms (n + o.indent_size) (newline o n) ((codes "}", w) ∷ rest)))
        ∙ regroup_member (b'{' ∷ newline o (n + o.indent_size)) k (b':' ∷ o.indent_char ∷ [])
            (pretty o (n + o.indent_size) v) (pretty_members o (n + o.indent_size) ms) (newline o n)
            (codes "}") (w ++ joined rest)

    pub elements-joined :
        (es : Elements) (n : ℕ) (close : Bytes) (rest : Spaced)
        → behind_element es close ++ joined (elements_spaced n es close rest)
          ≡ pretty_elements o n es ++ (close ++ joined rest)
    elements-joined no_elements n close rest = refl
    elements-joined (element v es) n close rest =
        ap (λ s. (b',' ∷ newline o n) ++ s)
          (value-joined v n _ _ ∙ ap (λ s. pretty o n v ++ s) (elements-joined es n close rest))
        ∙ regroup_more (b',' ∷ newline o n) (pretty o n v) (pretty_elements o n es)
            (close ++ joined rest)

    pub members-joined :
        (ms : Members) (n : ℕ) (close : Bytes) (rest : Spaced)
        → behind_member ms close ++ joined (members_spaced n ms close rest)
          ≡ pretty_members o n ms ++ (close ++ joined rest)
    members-joined no_members n close rest = refl
    members-joined (member k v ms) n close rest =
        ap (λ s. (b',' ∷ newline o n) ++ ((k ++ []) ++ (b':' ∷ o.indent_char ∷ s)))
          (value-joined v n _ _ ∙ ap (λ s. pretty o n v ++ s) (members-joined ms n close rest))
        ∙ regroup_more_member (b',' ∷ newline o n) k (b':' ∷ o.indent_char ∷ []) (pretty o n v)
            (pretty_members o n ms) (close ++ joined rest)
