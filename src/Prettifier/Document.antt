-- ===== src/Prettifier/Document.antt =====
-- JSON documents without white space, their tokens, and their layout with a line for each value.
use jsonifier.Prelude.{ℕ, ◌+◌, ◌≡◌, ◌⊎◌, List, [], ◌∷◌, ◌++◌, Bytes, codes, peek}
use jsonifier.JsonTypes.{string, number, json_types}
use jsonifier.Prettifier.{PrettifyOptions, newline}

-- A scalar and a key are their text. An object's members are in order.
mutual
  pub data Json : Type 0 where
    scalar : Bytes → Json
    array : Elements → Json
    object : Members → Json

  pub data Elements : Type 0 where
    no_elements : Elements
    element : Json → Elements → Elements

  pub data Members : Type 0 where
    no_members : Members
    member : Bytes → Json → Members → Members

-- A string or number, by its first byte, or a literal name.
abbrev pub IsScalar : Bytes → Type 0
IsScalar t =
    ((json_types (peek t) ≡ string) ⊎ (json_types (peek t) ≡ number))
    ⊎ ((t ≡ codes "null") ⊎ ((t ≡ codes "true") ⊎ (t ≡ codes "false")))

-- The scalars and keys are scalars and strings, and no object is empty.
unfoldable mutual
  pub IsDocument : Json → Type 0
  IsDocument (scalar t) = IsScalar t
  IsDocument (array es) = AreElements es
  IsDocument (object no_members) = ⊥
  IsDocument (object (member k v ms)) = AreMembers (member k v ms)

  pub AreElements : Elements → Type 0
  AreElements no_elements = Unit
  AreElements (element v es) = IsDocument v × AreElements es

  pub AreMembers : Members → Type 0
  AreMembers no_members = Unit
  AreMembers (member k v ms) = (json_types (peek k) ≡ string) × IsDocument v × AreMembers ms

-- The tokens of a value, before those of `rest`.
unfoldable mutual
  pub tokens : Json → List Bytes → List Bytes
  tokens (scalar t) rest = t ∷ rest
  tokens (array no_elements) rest = codes "[" ∷ codes "]" ∷ rest
  tokens (array (element v es)) rest = codes "[" ∷ tokens v (more_elements es (codes "]" ∷ rest))
  tokens (object no_members) rest = codes "{" ∷ codes "}" ∷ rest
  tokens (object (member k v ms)) rest =
      codes "{" ∷ k ∷ codes ":" ∷ tokens v (more_members ms (codes "}" ∷ rest))

  pub more_elements : Elements → List Bytes → List Bytes
  more_elements no_elements rest = rest
  more_elements (element v es) rest = codes "," ∷ tokens v (more_elements es rest)

  pub more_members : Members → List Bytes → List Bytes
  more_members no_members rest = rest
  more_members (member k v ms) rest = codes "," ∷ k ∷ codes ":" ∷ tokens v (more_members ms rest)

-- The layout of a value that starts at an indentation.
module _ (o : PrettifyOptions) where
  unfoldable mutual
    pub pretty : ℕ → Json → Bytes
    pretty n (scalar t) = t
    pretty n (array no_elements) = codes "[]"
    pretty n (array (element v es)) =
        (b'[' ∷ newline o (n + o.indent_size))
        ++ ((pretty (n + o.indent_size) v ++ pretty_elements (n + o.indent_size) es)
            ++ (newline o n ++ codes "]"))
    pretty n (object no_members) = codes "{}"
    pretty n (object (member k v ms)) =
        (b'{' ∷ newline o (n + o.indent_size))
        ++ ((k
              ++ (b':'
                  ∷ o.indent_char
                  ∷ (pretty (n + o.indent_size) v ++ pretty_members (n + o.indent_size) ms)))
            ++ (newline o n ++ codes "}"))

    pub pretty_elements : ℕ → Elements → Bytes
    pretty_elements n no_elements = []
    pretty_elements n (element v es) = (b',' ∷ newline o n) ++ (pretty n v ++ pretty_elements n es)

    pub pretty_members : ℕ → Members → Bytes
    pretty_members n no_members = []
    pretty_members n (member k v ms) =
        (b',' ∷ newline o n) ++ (k ++ (b':' ∷ o.indent_char ∷ (pretty n v ++ pretty_members n ms)))
