-- ===== src/Prettifier/Containers.antt =====
-- The rounds of the loop of include/jsonifier-incl/serializing/prettifier.hpp on brackets and members.
use mathlib.Core.Path.{ap₂}
use jsonifier.Prelude.{
  ℕ, zero, suc, ◌+◌, ◌-◌, ◌*◌, ◌^◌, ◌≤◌, ◌<◌, ◌≡◌, ◌≢◌, inl, inr, ◌∙◌, refl, ap, List, [], ◌∷◌,
  ◌++◌, append_assoc, arith, Bytes, codes, peek, length, ltb, leb, ◌==◌, some, Bool-cases, false,
}
use jsonifier.JsonTypes.{string, json_types}
use jsonifier.Prettifier.{
  PrettifyOptions, State, state, goes, newline, round, grow, open_before, open_container,
  open_sized, close_container,
}
use jsonifier.JsonTypes.Tape.{join}
use jsonifier.Prettifier.Run.{run}
use jsonifier.Prettifier.Steps.{Ready, Ran, Ran-then, step, scalar-Ran, colon-Ran}

module _ (o : PrettifyOptions) where
  -- A pair of brackets of one kind.
  pub record Brackets (opening closing : ℕ) : Type 0 where
    pub opens :
        (empty : ℕ → ℕ) × ((s t : Bytes) (next indent : ℕ) (out : Bytes) (depth slots : ℕ)
          → round o (json_types opening) opening (some t) (some next) (state out indent depth slots)
            ≡ open_container o opening closing (empty indent) next (state out indent depth slots))
    pub closes :
        (t : Bytes) (next : ℕ) (st : State)
        → round o (json_types closing) closing (some t) (some next) st
          ≡ close_container o closing st

  pub square : Brackets b'[' b']'
  unfolding round open_before json_types
  square = record {
    opens = (λ n. n, λ s t next indent out depth slots. refl);
    closes = λ t next st. refl;
  }

  pub curly : Brackets b'{' b'}'
  unfolding round open_before json_types
  curly = record {
    opens = (λ n. n + o.indent_size, λ s t next indent out depth slots. refl);
    closes = λ t next st. refl;
  }

  record Grown (depth slots : ℕ) : Type 0 where
    size : ℕ
    grows : grow depth slots ≡ some size
    deeper : suc depth ≤ size

  grow-Grown : (depth slots : ℕ) → depth ≤ slots → 0 < slots → Grown depth slots
  unfolding grow
  grow-Grown depth slots h l = elim (Bool-cases (leb slots depth)) [
    | inl e ↦ record { size = slots * 2; grows = ground arith; deeper = ground arith }
    | inr e ↦ record { size = slots; grows = ground arith; deeper = ground arith }
  ]

  open_container_lem :
      (opening closing empty next indent depth slots : ℕ) (out : Bytes) {size : ℕ}
      → grow depth slots ≡ some size
      → next ≢ closing
      → depth < 2 ^ 64 - 1
      → open_container o opening closing empty next (state out indent depth slots)
        ≡ goes 1 (
            state
              (out ++ opening ∷ newline o (indent + o.indent_size))
              (indent + o.indent_size)
              (suc depth)
              size)
  unfolding open_container open_sized
  open_container_lem opening closing empty next indent depth slots out {size} g h d =
      rw (g, differs next closing h)
        (ap
          (λ d. goes 1 (
            state (out ++ opening ∷ newline o (indent + o.indent_size)) (indent + o.indent_size) d
              size))
          (omega arith))
    where
      differs : (a b : ℕ) → a ≢ b → (a == b) ≡ false
      differs a b h = ground arith

  close_container_lem :
      (closing indent depth slots : ℕ) (out : Bytes)
      → depth < 2 ^ 64 - 1
      → close_container o closing (state out (indent + o.indent_size) (suc depth) slots)
        ≡ goes 1 (state (out ++ (newline o indent ++ closing ∷ [])) indent depth slots)
  unfolding close_container
  close_container_lem closing indent depth slots out d = rw (no_error (indent) o.indent_size) (
      ap₂ (λ i d. goes 1 (state (out ++ (newline o i ++ closing ∷ [])) i d slots))
        (back indent o.indent_size) (omega arith))
    where
      no_error : (a b : ℕ) → ltb (a + b) b ≡ false
      no_error a b = ground arith

      back : (a b : ℕ) → a + b - b ≡ a
      back a b = omega arith

  record Closed (left : ℕ) (ts : List Bytes) (out : Bytes) (indent depth slots : ℕ) (closing : ℕ)
      : Type 0 where
    fuel : ℕ
    ready : Ready fuel (length ts) depth slots
    runs :
        run o left ((closing ∷ []) ∷ ts) (state out (indent + o.indent_size) (suc depth) slots)
        ≡ run o fuel ts (state (out ++ (newline o indent ++ closing ∷ [])) indent depth slots)

  close-Closed :
      {opening closing : ℕ}
      → Brackets opening closing
      → (left : ℕ) (ts : List Bytes) (out : Bytes) (indent depth slots : ℕ)
      → Ready left (suc (length ts)) (suc depth) slots
      → Closed left ts out indent depth slots closing
  close-Closed b zero ts out indent depth slots r = absurd (omega (arith, r.enough))
  close-Closed {closing = closing} b (suc f) ts out indent depth slots r = record {
    fuel = f;
    ready = record {
      enough = omega (arith, r.enough);
      room = omega (arith, r.room);
      some_slots = r.some_slots;
      small = omega (arith, r.small);
    };
    runs = step o f 1 (closing ∷ []) ts _ _ (
        b.closes (closing ∷ []) (peek (join ts)) _
        ∙ close_container_lem closing indent depth slots out (omega (arith, r.small)));
  }

  pub container-Ran :
      {opening closing : ℕ}
      → Brackets opening closing
      → (fuel : ℕ) (ts rest : List Bytes) (out : Bytes) (indent depth slots : ℕ) (body : Bytes)
      → Ready fuel (suc (length ts)) depth slots
      → peek (join ts) ≢ closing
      → ((left size : ℕ) (before : Bytes)
          → Ready left (length ts) (suc depth) size
          → Ran o left ts
              ((closing ∷ []) ∷ rest)
              before
              (indent + o.indent_size)
              (suc depth)
              size
              body)
      → Ran o fuel ((opening ∷ []) ∷ ts) rest out indent depth slots (
          (opening ∷ newline o (indent + o.indent_size))
          ++ (body ++ (newline o indent ++ closing ∷ [])))
  container-Ran b zero ts rest out indent depth slots body r ne inner =
      absurd (omega (arith, r.enough))
  container-Ran {opening} {closing} b (suc f) ts rest out indent depth slots body r ne inner =
      let g = grow-Grown depth slots r.room r.some_slots in
      let before = out ++ opening ∷ newline o (indent + o.indent_size) in
      let i = inner f g.size before (record {
        enough = omega (arith, r.enough);
        room = g.deeper;
        some_slots = omega (arith, g.deeper);
        small = omega (arith, r.small);
      }) in
      let c = close-Closed b i.left rest (before ++ body) indent depth i.size i.ready in
      record {
        left = c.fuel;
        size = i.size;
        ready = c.ready;
        fewer = omega (arith, i.fewer);
        runs =
            step o f 1 (opening ∷ []) ts _ _ (
              b.opens.1 [] (opening ∷ []) (peek (join ts)) indent out depth slots
              ∙ open_container_lem opening closing (b.opens.0 indent) (peek (join ts)) indent depth
                  slots out g.grows ne (omega (arith, r.small)))
            ∙ i.runs
            ∙ c.runs
            ∙ ap (λ t. run o c.fuel rest (state t indent depth i.size))
                (append_assoc before body (newline o indent ++ closing ∷ [])
                  ∙ append_assoc out (opening ∷ newline o (indent + o.indent_size))
                      (body ++ (newline o indent ++ closing ∷ [])));
      }

  open_sized_empty :
      (out : Bytes) (indent depth slots size : ℕ)
      → open_sized o b'[' b']' indent b']' (state out indent depth slots) (some size)
        ≡ goes 2 (state (out ++ codes "[]") indent depth size)
  unfolding open_sized
  open_sized_empty out indent depth slots size = refl

  -- an empty array
  pub empty-Ran :
      (fuel : ℕ) (rest : List Bytes) (out : Bytes) (indent depth slots : ℕ)
      → Ready fuel (suc (suc (length rest))) depth slots
      → Ran o fuel (codes "[" ∷ codes "]" ∷ rest) rest out indent depth slots (codes "[]")
  unfolding round open_before json_types open_container
  empty-Ran zero rest out indent depth slots r = absurd (omega (arith, r.enough))
  empty-Ran (suc f) rest out indent depth slots r =
      let g = grow-Grown depth slots r.room r.some_slots in
      record {
        left = f;
        size = g.size;
        ready = record {
          enough = omega (arith, r.enough);
          room = omega (arith, g.deeper);
          some_slots = omega (arith, g.deeper);
          small = omega (arith, r.small);
        };
        fewer = omega arith;
        runs =
            step o f 2 (codes "[") (codes "]" ∷ rest) (state out indent depth slots)
              (state (out ++ codes "[]") indent depth g.size)
              (ap (open_sized o b'[' b']' indent b']' (state out indent depth slots)) g.grows
                ∙ closed g.size);
      }
    where
      closed :
          (size : ℕ)
          → open_sized o b'[' b']' indent b']' (state out indent depth slots) (some size)
            ≡ goes 2 (state (out ++ codes "[]") indent depth size)
      closed size = open_sized_empty out indent depth slots size

  -- a key, a colon and what follows
  pub member-Ran :
      (fuel : ℕ) (k : Bytes) (ts rest : List Bytes) (out : Bytes) (indent depth slots : ℕ)
      (wrote : Bytes)
      → json_types (peek k) ≡ string
      → Ready fuel (suc (suc (length ts))) depth slots
      → ((left size : ℕ) (before : Bytes)
          → Ready left (length ts) depth size
          → Ran o left ts rest before indent depth size wrote)
      → Ran o fuel
          (k ∷ codes ":" ∷ ts)
          rest
          out
          indent
          depth
          slots
          (k ++ (b':' ∷ o.indent_char ∷ wrote))
  member-Ran fuel k ts rest out indent depth slots wrote h r next =
      Ran-then o (scalar-Ran o fuel k (codes ":" ∷ ts) out indent depth slots (inl (inl h)) r)
        (λ left size r'.
          Ran-then o (colon-Ran o left ts (out ++ k) indent depth size r')
            (λ left' size' r''. next left' size' _ r''))
