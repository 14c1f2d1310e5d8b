-- ===== src/Prettifier/Steps.antt =====
-- The rounds of the loop of include/jsonifier-incl/serializing/prettifier.hpp on each kind of token.
use jsonifier.Prelude.{
  ℕ, zero, suc, ◌+◌, ◌^◌, ◌≤◌, ◌<◌, ◌≡◌, ◌⊎◌, inl, inr, ◌∙◌, refl, sym, ap, List, [], ◌∷◌, ◌++◌,
  append-nil, append_assoc, arith, Bytes, codes, peek, drop, length, Option, some,
}
use jsonifier.JsonTypes.{string, number, json_types}
use jsonifier.Prettifier.{
  PrettifyOptions, State, state, goes, newline, emit, emit_piece, round, after_round,
}
use jsonifier.Prettifier.Document.{IsScalar}
use jsonifier.JsonTypes.Tape.{join}
use jsonifier.Prettifier.Run.{run}

-- Fuel for `n` tokens, and a place in `state` for the depth.
pub record Ready (fuel n depth slots : ℕ) : Type 0 where
  pub enough : n < fuel
  pub room : depth ≤ slots
  pub some_slots : 0 < slots
  pub small : depth + n < 2 ^ 64

module _ (o : PrettifyOptions) where
  -- From the tokens `ts` the loop comes to the tokens `rest`, has stored `wrote`, and is as deep
  -- as before.
  pub record Ran (fuel : ℕ) (ts rest : List Bytes) (out : Bytes) (indent depth slots : ℕ)
      (wrote : Bytes) : Type 0 where
    pub left : ℕ
    pub size : ℕ
    pub ready : Ready left (length rest) depth size
    pub fewer : length rest ≤ length ts
    pub runs :
        run o fuel ts (state out indent depth slots)
        ≡ run o left rest (state (out ++ wrote) indent depth size)

  pub Ran-none :
      (fuel : ℕ) (ts : List Bytes) (out : Bytes) (indent depth slots : ℕ)
      → Ready fuel (length ts) depth slots
      → Ran fuel ts ts out indent depth slots []
  Ran-none fuel ts out indent depth slots r = record {
    left = fuel;
    size = slots;
    ready = r;
    fewer = omega arith;
    runs = ap (λ t. run o fuel ts (state t indent depth slots)) (sym (append-nil out));
  }

  pub Ran-then :
      {fuel : ℕ} {ts mid rest : List Bytes} {out : Bytes} {indent depth slots : ℕ} {a b : Bytes}
      → Ran fuel ts mid out indent depth slots a
      → ((left size : ℕ)
          → Ready left (length mid) depth size
          → Ran left mid rest (out ++ a) indent depth size b)
      → Ran fuel ts rest out indent depth slots (a ++ b)
  Ran-then {rest = rest} {out} {indent} {depth} {a = a} {b = b} r next =
      let s = next r.left r.size r.ready in
      record {
        left = s.left;
        size = s.size;
        ready = s.ready;
        fewer = omega (arith, r.fewer, s.fewer);
        runs =
            r.runs
            ∙ s.runs
            ∙ ap (λ t. run o s.left rest (state t indent depth s.size)) (append_assoc out a b);
      }

  -- one round
  pub step :
      (f n : ℕ) (t : Bytes) (ts : List Bytes) (st st' : State)
      → round o
          (json_types (peek (t ++ join ts)))
          (peek (t ++ join ts))
          (some t)
          (some (peek (join ts)))
          st
        ≡ goes n st'
      → run o (suc f) (t ∷ ts) st ≡ run o f (drop n (t ∷ ts)) st'
  unfolding run after_round
  step f n t ts st st' h = ap (after_round (λ n st'. run o f (drop n (t ∷ ts)) st')) h

  emit-Ran :
      (fuel : ℕ) (t : Bytes) (ts : List Bytes) (out : Bytes) (indent depth slots : ℕ)
      (wrote : Bytes)
      → Ready fuel (length (t ∷ ts)) depth slots
      → round o
          (json_types (peek (t ++ join ts)))
          (peek (t ++ join ts))
          (some t)
          (some (peek (join ts)))
          (state out indent depth slots)
        ≡ goes 1 (state (out ++ wrote) indent depth slots)
      → Ran fuel (t ∷ ts) ts out indent depth slots wrote
  emit-Ran zero t ts out indent depth slots wrote r h = absurd (omega (arith, r.enough))
  emit-Ran (suc f) t ts out indent depth slots wrote r h = record {
    left = f;
    size = slots;
    ready = record {
      enough = omega (arith, r.enough);
      room = r.room;
      some_slots = r.some_slots;
      small = omega (arith, r.small);
    };
    fewer = omega arith;
    runs = step f 1 t ts _ _ h;
  }

  pub comma-Ran :
      (fuel : ℕ) (ts : List Bytes) (out : Bytes) (indent depth slots : ℕ)
      → Ready fuel (suc (length ts)) depth slots
      → Ran fuel (codes "," ∷ ts) ts out indent depth slots (b',' ∷ newline o indent)
  unfolding round emit_piece json_types
  comma-Ran fuel ts out indent depth slots r =
      emit-Ran fuel (codes ",") ts out indent depth slots _ r refl

  pub colon-Ran :
      (fuel : ℕ) (ts : List Bytes) (out : Bytes) (indent depth slots : ℕ)
      → Ready fuel (suc (length ts)) depth slots
      → Ran fuel (codes ":" ∷ ts) ts out indent depth slots (b':' ∷ o.indent_char ∷ [])
  unfolding round emit_piece json_types
  colon-Ran fuel ts out indent depth slots r =
      emit-Ran fuel (codes ":") ts out indent depth slots _ r refl

  -- a string or a number
  round_text :
      (t s : Bytes) (next : Option ℕ) (st : State)
      → (json_types (peek t) ≡ string) ⊎ (json_types (peek t) ≡ number)
      → round o (json_types (peek (t ++ s))) (peek (t ++ s)) (some t) next st ≡ goes 1 (emit t st)
  unfolding round emit_piece json_types
  round_text [] s next st (inl e) = ground arith
  round_text [] s next st (inr e) = ground arith
  round_text (c ∷ cs) s next st (inl e) = rw e refl
  round_text (c ∷ cs) s next st (inr e) = rw e refl

  round_scalar :
      (t s : Bytes) (next : Option ℕ) (st : State)
      → IsScalar t
      → round o (json_types (peek (t ++ s))) (peek (t ++ s)) (some t) next st ≡ goes 1 (emit t st)
  unfolding round emit_piece json_types
  round_scalar t s next st (inl h) = round_text t s next st h
  round_scalar t s next st (inr (inl e)) = rw e refl
  round_scalar t s next st (inr (inr (inl e))) = rw e refl
  round_scalar t s next st (inr (inr (inr e))) = rw e refl

  pub scalar-Ran :
      (fuel : ℕ) (t : Bytes) (ts : List Bytes) (out : Bytes) (indent depth slots : ℕ)
      → IsScalar t
      → Ready fuel (suc (length ts)) depth slots
      → Ran fuel (t ∷ ts) ts out indent depth slots t
  scalar-Ran fuel t ts out indent depth slots h r =
      emit-Ran fuel t ts out indent depth slots t r
        (round_scalar t (join ts) (some (peek (join ts))) _ h)
