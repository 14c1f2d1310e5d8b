-- ===== src/Prettifier/Run.antt =====
-- The loop of include/jsonifier-incl/serializing/prettifier.hpp on the tokens of a text.
use mathlib.Core.Path.{ap₂}
use jsonifier.Prelude.{
  ℕ, zero, suc, ◌+◌, ◌≡◌, ◌∙◌, refl, sym, ap, List, [], ◌∷◌, ◌++◌, append_assoc, Bytes, peek, drop,
  length, length-append, some,
}
use jsonifier.JsonTypes.{json_types, tape_at, byte_in, slice_in}
use jsonifier.Prettifier.{
  PrettifyOptions, State, Round, goes, stops, failed, undefined, round, round_at, after_round,
  Result, returned, starved, loop, out_of,
}
use jsonifier.JsonTypes.Tape.{join, positions, byte_in-positions, slice_in_lem, next_byte}

-- The loop with a list of tokens for the text and the tape.
unfoldable pub run : PrettifyOptions → ℕ → List Bytes → State → Result
run o zero ts st = starved
run o (suc fuel) [] st = returned (out_of st)
run o (suc fuel) (t ∷ ts) st =
    after_round (λ n st'. run o fuel (drop n (t ∷ ts)) st')
      (round o (json_types (peek (t ++ join ts))) (peek (t ++ join ts)) (some t)
        (some (peek (join ts))) st)

after_round-ext :
    (go go' : ℕ → State → Result) (r : Round)
    → ((n : ℕ) (st : State) → go n st ≡ go' n st)
    → after_round go r ≡ after_round go' r
unfolding after_round
after_round-ext go go' (goes n st) h = h n st
after_round-ext go go' (stops out) h = refl
after_round-ext go go' failed h = refl
after_round-ext go go' undefined h = refl

-- The text and the tape behind some of the tokens.
record Behind (n : ℕ) (pre : Bytes) (ts : List Bytes) : Type 0 where
  before : Bytes
  same : pre ++ join ts ≡ before ++ join (drop n ts)
  tape : drop n (positions (length pre) ts) ≡ positions (length before) (drop n ts)

drop-Behind : (n : ℕ) (pre : Bytes) (ts : List Bytes) → Behind n pre ts
drop-Behind zero pre ts = record { before = pre; same = refl; tape = refl }
drop-Behind (suc n) pre [] = record { before = pre; same = refl; tape = refl }
drop-Behind (suc n) pre (t ∷ ts) =
    let b = drop-Behind n (pre ++ t) ts in
    record {
      before = b.before;
      same = sym (append_assoc pre t (join ts)) ∙ b.same;
      tape = ap (λ p. drop n (positions p ts)) (sym (length-append pre t)) ∙ b.tape;
    }

pub loop-run :
    (o : PrettifyOptions) (fuel : ℕ) (pre : Bytes) (ts : List Bytes) (st : State)
    → loop o (pre ++ join ts) fuel (positions (length pre) ts) st ≡ run o fuel ts st
unfolding loop run round_at
loop-run o zero pre ts st = refl
loop-run o (suc fuel) pre [] st = refl
loop-run o (suc fuel) pre (t ∷ ts) st =
    after_round-ext _ (λ n st'. run o fuel (drop n (t ∷ ts)) st') _
      (λ n st'.
        let b = drop-Behind n pre (t ∷ ts) in
        ap₂ (λ s tape. loop o s fuel tape st') b.same b.tape
        ∙ loop-run o fuel b.before (drop n (t ∷ ts)) st')
    ∙ ap (after_round (λ n st'. run o fuel (drop n (t ∷ ts)) st')) (
        ap
          (λ c.
            round_at o c
              (slice_in (pre ++ (t ++ join ts)) (length pre)
                (tape_at (pre ++ (t ++ join ts)) (positions (length pre + length t) ts)))
              (byte_in (pre ++ (t ++ join ts)) (positions (length pre + length t) ts)) st)
          (byte_in-positions pre (t ∷ ts))
        ∙ ap₂
            (λ piece next.
              round o (json_types (peek (t ++ join ts))) (peek (t ++ join ts)) piece next st)
            (slice_in_lem pre t ts) (next_byte pre t ts))
