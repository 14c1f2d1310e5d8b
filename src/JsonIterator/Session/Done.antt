-- ===== src/JsonIterator/Session/Done.antt =====
-- include/jsonifier-incl/utilities/json_iterator.hpp: the end of a parse, and the greatest depth.
use mathlib.Core.Path.{subst}
use jsonifier.Prelude.{
  ℕ, ◌+◌, ◌^◌, ◌<◌, ◌≡◌, ◌⊎◌, refl, sym, ap, ◌∙◌, true, false, List, [], ◌∷◌, ◌==◌, Bytes, arith,
  Bool-cases, inl, inr, add64,
}
use jsonifier.JsonIterator.{
  ParseOptions, JsonIterator, Outcome, move_to, is_before_end, missing_object_start,
  missing_array_start,
}
use jsonifier.JsonIterator.Marks.{white, object_start, array_start, check_if_done_impl}
use jsonifier.JsonIterator.Depth.{Effect, increment_if_equals-Effect, or_reject-Effect}
use jsonifier.Minifier.{whitespace_table}
use jsonifier.Minifier.Compact.{IsWhite}
use jsonifier.JsonIterator.Whitespace.{trim_start, trim_start_white, trim_start_other}
use jsonifier.JsonIterator.White.{IsBlank, white_minified, white-trim_start}
use jsonifier.JsonIterator.Skip.Reports.{white-move_to}
use jsonifier.JsonIterator.Session.{
  Container, array, object, objects, arrays, Session, Session-Agrees,
}

none_open : (cs : List Container) → objects cs ≡ 0 → arrays cs ≡ 0 → cs ≡ []
none_open [] p q = refl
none_open (object ∷ cs) p q = absurd (omega arith)
none_open (array ∷ cs) p q = absurd (omega arith)

nothing_left : (s : Bytes) → is_before_end s ≡ false → s ≡ []
nothing_left [] h = refl
nothing_left (c ∷ cs) h = absurd (ground arith)

-- Where nothing is left behind white space, there was white space only.
trim_start-nothing : (s : Bytes) → is_before_end (trim_start s) ≡ false → IsWhite s
trim_start-nothing [] h = tt
trim_start-nothing (c ∷ cs) h = elim (Bool-cases (whitespace_table c)) [
  | inl w ↦
      (w, trim_start-nothing cs (subst (λ t. is_before_end t ≡ false) (trim_start_white c cs w) h))
  | inr w ↦
      let k = subst (λ t. is_before_end t ≡ false) (trim_start_other c cs w) h in
      absurd (ground arith)
]

white-nothing :
    (o : ParseOptions) (st : JsonIterator)
    → is_before_end (white o st).iter ≡ false
    → IsBlank o st.iter
white-nothing o st h = elim (Bool-cases o.minified) [
  | inl m ↦
      let e =
        nothing_left st.iter
          (subst (λ st'. is_before_end st'.iter ≡ false) (white_minified o st m) h) in
      (subst IsWhite (sym e) tt, inr e)
  | inr m ↦ (
    trim_start-nothing st.iter
        (subst (λ st'. is_before_end st'.iter ≡ false) (white-trim_start o st m) h),
    inl m,
  )
]

-- A true outcome has both depths 0 and white space only before the end.
abbrev IsDone : ParseOptions → JsonIterator → Outcome → Type 0
IsDone o st (true, st') =
    (st.current_object_depth ≡ 0)
    × (st.current_array_depth ≡ 0)
    × IsBlank o st.iter
    × (st' ≡ move_to st [])
IsDone o st (false, st') = Unit

check_if_done_impl-IsDone :
    (o : ParseOptions) (st : JsonIterator) → IsDone o st (check_if_done_impl o st)
unfolding check_if_done_impl
check_if_done_impl-IsDone o st =
    let (s, e) = white-move_to o st in
    rw e (elim (Bool-cases (st.current_object_depth == 0)) [
      | inl p ↦ rw p (elim (Bool-cases (st.current_array_depth == 0)) [
        | inl q ↦ rw q (elim (Bool-cases (is_before_end s)) [
          | inl b ↦ rw b tt
          | inr b ↦ rw b (
            ground arith,
            ground arith,
            white-nothing o st (ap (λ st'. is_before_end st'.iter) e ∙ b),
            ap (move_to st) (nothing_left s b),
          )
        ])
        | inr q ↦ rw q tt
      ])
      | inr p ↦ rw p tt
    ])

-- Where `checkIfDone` finds a parse done, every array and object that the calls before have opened has been
-- closed, what was left of the text is white space that the options let stand there, so nothing where the
-- text is minified, and the iterator now stands at the end of the text, with the rest of its state unchanged.
pub check_if_done_impl-Session :
    (o : ParseOptions) (text : Bytes) (cs : List Container) (st st' : JsonIterator)
    → o.max_depth < 2 ^ 64
    → Session o text cs st
    → check_if_done_impl o st ≡ (true, st')
    → (cs ≡ []) × IsBlank o st.iter × (st' ≡ move_to st [])
check_if_done_impl-Session o text cs st st' m s e =
    let (p, q, b, k) = subst (IsDone o st) e (check_if_done_impl-IsDone o st) in
    let a = Session-Agrees o text m s in
    (none_open cs (sym a.object_depth ∙ p) (sym a.array_depth ∙ q), b, k)

-- An outcome of an opening bracket at the greatest depth.
refused :
    (o : ParseOptions) (c : ℕ) (st : JsonIterator) (x : Outcome)
    → (c ≡ b'{') ⊎ (c ≡ b'[')
    → add64 st.current_object_depth st.current_array_depth ≡ o.max_depth
    → Effect o c st x
    → x.0 ≡ false
refused o c st (false, st') h d k = refl
refused o c st (true, st') (inl e) d (allowed, k) = absurd (omega (arith, d, allowed (rw e refl)))
refused o c st (true, st') (inr e) d (allowed, k) = absurd (omega (arith, d, allowed (rw e refl)))

-- With as many arrays and objects open as the greatest depth, no bracket opens another.
pub start_at_max_depth :
    (o : ParseOptions) (text : Bytes) (cs : List Container) (st : JsonIterator)
    → o.max_depth < 2 ^ 64
    → Session o text cs st
    → objects cs + arrays cs ≡ o.max_depth
    → ((object_start o st).0 ≡ false) × ((array_start o st).0 ≡ false)
unfolding object_start array_start
start_at_max_depth o text cs st m s full = (
  refused o b'{' st _ (inl refl) d
      (or_reject-Effect o b'{' missing_object_start st _ (increment_if_equals-Effect o b'{' st)),
  refused o b'[' st _ (inr refl) d
      (or_reject-Effect o b'[' missing_array_start st _ (increment_if_equals-Effect o b'[' st)),
)
  where
    d : add64 st.current_object_depth st.current_array_depth ≡ o.max_depth
    d = omega (
      arith,
      full,
      m,
      (Session-Agrees o text m s).object_depth,
      (Session-Agrees o text m s).array_depth,
    )
