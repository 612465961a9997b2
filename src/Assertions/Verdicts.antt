-- ===== src/Assertions/Verdicts.antt =====
-- When an operator holds, and what a passed assertion has observed.
use actionwitness.Prelude.{
  ◌≡◌, refl, ◌∙◌, inl, inr, Bool, true, false, not, ◌&&◌, ◌||◌, Option, none, some, arith,
  Bool-cases,
}
use actionwitness.Json.{Json, JsonDict}
use actionwitness.Json.Laws.{IsJson, deep_equal_refl}
use actionwitness.Paths.{ObservationPath, Resolution, resolve}
use actionwitness.Vocabulary.{CheckStatus, AssertionOperator}
use actionwitness.Assertions.{
  Decimals, Assertion, is_transition, evaluate_operator, evaluate_assertion, is_observed,
  value_or_null, is_supplied, resolve_in,
}

abbrev pub is_absent : AssertionOperator → Bool
is_absent AssertionOperator.absent = true
is_absent _ = false

module _ {D : Type 0} (decimals : Decimals D) where
  -- Where the path does not resolve in the final snapshot, `absent` holds and no other operator does; where it does not resolve in the initial one, neither `unchanged` nor `changed_by` holds.
  pub evaluate_operator-missing :
      (operator : AssertionOperator) (expected : Json) (supplied : Bool)
      (initial final : Resolution)
      → let held = (evaluate_operator decimals operator expected supplied initial final).held in
        (final.found ≡ false → held ≡ is_absent operator)
        × (is_transition operator ≡ true → initial.found ≡ false → held ≡ false)
  unfolding evaluate_operator is_transition
  evaluate_operator-missing AssertionOperator.equals e s i f = ground arith
  evaluate_operator-missing AssertionOperator.not_equals e s i f = ground arith
  evaluate_operator-missing AssertionOperator.exists e s i f = ground arith
  evaluate_operator-missing AssertionOperator.absent e s i f = ground arith
  evaluate_operator-missing AssertionOperator.contains e s i f =
      (λ h. rw h refl, λ t h. absurd (cc t))
  evaluate_operator-missing AssertionOperator.unchanged e s i f = ground arith
  evaluate_operator-missing AssertionOperator.changed_by e s i f = (
    λ h. elim (Bool-cases i.found) [ inl k ↦ rw (h, k) refl | inr k ↦ rw (h, k) refl ],
    λ t h. rw h refl,
  )
  evaluate_operator-missing AssertionOperator.count_equals e s i f =
      (λ h. rw h refl, λ t h. absurd (cc t))

  -- `exists` and `absent` answer oppositely; of `equals` and `not_equals`, exactly one holds where the path resolves, and neither where it does not.
  pub evaluate_operator-opposites :
      (expected : Json) (supplied : Bool) (initial final : Resolution)
      → let held = λ (o : AssertionOperator).
        (evaluate_operator decimals o expected supplied initial final).held in
        (held AssertionOperator.absent ≡ not (held AssertionOperator.exists))
        × ((held AssertionOperator.equals || held AssertionOperator.not_equals) ≡ final.found)
        × ((held AssertionOperator.equals && held AssertionOperator.not_equals) ≡ false)
  unfolding evaluate_operator
  evaluate_operator-opposites expected supplied initial final = (refl, ground arith, ground arith)

  passed-held :
      (assertion : Assertion) (initial : Option JsonDict) (context : JsonDict)
      → (evaluate_assertion decimals assertion initial (some context)).status ≡ CheckStatus.passed
      → ((evaluate_operator decimals assertion.operator
            (value_or_null assertion.value)
            (is_supplied assertion.value)
            (resolve_in decimals assertion.path initial)
            (resolve assertion.path context)).held
          ≡ true)
        × ((is_transition assertion.operator && not (is_observed decimals initial)) ≡ false)
  unfolding evaluate_assertion
  passed-held assertion initial context h = ground arith

  found-of : (r : Resolution) (b : Bool) → (r.found ≡ false → b ≡ false) → b ≡ true → r.found ≡ true
  found-of r b miss h = elim (Bool-cases r.found) [ inl e ↦ e | inr e ↦ absurd (cc (miss e, h)) ]

  observed_at :
      (path : ObservationPath) (initial : Option JsonDict) (b : Bool)
      → not (is_observed decimals initial) ≡ false
      → ((resolve_in decimals path initial).found ≡ false → b ≡ false)
      → b ≡ true
      → (context : JsonDict) × (initial ≡ some context) × ((resolve path context).found ≡ true)
  observed_at path none b seen miss h = absurd (cc seen)
  observed_at path (some context) b seen miss h =
      (context, refl, found-of (resolve path context) b miss h)

  -- An assertion passes only on what was observed: there is a final snapshot, the path resolves in it unless the operator is `absent`, and for `unchanged` and `changed_by` there is an initial snapshot in which it resolves too.
  pub evaluate_assertion-passed :
      (assertion : Assertion) (initial final : Option JsonDict)
      → (evaluate_assertion decimals assertion initial final).status ≡ CheckStatus.passed
      → ((context : JsonDict) × (final ≡ some context)
          × (is_absent assertion.operator ≡ false → (resolve assertion.path context).found ≡ true))
        × (is_transition assertion.operator ≡ true
            → (context : JsonDict) × (initial ≡ some context)
              × ((resolve assertion.path context).found ≡ true))
  unfolding evaluate_assertion
  evaluate_assertion-passed assertion initial none h = absurd (ground arith)
  evaluate_assertion-passed assertion initial (some context) h =
      let (held, observed) = passed-held assertion initial context h in
      let final = resolve assertion.path context in
      let missing = λ (start : Resolution).
        evaluate_operator-missing assertion.operator (value_or_null assertion.value)
          (is_supplied assertion.value) start final in
      (
        (
          context,
          refl,
          λ present.
              found-of final _
                (λ e. (missing (resolve_in decimals assertion.path initial)).0 e ∙ present) held,
        ),
        λ transition.
            observed_at assertion.path initial _ (rw transition at observed)
              ((missing (resolve_in decimals assertion.path initial)).1 transition) held,
      )

  -- An `unchanged` assertion passes where the two snapshots are the same and the path resolves in them.
  pub evaluate_assertion-unchanged :
      (assertion : Assertion) (context : JsonDict)
      → assertion.operator ≡ AssertionOperator.unchanged
      → (resolve assertion.path context).found ≡ true
      → IsJson (resolve assertion.path context).value
      → (evaluate_assertion decimals assertion (some context) (some context)).status
        ≡ CheckStatus.passed
  unfolding evaluate_assertion evaluate_operator is_transition
  evaluate_assertion-unchanged assertion context unchanged found well =
      rw (unchanged, found) (rw (deep_equal_refl (resolve assertion.path context).value well) refl)
