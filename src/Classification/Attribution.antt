-- ===== src/Classification/Attribution.antt =====
-- The steps of the attribution of one finding.
use actionwitness.Prelude.{
  ◌≡◌, inl, inr, ◌↔◌, Bool, true, false, List, Option, none, some, arith, Option-cases, Bool-cases,
  ◌&&◌, ◌⊎◌, refl,
}
use actionwitness.Json.{JsonDict}
use actionwitness.Paths.{ObservationPath, resolve}
use actionwitness.Vocabulary.{
  CheckStatus, FailureClassification, classification_eq, ToolReportedStatus,
}
use actionwitness.Evidence.{RunEvent, OutcomeEventType, is_completion, reported_success}
use actionwitness.Findings.{Finding}
use actionwitness.Assertions.{
  Decimals, Assertion, is_transition, evaluate_operator, value_or_null, is_supplied, resolve_in,
  is_observed,
}
use actionwitness.Classification.{
  EffectMap, is_failed, is_assertion_mismatch, last_relevant_action, judge_action,
  effect_observation_mismatches, attribute, classify_one,
}

pub is_completion_iff :
    (t : OutcomeEventType)
    → (is_completion t ≡ true) ↔ (t ≡ OutcomeEventType.tool_invocation_completed)
unfolding is_completion
is_completion_iff t = ground arith

pub reported_success_iff :
    (action : RunEvent)
    → (reported_success action ≡ true) ↔ (action.reported_status ≡ some ToolReportedStatus.success)
unfolding reported_success
reported_success_iff action = ground arith

-- the finding is a failed assertion mismatch at a path
abbrev pub IsOpen : Finding → ObservationPath → Type 0
IsOpen finding path =
    (finding.path ≡ some path)
    × (finding.status ≡ CheckStatus.failed)
    × (finding.classification ≡ some FailureClassification.assertion_mismatch)

module _ {D : Type 0} (decimals : Decimals D) where
  -- the state observed right after the action contradicts the assertion
  abbrev pub Contradicts : Assertion → Option JsonDict → RunEvent → Type 0
  Contradicts assertion initial action =
      (context : JsonDict) × (action.post_call_effect_state ≡ some context)
      × (is_transition assertion.operator ≡ true → is_observed decimals initial ≡ true)
      × ((evaluate_operator decimals assertion.operator (value_or_null assertion.value)
            (is_supplied assertion.value) (resolve_in decimals assertion.path initial)
            (resolve assertion.path context)).held
          ≡ false)

  mismatches_iff :
      (assertion : Assertion) (action : RunEvent) (initial : Option JsonDict)
      → (effect_observation_mismatches decimals assertion action initial ≡ some true)
        ↔ Contradicts assertion initial action
  unfolding effect_observation_mismatches
  mismatches_iff assertion action initial = elim (Option-cases action.post_call_effect_state) [
    | inl e ↦ (λ h. absurd (cc (rw e at h)), λ (c, f, _, _). absurd (cc (e, f)))
    | inr (context, e) ↦ rw e (ground arith)
  ]

  judge_action_iff :
      (finding : Finding) (action : RunEvent) (mismatch : Option Bool)
      → finding.classification ≡ some FailureClassification.assertion_mismatch
      → ((judge_action finding action mismatch).classification
          ≡ some FailureClassification.false_success_or_state_mismatch)
        ↔ ((is_completion action.event_type ≡ true)
            × (reported_success action ≡ true)
            × (mismatch ≡ some true))
  judge_action_iff finding action none h = ground arith
  judge_action_iff finding action (some m) h = ground arith

  pub attribute_iff :
      (finding : Finding) (assertion : Assertion) (found : Option RunEvent)
      (initial : Option JsonDict)
      → finding.classification ≡ some FailureClassification.assertion_mismatch
      → ((attribute decimals finding assertion found initial).classification
          ≡ some FailureClassification.false_success_or_state_mismatch)
        ↔ ((action : RunEvent) × (found ≡ some action)
            × (is_completion action.event_type ≡ true)
            × (reported_success action ≡ true)
            × Contradicts assertion initial action)
  attribute_iff finding assertion none initial h = ground arith
  attribute_iff finding assertion (some action) initial h =
      let (j, k) =
        judge_action_iff finding action
          (effect_observation_mismatches decimals assertion action initial) h in
      let (m, n) = mismatches_iff assertion action initial in
      (
        λ g. let (a, b, c) = j g in (action, refl, a, b, m c),
        λ (found, same, a, b, c).
            let e : found ≡ action = cc in k (rw e at a, rw e at b, n (rw e at c)),
      )

  pub attribute-sequence :
      (finding : Finding) (assertion : Assertion) (action : RunEvent) (initial : Option JsonDict)
      → (attribute decimals finding assertion (some action) initial).causal_event_sequence
        ≡ some action.sequence_number
  attribute-sequence finding assertion action initial =
      ground (arith, effect_observation_mismatches decimals assertion action initial)

  pub classify_one-open :
      (finding : Finding) (assertion : Assertion) (events : List RunEvent) (effect_map : EffectMap)
      (initial : Option JsonDict) (path : ObservationPath)
      → IsOpen finding path
      → classify_one decimals finding (some assertion) events effect_map initial
        ≡ attribute decimals finding assertion (last_relevant_action path events effect_map) initial
  unfolding classify_one
  classify_one-open finding assertion events effect_map initial path (p, s, c) = ground arith

  pub classify_one-closed :
      (finding : Finding) (assertion : Assertion) (events : List RunEvent) (effect_map : EffectMap)
      (initial : Option JsonDict)
      → (((path : ObservationPath) × IsOpen finding path)
          ⊎ (classify_one decimals finding (some assertion) events effect_map initial ≡ finding))
  unfolding classify_one
  classify_one-closed finding assertion events effect_map initial =
      elim (Option-cases finding.path) [
        | inl e ↦ inr (rw e refl)
        | inr (path, e) ↦
            elim (Bool-cases
              (is_failed finding.status && is_assertion_mismatch finding.classification)) [
                | inl f ↦ inl (path, (e, ground arith, ground arith))
                | inr f ↦ inr (rw (e, f) refl)
              ]
      ]
