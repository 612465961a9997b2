-- ===== src/Classification/FalseSuccess.antt =====
-- When a failed assertion is called a false success, and what classifying never changes.
use actionwitness.Prelude.{
  ◌≡◌, inl, inr, ◌↔◌, Bool, List, Option, none, some, arith, sym, ap, ◌∙◌, ◌⊎◌, refl, any, filter,
  ◌∷◌, [],
}
use actionwitness.Json.{JsonDict}
use actionwitness.Paths.{ObservationPath}
use actionwitness.Vocabulary.{
  FailureClassification, classification_eq, AssertionSeverity, ToolReportedStatus,
}
use actionwitness.Evidence.{RunEvent, OutcomeEventType}
use actionwitness.Classification.Relevant.{
  IsLastRelevant, HasDistinctSequence, last_relevant_action_iff,
}
use actionwitness.Findings.{Finding, has_failed, is_critical, is_warning, aggregate}
use actionwitness.Assertions.{Decimals, Assertion}
use actionwitness.Classification.{
  EffectMap, last_relevant_action, classify_one, classify_assertion_failures, assertion_of,
}
use actionwitness.Classification.Attribution.{
  is_completion_iff, reported_success_iff, Contradicts, IsOpen, attribute_iff, attribute-sequence,
  classify_one-open, classify_one-closed,
}

-- the action that an open finding is attributed to
abbrev pub IsAttributed : List RunEvent → EffectMap → ObservationPath → Finding → Type 0
IsAttributed events effect_map path after =
    (action : RunEvent)
    → IsLastRelevant effect_map path events action
    → after.causal_event_sequence ≡ some action.sequence_number

module _ {D : Type 0} (decimals : Decimals D) where
  -- what makes an open finding a false success
  abbrev pub IsFalseSuccess :
      Assertion → List RunEvent → EffectMap → Option JsonDict → ObservationPath → Type 0
  IsFalseSuccess assertion events effect_map initial path =
      (action : RunEvent) × IsLastRelevant effect_map path events action
      × (action.event_type ≡ OutcomeEventType.tool_invocation_completed)
      × (action.reported_status ≡ some ToolReportedStatus.success)
      × Contradicts decimals assertion initial action

  classify_one-open_iff :
      (finding : Finding) (assertion : Assertion) (events : List RunEvent) (effect_map : EffectMap)
      (initial : Option JsonDict) (path : ObservationPath)
      → HasDistinctSequence events
      → IsOpen finding path
      → ((classify_one decimals finding (some assertion) events effect_map initial).classification
          ≡ some FailureClassification.false_success_or_state_mismatch)
        ↔ IsFalseSuccess assertion events effect_map initial path
  classify_one-open_iff finding assertion events effect_map initial path distinct (p, s, c) =
      let last = last_relevant_action path events effect_map in
      let (there, back) = attribute_iff decimals finding assertion last initial c in
      rw (classify_one-open decimals finding assertion events effect_map initial path (p, s, c)) (
        λ h.
            let (action, found, done, told, against) = there h in
            (
              action,
              (last_relevant_action_iff path events effect_map action distinct).0 found,
              (is_completion_iff action.event_type).0 done,
              (reported_success_iff action).0 told,
              against,
            ),
        λ (action, found, done, told, against). back (
          action,
          (last_relevant_action_iff path events effect_map action distinct).1 found,
          (is_completion_iff action.event_type).1 done,
          (reported_success_iff action).1 told,
          against,
        ),
      )

  classify_one-sequence :
      (finding : Finding) (assertion : Assertion) (events : List RunEvent) (effect_map : EffectMap)
      (initial : Option JsonDict) (path : ObservationPath) (action : RunEvent)
      → HasDistinctSequence events
      → IsOpen finding path
      → IsLastRelevant effect_map path events action
      → (classify_one decimals finding
          (some assertion)
          events
          effect_map
          initial).causal_event_sequence
        ≡ some action.sequence_number
  classify_one-sequence finding assertion events effect_map initial path action distinct is_open
        last =
      rw
        (
          classify_one-open decimals finding assertion events effect_map initial path is_open,
          (last_relevant_action_iff path events effect_map action distinct).1 last,
        )
        (attribute-sequence decimals finding assertion action initial)

  -- Where no two events share a sequence number, a finding is called a false success exactly if it was already, or if it is a failed assertion mismatch at a path and there is a last relevant action that completed, reported success, and was followed at once by an observation that contradicts the assertion. An action is relevant if an agent or its replay ended it, with success or not, and its tool declares an effect on a path that leads to that path or from it; for an operator that compares with the initial state, that state must have been observed. Such a finding is attributed to the last relevant action, if there is one; any other finding is left as it was.
  pub classify_one-IsFalseSuccess :
      (finding : Finding) (assertion : Assertion) (events : List RunEvent) (effect_map : EffectMap)
      (initial : Option JsonDict)
      → HasDistinctSequence events
      → let after = classify_one decimals finding (some assertion) events effect_map initial in
        ((after.classification ≡ some FailureClassification.false_success_or_state_mismatch) ↔ (
          (finding.classification ≡ some FailureClassification.false_success_or_state_mismatch)
          ⊎ ((path : ObservationPath) × IsOpen finding path
              × IsFalseSuccess assertion events effect_map initial path)))
        × ((path : ObservationPath)
            → IsOpen finding path
            → IsAttributed events effect_map path after)
        × (((path : ObservationPath) → ¬ IsOpen finding path) → after ≡ finding)
  classify_one-IsFalseSuccess finding assertion events effect_map initial distinct =
      let closed = classify_one-closed decimals finding assertion events effect_map initial in
      (
        (
          λ h. elim closed [
            | inl (path, is_open) ↦ inr (
              path,
              is_open,
              (classify_one-open_iff finding assertion events effect_map initial path distinct
                    is_open).0
                  h,
            )
            | inr same ↦ inl (sym (ap (λ f. f.classification) same) ∙ h)
          ],
          λ already. elim already [
            | inr (path, is_open, success) ↦
                (classify_one-open_iff finding assertion events effect_map initial path distinct
                    is_open).1
                  success
            | inl e ↦ elim closed [
              | inl (path, (_, _, c)) ↦ absurd (cc (e, c))
              | inr same ↦ ap (λ f. f.classification) same ∙ e
            ]
          ],
        ),
        λ path is_open action last.
            classify_one-sequence finding assertion events effect_map initial path action distinct
              is_open last,
        λ none_open. elim closed [
          | inl (path, is_open) ↦ absurd (none_open path is_open)
          | inr same ↦ same
        ],
      )

  -- what a classification may do to a finding
  abbrev pub IsReclassified : Finding → Finding → Type 0
  IsReclassified before after =
      (after.check_id ≡ before.check_id)
      × (after.check_type ≡ before.check_type)
      × (after.status ≡ before.status)
      × (after.severity ≡ before.severity)
      × (after.path ≡ before.path)
      × (after.expected ≡ before.expected)
      × (after.actual ≡ before.actual)
      × ((after.classification ≡ before.classification)
          ⊎ ((before.classification ≡ some FailureClassification.assertion_mismatch)
              × (after.classification
                  ≡ some FailureClassification.false_success_or_state_mismatch)))

  classify_one-IsReclassified :
      (finding : Finding) (assertion : Option Assertion) (events : List RunEvent)
      (effect_map : EffectMap) (initial : Option JsonDict)
      → IsReclassified finding (classify_one decimals finding assertion events effect_map initial)
  unfolding classify_one
  classify_one-IsReclassified finding none events effect_map initial = ground arith
  classify_one-IsReclassified finding (some assertion) events effect_map initial = ground arith

  any-classify :
      (severe : AssertionSeverity → Bool) (findings : List Finding) (assertions : List Assertion)
      (events : List RunEvent) (effect_map : EffectMap) (initial : Option JsonDict)
      → any
          (λ f. severe f.severity)
          (filter has_failed
            (classify_assertion_failures decimals findings assertions events effect_map initial))
        ≡ any (λ f. severe f.severity) (filter has_failed findings)
  unfolding classify_assertion_failures any filter
  any-classify severe [] assertions events effect_map initial = refl
  any-classify severe (f ∷ fs) assertions events effect_map initial =
      let (_, _, same, grade, _, _, _, _) =
        classify_one-IsReclassified f (assertion_of assertions f.check_id) events effect_map
          initial in
      let rest = any-classify severe fs assertions events effect_map initial in ground arith

  -- Classifying the failed assertions never changes what their layer concludes.
  pub aggregate-classify_assertion_failures :
      (findings : List Finding) (assertions : List Assertion) (events : List RunEvent)
      (effect_map : EffectMap) (initial : Option JsonDict)
      → aggregate
          (classify_assertion_failures decimals findings assertions events effect_map initial)
        ≡ aggregate findings
  unfolding aggregate
  aggregate-classify_assertion_failures findings assertions events effect_map initial =
      rw
        (
          any-classify is_critical findings assertions events effect_map initial,
          any-classify is_warning findings assertions events effect_map initial,
        )
        refl
