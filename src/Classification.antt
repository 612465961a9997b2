-- ===== src/Classification.antt =====
-- packages/actionwitness_core/src/actionwitness_core/engine/classification.py: which action a failed
-- assertion is attributed to, and the tool execution layer. `Decimal` is the parameter of Assertions.
pub mod Relevant
pub mod Attribution
pub mod FalseSuccess
pub mod Execution
use actionwitness.Prelude.{
  ℕ, String, string_eq, ◌==◌, Bool, true, false, not, ◌&&◌, ◌||◌, List, [], ◌∷◌, map, Option, none,
  some, any, filter, get_last?, if◌then◌else◌,
}
use actionwitness.Prelude.Text.{concat, show, codes, starts_with}
use actionwitness.Json.{Json, null, str, number, dict, JsonDict}
use actionwitness.Paths.{ObservationPath}
use actionwitness.Vocabulary.{
  CheckType, CheckStatus, AssertionSeverity, FailureClassification, classification_eq, LayerResult,
  ToolReportedStatus, reported_status_value,
}
use actionwitness.Evidence.{
  RunEvent, event_type_value, is_terminal_invocation, is_completion, is_failure, is_cancellation,
  is_acting, reported_success, ordered,
}
use actionwitness.Findings.{Finding}
use actionwitness.Assertions.{
  Decimals, Assertion, is_transition, evaluate_operator, value_or_null, is_supplied, resolve_in,
  is_observed,
}
use actionwitness.Policies.Attribution.{optional_text, name_or_none}
use actionwitness.Policies.Changes.{effects_of, is_covered}

-- the map from a tool to the paths that it declares to affect
abbrev pub EffectMap : Type 0
EffectMap = List (String × List ObservationPath)

-- the declared paths of the tool that an event names
abbrev pub declared_effects : EffectMap → RunEvent → List ObservationPath
declared_effects effect_map event = elim event.tool_name [
  | none ↦ []
  | some tool ↦ effects_of tool effect_map
]

-- the test of the list `relevant`
abbrev pub is_relevant : EffectMap → ObservationPath → RunEvent → Bool
is_relevant effect_map path event =
    is_terminal_invocation event.event_type
    && is_acting event.actor
    && is_covered (declared_effects effect_map event) path

-- `_last_relevant_action`
unfoldable pub last_relevant_action : ObservationPath → List RunEvent → EffectMap → Option RunEvent
last_relevant_action path events effect_map =
    get_last? (filter (is_relevant effect_map path) (ordered events))

-- the finding with a cause that blames nothing
abbrev unattributed : Finding → Finding
unattributed finding = record finding {
  attributed_cause = some (
      dict (
        ("kind", str "none")
        ∷ (
          "reason",
          str (
              concat (
                "no executed tool declared an effect overlapping this path, so "
                ∷ "causality was not inferred" ∷ [])),
        )
        ∷ []));
}

abbrev cause_of : RunEvent → List (String × Json) → JsonDict
cause_of action more = dict (
    ("kind", str "tool_action")
    ∷ ("tool_name", optional_text action.tool_name)
    ∷ ("event_sequence", number action.sequence_number)
    ∷ ("terminal_event", str (event_type_value action.event_type))
    ∷ more)

-- the finding with an action as its cause, and the classification as it was
abbrev attributed : Finding → RunEvent → List (String × Json) → Finding
attributed finding action more = record finding {
  attributed_cause = some (cause_of action more);
  causal_event_sequence = some action.sequence_number;
}

abbrev status_text : Option ToolReportedStatus → Json
status_text none = null
status_text (some status) = str (reported_status_value status)

-- the finding once the observation after the action is known to contradict the assertion, or not
abbrev judge_mismatch : Finding → RunEvent → Option Bool → Finding
judge_mismatch finding action none = attributed finding action (
    (
      "reason",
      str (
          concat (
            "the relevant action reported success but recorded no immediate authoritative "
            ∷ "post-call observation, so the contradiction could not be established" ∷ [])),
    )
    ∷ [])
judge_mismatch finding action (some false) = attributed finding action (
    (
      "reason",
      str (
          concat (
            "the immediate post-call observation satisfied the assertion, so the final "
            ∷ "mismatch was caused by something later" ∷ [])),
    )
    ∷ [])
judge_mismatch finding action (some true) =
    record (attributed finding action (
      (
        "reason",
        str (
            concat (
              "the tool reported success and the immediate authoritative post-call observation "
              ∷ "contradicted the assertion" ∷ [])),
      )
      ∷ [])) { classification = some FailureClassification.false_success_or_state_mismatch }

abbrev judge_action : Finding → RunEvent → Option Bool → Finding
judge_action finding action mismatch =
    if not (is_completion action.event_type)
    then attributed finding action
        (("reason", str "the relevant action did not complete, so success was never claimed") ∷ [])
    else if not (reported_success action)
    then attributed finding action (
        ("reason", str "the relevant action completed without claiming success")
        ∷ ("reported_status", status_text action.reported_status)
        ∷ [])
    else judge_mismatch finding action mismatch

abbrev is_assertion_mismatch : Option FailureClassification → Bool
is_assertion_mismatch none = false
is_assertion_mismatch (some c) = c == FailureClassification.assertion_mismatch

abbrev is_failed : CheckStatus → Bool
is_failed CheckStatus.failed = true
is_failed _ = false

-- `{assertion.id: assertion for assertion in assertions}.get(id)`
unfoldable pub assertion_of : List Assertion → String → Option Assertion
assertion_of assertions id = get_last? (filter (λ a. a.id == id) assertions)

module _ {D : Type 0} (decimals : Decimals D) where
  abbrev mismatch_in : Assertion → Option JsonDict → JsonDict → Bool
  mismatch_in assertion initial context =
      not
        (evaluate_operator decimals assertion.operator (value_or_null assertion.value)
          (is_supplied assertion.value) (resolve_in decimals assertion.path initial)
          (resolve_in decimals assertion.path (some context))).held

  -- `_effect_observation_mismatches`
  unfoldable pub effect_observation_mismatches :
      Assertion → RunEvent → Option JsonDict → Option Bool
  effect_observation_mismatches assertion event initial = elim event.post_call_effect_state [
    | none ↦ none
    | some context ↦
        if is_transition assertion.operator && not (is_observed decimals initial)
        then none
        else some (mismatch_in assertion initial context)
  ]

  abbrev attribute : Finding → Assertion → Option RunEvent → Option JsonDict → Finding
  attribute finding assertion none initial = unattributed finding
  attribute finding assertion (some action) initial =
      judge_action finding action (effect_observation_mismatches assertion action initial)

  -- `_classify_one`
  unfoldable pub classify_one :
      Finding → Option Assertion → List RunEvent → EffectMap → Option JsonDict → Finding
  classify_one finding none events effect_map initial = finding
  classify_one finding (some assertion) events effect_map initial = elim finding.path [
    | none ↦ finding
    | some path ↦
        if is_failed finding.status && is_assertion_mismatch finding.classification
        then attribute finding assertion (last_relevant_action path events effect_map) initial
        else finding
  ]

  -- `classify_assertion_failures`
  unfoldable pub classify_assertion_failures :
      List Finding → List Assertion → List RunEvent → EffectMap → Option JsonDict → List Finding
  classify_assertion_failures findings assertions events effect_map initial =
      map
        (λ finding.
          classify_one finding (assertion_of assertions finding.check_id) events effect_map initial)
        findings

-- the test of the list `invocations`
abbrev pub is_invocation_end : RunEvent → Bool
is_invocation_end event = is_terminal_invocation event.event_type && is_acting event.actor

abbrev starts_blocked : Option ToolReportedStatus → Bool
starts_blocked none = false
starts_blocked (some status) =
    starts_with (codes (reported_status_value status)) (codes "blocked_by_")

abbrev pub is_blocked : RunEvent → Bool
is_blocked event = is_cancellation event.event_type || starts_blocked event.reported_status

abbrev judge_invocations : List RunEvent → LayerResult
judge_invocations [] = LayerResult.not_evaluated
judge_invocations (e ∷ es) =
    if any (λ i. is_failure i.event_type) (e ∷ es)
    then LayerResult.failed
    else if any is_blocked (e ∷ es)
    then LayerResult.blocked_safely
    else LayerResult.passed

-- `tool_execution_layer`
unfoldable pub tool_execution_layer : List RunEvent → LayerResult
tool_execution_layer events = judge_invocations (filter is_invocation_end (ordered events))

-- the test of the events that make a finding
abbrev pub is_acting_failure : RunEvent → Bool
is_acting_failure event = is_failure event.event_type && is_acting event.actor

abbrev execution_finding : RunEvent → Finding
execution_finding event = record {
  check_id =
      concat
        ("tool_execution:" ∷ name_or_none event.tool_name ∷ ":" ∷ show event.sequence_number ∷ []);
  check_type = CheckType.policy;
  status = CheckStatus.failed;
  severity = AssertionSeverity.critical;
  classification = some FailureClassification.tool_execution_error;
  path = none;
  paths = [];
  applied_exemptions = [];
  attributed_cause = none;
  expected = null;
  actual = null;
  causal_event_sequence = some event.sequence_number;
  evidence = dict (
      ("reason", str "the tool returned an unexpected non-policy error")
      ∷ ("tool_name", optional_text event.tool_name)
      ∷ []);
}

-- `execution_findings`
unfoldable pub execution_findings : List RunEvent → List Finding
execution_findings events = map execution_finding (filter is_acting_failure (ordered events))
