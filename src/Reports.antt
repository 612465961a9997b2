-- ===== src/Reports.antt =====
-- packages/actionwitness_core/src/actionwitness_core/reports/models.py: how an outcome report is composed
-- of findings and events. `str` of a JSON value is a parameter.
mod Records
pub mod Verdict
pub mod Undeclared
pub use Records.*
use actionwitness.Prelude.{
  ℕ, ◌+◌, String, Bool, true, false, not, ◌&&◌, ◌||◌, List, [], ◌∷◌, ◌++◌, map, Option, none, some,
  if◌then◌else◌, ltb, length, filter,
}
use actionwitness.Json.{Json, null, bool, int, float, str, arr, obj, JsonDict, lookup, items}
use actionwitness.Paths.{ObservationPath}
use actionwitness.Kernel.{Result, ok, raise, ◌>>=◌, ◌>>◌, raise_if, evaluation_input_invalid}
use actionwitness.States.{RunState}
use actionwitness.Vocabulary.{
  CheckStatus, AssertionSeverity, FailureClassification, LayerResult, RunMode,
}
use actionwitness.Evidence.{
  OutcomeEventType, EventActor, RunEvent, is_invocation_start, ordered, agent,
  guidance_transitioned,
}
use actionwitness.Findings.{
  Finding, has_failed, is_critical, is_warning, aggregate, primary_failure,
}
use actionwitness.Policies.Attribution.{is_human_decision}

-- the rows of `ALLOWED_LAYER_RESULTS`
abbrev pub is_selection_result : LayerResult → Bool
is_selection_result LayerResult.passed = true
is_selection_result LayerResult.failed = true
is_selection_result LayerResult.not_evaluated = true
is_selection_result _ = false

abbrev pub is_execution_result : LayerResult → Bool
is_execution_result LayerResult.passed = true
is_execution_result LayerResult.blocked_safely = true
is_execution_result LayerResult.failed = true
is_execution_result LayerResult.not_evaluated = true
is_execution_result _ = false

abbrev pub is_business_result : LayerResult → Bool
is_business_result LayerResult.blocked_safely = false
is_business_result _ = true

abbrev pub is_safety_result : LayerResult → Bool
is_safety_result LayerResult.passed = true
is_safety_result LayerResult.failed = true
is_safety_result LayerResult.error = true
is_safety_result _ = false

-- `LayeredResult._check_each_layer_reports_a_permitted_value`
abbrev pub check_layers : LayeredResult → Result LayeredResult
check_layers layers = do
  raise_if (not (is_selection_result layers.model_tool_selection)) evaluation_input_invalid
  raise_if (not (is_selection_result layers.observed_trajectory)) evaluation_input_invalid
  raise_if (not (is_execution_result layers.tool_execution)) evaluation_input_invalid
  raise_if (not (is_business_result layers.business_outcome)) evaluation_input_invalid
  raise_if (not (is_safety_result layers.safety_policy)) evaluation_input_invalid
  ok layers

-- `status in _VERDICT_STATES`
abbrev pub is_verdict_state : RunState → Bool
is_verdict_state RunState.passed = true
is_verdict_state RunState.passed_with_warnings = true
is_verdict_state RunState.failed = true
is_verdict_state RunState.error = true
is_verdict_state _ = false

abbrev is_proposed : RunState → Bool
is_proposed RunState.proposed = true
is_proposed _ = false

abbrev is_not_evaluated : LayerResult → Bool
is_not_evaluated LayerResult.not_evaluated = true
is_not_evaluated _ = false

abbrev is_given {ℓ} : {A : Type ℓ} → Option A → Bool
is_given none = false
is_given (some a) = true

-- `OutcomeReport._check_report_shape`
abbrev pub check_report_shape : OutcomeReport → Result OutcomeReport
check_report_shape report = elim report.mode [
  | RunMode.proposal ↦ do
    raise_if (not (is_proposed report.status)) evaluation_input_invalid
    raise_if (not (is_not_evaluated report.layers.business_outcome)) evaluation_input_invalid
    raise_if (is_given report.primary_failure) evaluation_input_invalid
    ok report
  | RunMode.verification ↦ do
    raise_if (not (is_verdict_state report.status)) evaluation_input_invalid
    ok report
]

-- `_layer_from`
abbrev pub layer_from : Finding → LayerResult
layer_from finding = elim finding.status [
  | CheckStatus.passed ↦ LayerResult.passed
  | CheckStatus.not_evaluated ↦ LayerResult.not_evaluated
  | _ ↦ LayerResult.failed
]

abbrev trajectory_layer : Option Finding → LayerResult
trajectory_layer none = LayerResult.not_evaluated
trajectory_layer (some finding) = layer_from finding

-- `everything`
abbrev pub everything : List Finding → List Finding → Option Finding → List Finding
everything assertions policies none = assertions ++ policies
everything assertions policies (some trajectory) = (assertions ++ policies) ++ trajectory ∷ []

abbrev is_critical_failure : Finding → Bool
is_critical_failure finding = has_failed finding && is_critical finding.severity

abbrev is_warning_failure : Finding → Bool
is_warning_failure finding = has_failed finding && is_warning finding.severity

abbrev is_agent : EventActor → Bool
is_agent agent = true
is_agent _ = false

abbrev is_handoff : OutcomeEventType → Bool
is_handoff guidance_transitioned = true
is_handoff _ = false

-- the inputs of `compose_outcome_report` that it carries through unchanged
pub record ReportSubject : Type 0 where
  pub run_id : String
  pub target : TargetReference
  pub scenario : ScenarioReference
  pub contract : ContractReference
  pub external_target : Option ExternalTargetReference
  pub guidance_at_finalization : Option GuidanceReference
  pub undeclared_changes : Option UndeclaredChangesBlock

-- the inputs of `compose_outcome_report` that were evaluated
pub record ReportEvidence : Type 0 where
  pub assertion_findings : List Finding
  pub policy_findings : List Finding
  pub trajectory_finding : Option Finding
  pub tool_execution : LayerResult
  pub events : List RunEvent

abbrev pub judged : ReportEvidence → List Finding
judged evidence =
    everything evidence.assertion_findings evidence.policy_findings evidence.trajectory_finding

abbrev business_layer : RunMode → List Finding → LayerResult
business_layer RunMode.proposal assertions = LayerResult.not_evaluated
business_layer RunMode.verification assertions = aggregate assertions

-- the layers that `compose_outcome_report` gives
abbrev pub layers_of : RunMode → ReportEvidence → LayeredResult
layers_of mode evidence = record {
  model_tool_selection = LayerResult.not_evaluated;
  observed_trajectory = trajectory_layer evidence.trajectory_finding;
  tool_execution = evidence.tool_execution;
  business_outcome = business_layer mode evidence.assertion_findings;
  safety_policy = aggregate evidence.policy_findings;
}

-- `primary.classification if primary is not None else None`
abbrev failure_classification : Option Finding → Option FailureClassification
failure_classification none = none
failure_classification (some finding) = finding.classification

-- the state that the counts lead to
abbrev pub verdict_of : CountsBlock → RunState
verdict_of counts =
    if ltb 0 counts.critical_failures
    then RunState.failed
    else if ltb 0 counts.warnings
    then RunState.passed_with_warnings
    else RunState.passed

abbrev pub status_of : RunMode → CountsBlock → RunState
status_of RunMode.proposal counts = RunState.proposed
status_of RunMode.verification counts = verdict_of counts

abbrev failure_of : RunMode → List Finding → Option FailureClassification
failure_of RunMode.proposal findings = none
failure_of RunMode.verification findings = failure_classification (primary_failure findings)

module _ (text_of : Json → String) where
  abbrev warnings_in : Option Json → List String
  warnings_in (some (arr xs)) = map text_of (items xs)
  warnings_in _ = []

  -- `recorded_warnings`
  abbrev pub recorded_warnings : Finding → List String
  recorded_warnings finding = warnings_in (lookup finding.evidence "warnings")

  -- `sum(len(recorded_warnings(finding)) for finding in everything)`
  abbrev pub count_recorded : List Finding → ℕ
  count_recorded [] = 0
  count_recorded (finding ∷ rest) = length (recorded_warnings finding) + count_recorded rest

  -- the counts that `compose_outcome_report` gives
  unfoldable pub counts_of : ReportEvidence → CountsBlock
  counts_of evidence = record {
    critical_failures = length (filter is_critical_failure (judged evidence));
    warnings =
        length (filter is_warning_failure (judged evidence)) + count_recorded (judged evidence);
    tool_calls =
        length (filter (λ e. is_invocation_start e && is_agent e.actor) (ordered evidence.events));
    human_confirmations =
        length (filter (λ e. is_human_decision e.event_type) (ordered evidence.events));
    guidance_handoffs = length (filter (λ e. is_handoff e.event_type) (ordered evidence.events));
  }

  -- the report that `compose_outcome_report` makes of permitted layers
  abbrev pub report_of : ReportSubject → ReportEvidence → RunMode → LayeredResult → OutcomeReport
  report_of subject evidence mode layers = record {
    run_id = subject.run_id;
    status = status_of mode (counts_of evidence);
    mode = mode;
    target = subject.target;
    scenario = subject.scenario;
    contract = subject.contract;
    external_target = subject.external_target;
    layers = layers;
    counts = counts_of evidence;
    guidance_at_finalization = subject.guidance_at_finalization;
    undeclared_changes = subject.undeclared_changes;
    primary_failure = failure_of mode (judged evidence);
  }

  -- `compose_outcome_report`
  unfoldable pub compose_outcome_report :
      ReportSubject → ReportEvidence → RunMode → Result OutcomeReport
  compose_outcome_report subject evidence mode = do
    layers ← check_layers (layers_of mode evidence)
    check_report_shape (report_of subject evidence mode layers)
