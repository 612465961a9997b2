-- ===== src/Examples/Verdicts.antt =====
-- False successes, the execution layer, reports and comparisons.
use actionwitness.Reports.Undeclared.{
  paths_of, undeclared_changes_from, undeclared_changes_from-paths,
}
use actionwitness.Prelude.{
  ℕ, ◌+◌, ◌≡◌, ◌≢◌, ◌≤◌, ◌↔◌, refl, String, string_eq, Bool, true, false, List, [], ◌∷◌, length,
  Option, none, some, arith, ◌⊎◌,
}
use actionwitness.Json.{obj, dict, end, array, str}
use actionwitness.Kernel.{ok}
use actionwitness.Paths.{ObservationPath}
use actionwitness.States.{RunState}
use actionwitness.Vocabulary.{
  AssertionOperator, AssertionSeverity, FailureClassification, LayerResult, RunMode,
  ToolReportedStatus,
}
use actionwitness.Evidence.{RunEvent, EventActor, tool_invocation_completed}
use actionwitness.Findings.{Finding, aggregate}
use actionwitness.Assertions.{Assertion}
use actionwitness.Classification.{
  EffectMap, classify_one, classify_assertion_failures, tool_execution_layer, execution_findings,
}
use actionwitness.Classification.Attribution.{IsOpen}
use actionwitness.Classification.Relevant.{HasDistinctSequence, are_apart-HasDistinctSequence}
use actionwitness.Classification.FalseSuccess.{
  IsFalseSuccess, IsAttributed, classify_one-IsFalseSuccess, aggregate-classify_assertion_failures,
}
use actionwitness.Classification.Execution.{
  IsLayer, tool_execution_layer-IsLayer, tool_execution_layer-execution_findings,
}
use actionwitness.Reports.{
  OutcomeReport, ReportSubject, ReportEvidence, judged, compose_outcome_report,
  UndeclaredChangesBlock,
}
use actionwitness.Reports.Verdict.{IsVerdict, IsComposable, compose_outcome_report-IsVerdict}
use actionwitness.Security.Canonical.{done}
use actionwitness.Comparison.{ComparableRun, ComparisonResult, compare_runs}
use actionwitness.Comparison.Matched.{IsComparison, compare_runs-IsComparison}
use actionwitness.Examples.Data.{event, path, late_approval, two_failures, failure, integers}
use actionwitness.Examples.Security.{doubles}

-- the order was placed, the tool said, and the order that was observed then has no total
abbrev placed : RunEvent
placed = record (event 2 tool_invocation_completed "a" "b") {
  reported_status = some ToolReportedStatus.success;
  post_call_effect_state = some (dict (("order", obj end) ∷ []));
}

abbrev has_total : Assertion
has_total = record {
  id = "total";
  path = path "total";
  operator = AssertionOperator.exists;
  value = none;
  severity = AssertionSeverity.critical;
}

abbrev no_total : Finding
no_total = record (failure "total" AssertionSeverity.critical) { path = some (path "total") }

abbrev effects : EffectMap
effects = ("place_order", path "total" ∷ []) ∷ []

-- an earlier call of the agent that declares the same effect, and a later one of a human
abbrev placed_events : List RunEvent
placed_events =
    record placed { sequence_number = 4; actor = EventActor.human }
    ∷ placed
    ∷ record placed { sequence_number = 1; reported_status = none }
    ∷ []

placed_events-distinct : HasDistinctSequence placed_events
unfolding actionwitness.Prelude.all
placed_events-distinct = are_apart-HasDistinctSequence placed_events refl

classify_one_example :
    let after = classify_one integers no_total (some has_total) placed_events effects none in
    ((after.classification ≡ some FailureClassification.false_success_or_state_mismatch) ↔ (
      (no_total.classification ≡ some FailureClassification.false_success_or_state_mismatch)
      ⊎ ((path : ObservationPath) × IsOpen no_total path
          × IsFalseSuccess integers has_total placed_events effects none path)))
    × ((path : ObservationPath)
        → IsOpen no_total path
        → IsAttributed placed_events effects path after)
    × (((path : ObservationPath) → ¬ IsOpen no_total path) → after ≡ no_total)
classify_one_example =
    classify_one-IsFalseSuccess integers no_total has_total placed_events effects none
      placed_events-distinct

-- the one test case for a false success
no_total-false_success :
    (classify_one integers no_total (some has_total) placed_events effects none).classification
    ≡ some FailureClassification.false_success_or_state_mismatch
unfolding classify_one actionwitness.Classification.last_relevant_action
    actionwitness.Classification.effect_observation_mismatches
    actionwitness.Assertions.evaluate_operator actionwitness.Assertions.is_transition
    actionwitness.Paths.walk actionwitness.Paths.child actionwitness.Prelude.filter
    actionwitness.Prelude.get_last? actionwitness.Evidence.ordered
    actionwitness.Prelude.Sort.sort_by actionwitness.Evidence.is_terminal_invocation
    actionwitness.Evidence.is_acting actionwitness.Prelude.any
    actionwitness.Policies.Changes.effects_of actionwitness.Paths.is_prefix
    actionwitness.Evidence.is_completion actionwitness.Evidence.reported_success
no_total-false_success = refl

aggregate-classify_example :
    aggregate (
      classify_assertion_failures integers
        (no_total ∷ two_failures)
        (has_total ∷ [])
        (placed ∷ [])
        effects
        none)
    ≡ aggregate (no_total ∷ two_failures)
aggregate-classify_example =
    aggregate-classify_assertion_failures integers (no_total ∷ two_failures) (has_total ∷ [])
      (placed ∷ []) effects none

tool_execution_layer_example : IsLayer late_approval (tool_execution_layer late_approval)
tool_execution_layer_example = tool_execution_layer-IsLayer late_approval

execution_findings_example :
    (tool_execution_layer late_approval ≡ LayerResult.failed)
    ↔ (execution_findings late_approval ≢ [])
execution_findings_example = tool_execution_layer-execution_findings late_approval

abbrev subject : ReportSubject
subject = record {
  run_id = "run";
  target = record { id = "store"; adapter_id = "store" };
  scenario = record { mode = "pre_fix"; fault_profile = none; fault_active = true };
  contract = record { id = "order"; schema_version = "1"; content_hash = "sha256:0" };
  external_target = none;
  guidance_at_finalization = none;
  undeclared_changes = none;
}

abbrev report_evidence : ReportEvidence
report_evidence = record {
  assertion_findings = two_failures;
  policy_findings = failure "forbidden_tool" AssertionSeverity.critical ∷ [];
  trajectory_finding = none;
  tool_execution = LayerResult.passed;
  events = late_approval;
}

composable : IsComposable report_evidence
unfolding aggregate actionwitness.Prelude.any actionwitness.Prelude.filter
composable = (refl, λ e. absurd (cc e))

compose_outcome_report_example :
    (report : OutcomeReport) × (compose_outcome_report
        (λ v. "")
        subject
        report_evidence
        RunMode.verification
      ≡ ok report)
    × IsVerdict (λ v. "") (judged report_evidence) report.status
    × (report.layers.business_outcome ≡ aggregate two_failures)
    × (report.layers.safety_policy
        ≡ aggregate (failure "forbidden_tool" AssertionSeverity.critical ∷ []))
compose_outcome_report_example =
    compose_outcome_report-IsVerdict (λ v. "") subject report_evidence composable

-- a finding with one undeclared path and the evidence of it
abbrev undeclared : Finding
undeclared = record (failure "changes" AssertionSeverity.critical) {
  paths = path "total" ∷ [];
  evidence = dict (
      (
        "undeclared_changes",
        array (obj (dict (("path", str "order.total") ∷ ("after", str "7") ∷ [])) ∷ []),
      )
      ∷ []);
}

undeclared_changes_from_example :
    (block : UndeclaredChangesBlock) × (undeclared_changes_from (λ v. "") undeclared 3 ≡ some block)
    × (paths_of block.paths ≡ path "total" ∷ [])
    × (block.undeclared ≡ length block.paths)
    × (block.declared + block.undeclared ≡ block.changed_paths)
undeclared_changes_from_example = undeclared_changes_from-paths (λ v. "") undeclared 3 (omega arith)

abbrev run_in : String → List FailureClassification → ComparableRun
run_in mode classifications = record {
  run_id = mode;
  status = RunState.failed;
  scenario_mode = mode;
  fault_active = true;
  target_id = "store";
  adapter_id = "store";
  contract_content_hash = some "sha256:0";
  fixture_content_hash = none;
  intent_content_hash = none;
  failure_profile = none;
  implementation_version = "1";
  build_commit = none;
  trajectory = "place_order" ∷ [];
  overall_result = some LayerResult.failed;
  critical_classifications = classifications;
}

abbrev broken : ComparableRun
broken = run_in "pre_fix" (FailureClassification.assertion_mismatch ∷ [])

abbrev fixed : ComparableRun
fixed = run_in "post_fix" []

compare_runs_example :
    (result : ComparisonResult) × (compare_runs doubles (λ text. text) (λ text. text) broken fixed
      ≡ done result)
    × IsComparison broken fixed result
compare_runs_example = compare_runs-IsComparison doubles (λ text. text) (λ text. text) broken fixed
