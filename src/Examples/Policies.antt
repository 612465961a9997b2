-- ===== src/Examples/Policies.antt =====
-- The policies of engine/policies.py, on the run in which the approval comes too late.
use actionwitness.Prelude.{
  ◌≡◌, ◌≢◌, ◌≤◌, ◌<◌, ◌⊎◌, ◌↔◌, String, true, false, ◌&&◌, List, [], ◌∷◌, none, some, length,
  filter, Some,
}
use actionwitness.Vocabulary.{CheckStatus, SurfaceDeltaKind}
use actionwitness.Evidence.{is_invocation_start}
use actionwitness.Paths.{ObservationPath}
use actionwitness.Policies.Inputs.{
  Policy, SurfaceDelta, names_tool, requires_confirmation, idempotent_by_request_id,
  maximum_mutations, forbidden_tool, no_undeclared_changes, stable_tool_surface,
}
use actionwitness.Policies.{evaluate_policies}
use actionwitness.Policies.Consent.{evaluate_requires_confirmation}
use actionwitness.Policies.Consent.Laws.{is_unauthorised, requires_confirmation_fails}
use actionwitness.Policies.Retries.{
  is_mutation, is_unknown, evaluate_idempotency, evaluate_maximum_mutations,
}
use actionwitness.Policies.Retries.Laws.{requests_of, IsIdempotent, idempotency_passes}
use actionwitness.Policies.Retries.Limits.{completed, maximum_mutations_status}
use actionwitness.Policies.Changes.{declared_paths, paths_to_judge, evaluate_no_undeclared_changes}
use actionwitness.Policies.Changes.Partition.{is_undeclared, Reports, no_undeclared_changes_lem}
use actionwitness.Policies.Attribution.{blame}
use actionwitness.Policies.Attribution.Blame.{IsBlamed, blame-IsBlamed}
use actionwitness.Policies.Surface.{is_watched, is_failing_kind, evaluate_stable_tool_surface}
use actionwitness.Policies.Surface.Laws.{stable_tool_surface_cases}
use actionwitness.Policies.Shape.{InPlace, evaluate_policies_lem}
use actionwitness.Examples.Data.{late_approval, repeated_request, evidence}

abbrev tool : String
tool = "place_order"

requires_confirmation_example :
    let finding =
      evaluate_requires_confirmation (requires_confirmation tool 60) tool late_approval in
    ((finding.status ≡ CheckStatus.failed) ↔ (
      Some (λ e. is_invocation_start e && names_tool tool e) late_approval
      × Some (is_unauthorised tool late_approval) late_approval))
    × ((finding.status ≡ CheckStatus.failed) ⊎ (finding.status ≡ CheckStatus.passed))
requires_confirmation_example =
    requires_confirmation_fails (requires_confirmation tool 60) tool late_approval

idempotency_example :
    ((evaluate_idempotency (idempotent_by_request_id tool) tool repeated_request).status
      ≡ CheckStatus.passed)
    ↔ ((id : String)
        → id ≢ ""
        → 1 < length (requests_of tool id repeated_request)
        → IsIdempotent (requests_of tool id repeated_request))
idempotency_example = idempotency_passes (idempotent_by_request_id tool) tool repeated_request

maximum_mutations_example :
    let status = (evaluate_maximum_mutations (maximum_mutations 1) 1 repeated_request).status in
    let mutations = length (filter (completed is_mutation) repeated_request) in
    ((status ≡ CheckStatus.observation_unavailable) ↔ Some (completed is_unknown) repeated_request)
    × (¬ Some (completed is_unknown) repeated_request
        → ((status ≡ CheckStatus.failed) ↔ (1 < mutations))
          × ((status ≡ CheckStatus.passed) ↔ (mutations ≤ 1)))
maximum_mutations_example = maximum_mutations_status (maximum_mutations 1) 1 repeated_request

no_undeclared_changes_example :
    let finding = evaluate_no_undeclared_changes (no_undeclared_changes []) [] evidence in
    let bare = is_undeclared (declared_paths evidence) [] in
    ((finding.status ≡ CheckStatus.not_evaluated) × (paths_to_judge evidence ≡ none))
    ⊎ ((changed : List ObservationPath) × (paths_to_judge evidence ≡ some changed)
        × Reports bare changed finding)
no_undeclared_changes_example = no_undeclared_changes_lem (no_undeclared_changes []) [] evidence

blame_example : IsBlamed late_approval (blame late_approval)
blame_example = blame-IsBlamed late_approval

abbrev kinds : List SurfaceDeltaKind
kinds = SurfaceDeltaKind.schema_change ∷ []

stable_tool_surface_example :
    let status = (evaluate_stable_tool_surface (stable_tool_surface kinds) kinds evidence).status in
    let failing = λ (d : SurfaceDelta). is_watched d && is_failing_kind kinds d in
    ((status ≡ CheckStatus.observation_unavailable) ↔ (evidence.surface_baseline_recorded ≡ false))
    × ((status ≡ CheckStatus.passed) ↔ (
        (evidence.surface_baseline_recorded ≡ true)
        × (evidence.identity_mismatches ≡ [])
        × ¬ Some failing evidence.observed_surface_deltas))
    × ((status ≡ CheckStatus.failed) ↔ (
        (evidence.surface_baseline_recorded ≡ true)
        × ((evidence.identity_mismatches ≢ []) ⊎ Some failing evidence.observed_surface_deltas)))
stable_tool_surface_example = stable_tool_surface_cases (stable_tool_surface kinds) kinds evidence

abbrev policies : List Policy
policies = forbidden_tool tool ∷ maximum_mutations 1 ∷ stable_tool_surface kinds ∷ []

evaluate_policies_example :
    (length (evaluate_policies policies evidence) ≡ length policies) × InPlace policies evidence
evaluate_policies_example = evaluate_policies_lem policies evidence
