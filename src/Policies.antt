-- ===== src/Policies.antt =====
-- packages/actionwitness_core/src/actionwitness_core/engine/policies.py: the six policies of a
-- contract. The children hold the evaluators and what they decide; this module chooses among them.
pub mod Inputs
pub mod Consent
pub mod Retries
pub mod Attribution
pub mod Changes
pub mod Surface
pub mod Shape
use actionwitness.Prelude.{List, map}
use actionwitness.Findings.{Finding}
use actionwitness.Policies.Inputs.{
  Policy, PolicyEvidence, requires_confirmation, idempotent_by_request_id, maximum_mutations,
  forbidden_tool, no_undeclared_changes, stable_tool_surface,
}
use actionwitness.Policies.Consent.{evaluate_requires_confirmation}
use actionwitness.Policies.Retries.{
  evaluate_idempotency, evaluate_maximum_mutations, evaluate_forbidden_tool,
}
use actionwitness.Policies.Changes.{evaluate_no_undeclared_changes}
use actionwitness.Policies.Surface.{evaluate_stable_tool_surface}

-- `evaluate_policy`; `_EVALUATORS` has every policy type
unfoldable pub evaluate_policy : Policy → PolicyEvidence → Finding
evaluate_policy (requires_confirmation tool timeout) evidence =
    evaluate_requires_confirmation (requires_confirmation tool timeout) tool evidence.events
evaluate_policy (idempotent_by_request_id tool) evidence =
    evaluate_idempotency (idempotent_by_request_id tool) tool evidence.events
evaluate_policy (maximum_mutations limit) evidence =
    evaluate_maximum_mutations (maximum_mutations limit) limit evidence.events
evaluate_policy (forbidden_tool tool) evidence =
    evaluate_forbidden_tool (forbidden_tool tool) tool evidence.events
evaluate_policy (no_undeclared_changes allow_paths) evidence =
    evaluate_no_undeclared_changes (no_undeclared_changes allow_paths) allow_paths evidence
evaluate_policy (stable_tool_surface kinds) evidence =
    evaluate_stable_tool_surface (stable_tool_surface kinds) kinds evidence

-- `evaluate_policies`
unfoldable pub evaluate_policies : List Policy → PolicyEvidence → List Finding
evaluate_policies policies evidence = map (λ policy. evaluate_policy policy evidence) policies
