-- ===== src/Examples/Checks.antt =====
-- Findings and trajectories.
use mathlib.Core.List.{Sublistᴰ}
use actionwitness.Prelude.{
  ℕ, ◌≡◌, ◌≤◌, refl, ◌↔◌, Bool, true, false, List, [], ◌∷◌, Memᴰ, none, some, String,
}
use actionwitness.Prelude.Sort.{IsSorted}
use actionwitness.Vocabulary.{AssertionSeverity, CheckStatus, LayerResult}
use actionwitness.Findings.{
  Finding, has_failed, severity_rank, finding_leb, primary_failure, is_critical, is_warning,
  aggregate,
}
use actionwitness.Findings.Order.{primary_failure_least}
use actionwitness.Findings.Layers.{SomeFailed, aggregate_cases}
use actionwitness.Trajectory.{ExpectedTools, observed_calls, evaluate_expected_tools}
use actionwitness.Trajectory.Conformance.{Enough, evaluate_expected_tools_passes}
use actionwitness.Examples.Data.{failure, two_failures, late_approval}

aggregate_example :
    ((aggregate two_failures ≡ LayerResult.failed) ↔ SomeFailed is_critical two_failures)
    × ((aggregate two_failures ≡ LayerResult.passed_with_warnings)
        ↔ (¬ SomeFailed is_critical two_failures × SomeFailed is_warning two_failures))
    × ((aggregate two_failures ≡ LayerResult.passed)
        ↔ (¬ SomeFailed is_critical two_failures × ¬ SomeFailed is_warning two_failures))
aggregate_example = aggregate_cases two_failures

two_failures-primary :
    primary_failure two_failures ≡ some (failure "total" AssertionSeverity.critical)
unfolding primary_failure actionwitness.Prelude.Sort.sort_by actionwitness.Prelude.filter
two_failures-primary = refl

primary_failure_least_example :
    let p = failure "total" AssertionSeverity.critical in
    Memᴰ p two_failures
    × (has_failed p ≡ true)
    × ((g : Finding)
        → Memᴰ g two_failures
        → has_failed g ≡ true
        → (finding_leb p g ≡ true) × (severity_rank g.severity ≤ severity_rank p.severity))
primary_failure_least_example = primary_failure_least two_failures two_failures-primary

abbrev wanted : List String
wanted = "search" ∷ "order" ∷ []

abbrev called : List String
called = "search" ∷ "look" ∷ "order" ∷ []

abbrev expected : ExpectedTools
expected = record { calls = "place_order" ∷ "place_order" ∷ []; is_ordered = true }

evaluate_expected_tools_example :
    ((evaluate_expected_tools (some expected) late_approval).status ≡ CheckStatus.passed) ↔ (
      Enough expected.calls (observed_calls late_approval)
      × (expected.is_ordered ≡ true → Sublistᴰ expected.calls (observed_calls late_approval)))
evaluate_expected_tools_example = evaluate_expected_tools_passes expected late_approval
