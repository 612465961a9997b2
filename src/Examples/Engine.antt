-- ===== src/Examples/Engine.antt =====
-- Assertions, evaluation cases and trials.
use actionwitness.Examples.Data.{integers}
use actionwitness.Prelude.{
  ◌≡◌, ◌≢◌, refl, String, true, false, List, [], ◌∷◌, map, length, Memᴰ, Option, none, some,
}
use actionwitness.Prelude.Int.{int_eq}
use actionwitness.Kernel.{ok}
use actionwitness.Json.{Json, obj, number, dict, JsonDict, end, entry}
use actionwitness.States.{imported_trajectory_replay}
use actionwitness.Paths.{ObservationPath, parse_text, resolve, Resolution, missing}
use actionwitness.Vocabulary.{AssertionOperator, AssertionSeverity, CheckStatus}
use actionwitness.Assertions.{Assertion, is_transition, evaluate_operator, evaluate_assertion}
use actionwitness.Assertions.Verdicts.{is_absent, evaluate_assertion-passed}
use actionwitness.Policies.Inputs.{forbidden_tool, no_undeclared_changes}
use actionwitness.Cases.{OutcomeContract, Step, is_idle, prune_trajectory, requires_complete_state}
use actionwitness.Cases.Pruning.{
  call_of, step_number, needed, numbers_from, prune_trajectory-needed,
}
use actionwitness.Cases.Fixture.{referenced_roots, minimize_fixture}
use actionwitness.Cases.Replay.{IsContractPath, IsPart, minimize_fixture-resolve}
use actionwitness.Matrix.{
  NormalizedTrial, CallLevelResult, OutcomeTrialResult, TrialEligibility, tally, total_trials,
  check_errors_are_a_subset,
}
use actionwitness.Matrix.Counts.{total_trials-tally}

abbrev total : ObservationPath
total = record { segments = "target" ∷ "total" ∷ [] }

abbrev state : JsonDict
state = dict (("total", number 40) ∷ ("visits", number 2) ∷ [])

abbrev before : JsonDict
before = dict (("target", obj state) ∷ [])

abbrev after : JsonDict
after = dict (("target", obj (dict (("total", number 45) ∷ []))) ∷ [])

abbrev term : AssertionOperator → Option Json → Assertion
term operator value = record {
  id = "total";
  path = total;
  operator = operator;
  value = value;
  severity = AssertionSeverity.critical;
}

abbrev five_more : Assertion
five_more = term AssertionOperator.changed_by (some (number 5))

five_more-passes :
    (evaluate_assertion integers five_more (some before) (some after)).status ≡ CheckStatus.passed
unfolding evaluate_assertion evaluate_operator is_transition actionwitness.Paths.walk
    actionwitness.Paths.child
five_more-passes = refl

evaluate_assertion-passed_example :
    ((context : JsonDict) × (some after ≡ some context)
      × (is_absent AssertionOperator.changed_by ≡ false → (resolve total context).found ≡ true))
    × (is_transition AssertionOperator.changed_by ≡ true
        → (context : JsonDict) × (some before ≡ some context)
          × ((resolve total context).found ≡ true))
evaluate_assertion-passed_example =
    evaluate_assertion-passed integers five_more (some before) (some after) five_more-passes

abbrev contract : OutcomeContract
contract = record {
  preconditions = [];
  expected_tools = none;
  assertions = five_more ∷ [];
  policies = forbidden_tool "pay" ∷ [];
}

abbrev steps : List Step
steps = (1, "look", end) ∷ (2, "order", end) ∷ (3, "look", end) ∷ (4, "pay", end) ∷ []

abbrev harmless : List String
harmless = "look" ∷ "pay" ∷ []

prune_trajectory_example :
    let pruned = prune_trajectory steps contract harmless in
    (map call_of pruned ≡ needed (is_idle contract harmless) harmless steps)
    × (map step_number pruned ≡ numbers_from 0 (length pruned))
prune_trajectory_example = prune_trajectory-needed steps contract harmless

minimize_fixture_example :
    let fixture = (minimize_fixture state contract).0 in
    ((text : String) (path : ObservationPath) (context : JsonDict)
      → IsContractPath contract path
      → parse_text text ≡ ok path
      → path.segments ≢ "target" ∷ []
      → resolve path (entry "target" (obj fixture) context)
        ≡ resolve path (entry "target" (obj state) context))
    × IsPart state fixture
    × ((allowed : List ObservationPath)
        → Memᴰ (no_undeclared_changes allowed) contract.policies
        → fixture ≡ state)
minimize_fixture_example = minimize_fixture-resolve state contract

-- an assertion on the bare target reads keys that the fixture has lost
abbrev bare : OutcomeContract
bare = record contract {
  policies = [];
  assertions =
      record {
        id = "t";
        path = total;
        operator = AssertionOperator.exists;
        value = none;
        severity = AssertionSeverity.critical;
      }
      ∷ record {
        id = "w";
        path = record { segments = "target" ∷ [] };
        operator = AssertionOperator.count_equals;
        value = some (number 2);
        severity = AssertionSeverity.critical;
      }
      ∷ [];
}

bare_target_pruned : minimize_fixture state bare ≡ (dict (("total", number 40) ∷ []), false)
unfolding minimize_fixture requires_complete_state referenced_roots actionwitness.Prelude.any
    actionwitness.Cases.Fixture.root_of actionwitness.Cases.Fixture.strip_prefix
    actionwitness.Paths.join_dots actionwitness.Cases.Fixture.before_bracket
    actionwitness.Paths.split_dots actionwitness.Cases.Fixture.keep_keys
bare_target_pruned = refl

abbrev trial : CallLevelResult → OutcomeTrialResult → NormalizedTrial
trial call outcome = record {
  external_trial_id = "t";
  scenario_id = "s";
  correlation_mode = imported_trajectory_replay;
  call_level_result = call;
  outcome_result = outcome;
  eligibility = TrialEligibility.eligible;
  exclusion_reason = none;
  contract_content_hash = none;
  scenario_mode = none;
  failure_profile = none;
  outcome_run_id = none;
  evaluation_run_id = none;
  trajectory = [];
  metadata = end;
  addressable = true;
}

abbrev trials : List NormalizedTrial
trials =
    trial CallLevelResult.passed OutcomeTrialResult.failed
    ∷ trial CallLevelResult.error OutcomeTrialResult.passed
    ∷ trial CallLevelResult.passed OutcomeTrialResult.passed_with_warnings
    ∷ []

total_trials_example :
    (total_trials (tally trials) ≡ length trials)
    × (check_errors_are_a_subset (tally trials) ≡ ok (tally trials))
total_trials_example = total_trials-tally trials
