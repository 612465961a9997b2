-- ===== src/Matrix.antt =====
-- packages/actionwitness_core/src/actionwitness_core/benchmarks/matrix.py, with the trials and counts
-- of benchmarks/models.py and the trial vocabulary of benchmarks/enums.py.
pub mod Counts
use actionwitness.Prelude.{
  ℕ, suc, ◌+◌, String, Bool, true, false, not, ◌&&◌, List, [], ◌∷◌, Option, none, some, ltb,
  if◌then◌else◌,
}
use actionwitness.Kernel.{Result, ok, raise, contract_validation_failed}
use actionwitness.Json.{JsonDict}
use actionwitness.States.{CorrelationMode}
use actionwitness.Vocabulary.{LayerResult}

-- `CallLevelResult`
pub data CallLevelResult : Type 0 where
  passed failed error : CallLevelResult

-- `OutcomeTrialResult`
pub data OutcomeTrialResult : Type 0 where
  passed passed_with_warnings failed error not_reached : OutcomeTrialResult

-- `TrialEligibility`
pub data TrialEligibility : Type 0 where
  eligible excluded : TrialEligibility

-- `ExclusionReason`
pub data ExclusionReason : Type 0 where
  evaluator_error unbound missing_trajectory outcome_not_reached outcome_error : ExclusionReason
  harness_error : ExclusionReason

-- `outcome_from_layer_result`
unfoldable pub outcome_from_layer_result : Option LayerResult → OutcomeTrialResult
outcome_from_layer_result none = OutcomeTrialResult.not_reached
outcome_from_layer_result (some LayerResult.passed) = OutcomeTrialResult.passed
outcome_from_layer_result (some LayerResult.passed_with_warnings) =
    OutcomeTrialResult.passed_with_warnings
outcome_from_layer_result (some LayerResult.failed) = OutcomeTrialResult.failed
outcome_from_layer_result (some LayerResult.error) = OutcomeTrialResult.error
outcome_from_layer_result (some LayerResult.blocked_safely) = OutcomeTrialResult.not_reached
outcome_from_layer_result (some LayerResult.not_evaluated) = OutcomeTrialResult.not_reached

-- `NormalizedTrial`
pub record NormalizedTrial : Type 0 where
  pub external_trial_id : String
  pub scenario_id : String
  pub correlation_mode : CorrelationMode
  pub call_level_result : CallLevelResult
  pub outcome_result : OutcomeTrialResult
  pub eligibility : TrialEligibility
  pub exclusion_reason : Option ExclusionReason
  pub contract_content_hash : Option String
  pub scenario_mode : Option String
  pub failure_profile : Option String
  pub outcome_run_id : Option String
  pub evaluation_run_id : Option String
  pub trajectory : List JsonDict
  pub metadata : JsonDict
  pub addressable : Bool

-- `NormalizedTrial._an_excluded_trial_says_why`
unfoldable pub check_excluded_says_why : NormalizedTrial → Result NormalizedTrial
check_excluded_says_why trial = elim trial.eligibility [
  | TrialEligibility.excluded ↦ elim trial.exclusion_reason [
    | none ↦ raise contract_validation_failed
    | some reason ↦ ok trial
  ]
  | TrialEligibility.eligible ↦ elim trial.exclusion_reason [
    | none ↦ ok trial
    | some reason ↦ raise contract_validation_failed
  ]
]

-- `outcome_result in OUTCOME_PASS_RESULTS`
unfoldable pub is_outcome_pass : OutcomeTrialResult → Bool
is_outcome_pass OutcomeTrialResult.passed = true
is_outcome_pass OutcomeTrialResult.passed_with_warnings = true
is_outcome_pass _ = false

-- `call_level_result is CallLevelResult.PASSED`
unfoldable pub is_call_pass : CallLevelResult → Bool
is_call_pass CallLevelResult.passed = true
is_call_pass _ = false

abbrev exclusion_of_outcome : OutcomeTrialResult → Option ExclusionReason
exclusion_of_outcome OutcomeTrialResult.error = some ExclusionReason.outcome_error
exclusion_of_outcome OutcomeTrialResult.not_reached = some ExclusionReason.outcome_not_reached
exclusion_of_outcome _ = none

-- `exclusion_for`, on the two results of a trial
unfoldable pub exclusion_for : CallLevelResult → OutcomeTrialResult → Option ExclusionReason
exclusion_for CallLevelResult.error outcome = some ExclusionReason.evaluator_error
exclusion_for CallLevelResult.passed outcome = exclusion_of_outcome outcome
exclusion_for CallLevelResult.failed outcome = exclusion_of_outcome outcome

-- `classify`
unfoldable pub classify : NormalizedTrial → TrialEligibility × Option ExclusionReason
unfolding exclusion_for
classify trial = elim trial.eligibility [
  | TrialEligibility.excluded ↦ (TrialEligibility.excluded, trial.exclusion_reason)
  | TrialEligibility.eligible ↦ elim (exclusion_for trial.call_level_result trial.outcome_result) [
    | none ↦ (TrialEligibility.eligible, none)
    | some reason ↦ (TrialEligibility.excluded, some reason)
  ]
]

-- `MatrixCounts`
pub record MatrixCounts : Type 0 where
  pub call_level_pass_outcome_pass : ℕ
  pub call_level_pass_outcome_fail : ℕ
  pub call_level_fail_outcome_pass : ℕ
  pub call_level_fail_outcome_fail : ℕ
  pub excluded_trials : ℕ
  pub error_trials : ℕ

-- `MatrixCounts._errors_are_a_subset_of_exclusions`
unfoldable pub check_errors_are_a_subset : MatrixCounts → Result MatrixCounts
check_errors_are_a_subset counts =
    if ltb counts.excluded_trials counts.error_trials
    then raise contract_validation_failed
    else ok counts

-- `MatrixCounts.eligible_trials`
unfoldable pub eligible_trials : MatrixCounts → ℕ
eligible_trials counts =
    counts.call_level_pass_outcome_pass + counts.call_level_pass_outcome_fail
    + counts.call_level_fail_outcome_pass + counts.call_level_fail_outcome_fail

-- `MatrixCounts.total_trials`
unfoldable pub total_trials : MatrixCounts → ℕ
unfolding eligible_trials
total_trials counts = eligible_trials counts + counts.excluded_trials

-- `reason in error_reasons`
unfoldable pub is_error_reason : Option ExclusionReason → Bool
is_error_reason (some ExclusionReason.evaluator_error) = true
is_error_reason (some ExclusionReason.outcome_error) = true
is_error_reason (some ExclusionReason.harness_error) = true
is_error_reason _ = false

abbrev add_excluded : Bool → MatrixCounts → MatrixCounts
add_excluded is_error c = record c {
  excluded_trials = suc c.excluded_trials;
  error_trials = if is_error then suc c.error_trials else c.error_trials;
}

abbrev add_cell : Bool → Bool → MatrixCounts → MatrixCounts
add_cell true true c = record c {
  call_level_pass_outcome_pass = suc c.call_level_pass_outcome_pass;
}
add_cell true false c = record c {
  call_level_pass_outcome_fail = suc c.call_level_pass_outcome_fail;
}
add_cell false true c = record c {
  call_level_fail_outcome_pass = suc c.call_level_fail_outcome_pass;
}
add_cell false false c = record c {
  call_level_fail_outcome_fail = suc c.call_level_fail_outcome_fail;
}

abbrev add_classified :
    TrialEligibility → Option ExclusionReason → NormalizedTrial → MatrixCounts → MatrixCounts
add_classified TrialEligibility.excluded reason trial c = add_excluded (is_error_reason reason) c
add_classified TrialEligibility.eligible reason trial c =
    add_cell (is_call_pass trial.call_level_result) (is_outcome_pass trial.outcome_result) c

-- one round of the loop of `tally`
abbrev pub add_trial : NormalizedTrial → MatrixCounts → MatrixCounts
add_trial trial c =
    let (eligibility, reason) = classify trial in add_classified eligibility reason trial c

-- the loop of `tally`
unfoldable pub tally_from : MatrixCounts → List NormalizedTrial → MatrixCounts
tally_from counts [] = counts
tally_from counts (trial ∷ trials) = tally_from (add_trial trial counts) trials

abbrev pub no_trials : MatrixCounts
no_trials = record {
  call_level_pass_outcome_pass = 0;
  call_level_pass_outcome_fail = 0;
  call_level_fail_outcome_pass = 0;
  call_level_fail_outcome_fail = 0;
  excluded_trials = 0;
  error_trials = 0;
}

-- `tally`
unfoldable pub tally : List NormalizedTrial → MatrixCounts
unfolding tally_from
tally trials = tally_from no_trials trials
