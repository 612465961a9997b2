-- ===== src/Lifecycle.antt =====
-- packages/actionwitness_core/src/actionwitness_core/journeys/transitions.py and
-- benchmarks/states.py. A transition table is the list of its rows, a state with its targets.
pub mod Histories
pub mod Suites
use actionwitness.Prelude.{
  ◌≡◌, Eq, ◌==◌, Bool, true, false, ◌||◌, ◌&&◌, not, String, string_eq, List, [], ◌∷◌, Option, none,
  some, if◌then◌else◌,
}
use actionwitness.Kernel.{
  Result, ok, raise, ◌>>=◌, CoreErrorCode, invalid_state_transition, contract_validation_failed,
}
use actionwitness.States.{
  RunState, armed, proposing, capturing, proposed, running, awaiting_confirmation, verifying,
  passed, passed_with_warnings, failed, error, cancelled, run_state_eq, run_state_value,
  eval_run_state_value, suite_state_value, EvalRunState, eval_run_state_eq, BenchmarkSuiteState,
  suite_state_eq, BenchmarkStatus, benchmark_status_eq, CorrelationMode, correlation_mode_eq,
  imported_trajectory_replay,
}

abbrev pub Table : Type 0 → Type 0
Table S = List (S × List S)

module _ {S : Type 0} ⦃e : Eq S⦄ where
  -- `state in states`
  abbrev pub contains : List S → S → Bool
  contains [] s = false
  contains (x ∷ xs) s = x == s || contains xs s

  -- `table[state]`, or `none` where the state is no key
  abbrev pub row : Table S → S → Option (List S)
  row [] s = none
  row ((k, targets) ∷ rows) s = if k == s then some targets else row rows s

  -- `_validate`
  unfoldable pub validate : S → S → Table S → Result (Unit {0})
  validate current target table = elim (row table current) [
    | none ↦ raise invalid_state_transition
    | some targets ↦ elim (row table target) [
      | none ↦ raise invalid_state_transition
      | some _ ↦ if contains targets target then ok tt else raise invalid_state_transition
    ]
  ]

-- `RUN_TRANSITIONS`
abbrev pub run_transitions : Table RunState
run_transitions =
    (armed, running ∷ cancelled ∷ error ∷ [])
    ∷ (proposing, capturing ∷ cancelled ∷ error ∷ [])
    ∷ (capturing, proposed ∷ cancelled ∷ error ∷ [])
    ∷ (proposed, [])
    ∷ (running, awaiting_confirmation ∷ verifying ∷ cancelled ∷ error ∷ [])
    ∷ (awaiting_confirmation, running ∷ cancelled ∷ error ∷ [])
    ∷ (verifying, passed ∷ passed_with_warnings ∷ failed ∷ error ∷ [])
    ∷ (passed, [])
    ∷ (passed_with_warnings, [])
    ∷ (failed, [])
    ∷ (error, [])
    ∷ (cancelled, [])
    ∷ []

-- `EVAL_RUN_TRANSITIONS`
abbrev pub eval_run_transitions : Table EvalRunState
eval_run_transitions =
    (EvalRunState.queued, EvalRunState.running ∷ EvalRunState.cancelled ∷ EvalRunState.error ∷ [])
    ∷ (
      EvalRunState.running,
      EvalRunState.passed ∷ EvalRunState.failed ∷ EvalRunState.cancelled ∷ EvalRunState.error ∷ [],
    )
    ∷ (EvalRunState.passed, [])
    ∷ (EvalRunState.failed, [])
    ∷ (EvalRunState.cancelled, [])
    ∷ (EvalRunState.error, [])
    ∷ []

-- `BENCHMARK_SUITE_TRANSITIONS`
abbrev pub benchmark_suite_transitions : Table BenchmarkSuiteState
benchmark_suite_transitions =
    (
      BenchmarkSuiteState.draft,
      BenchmarkSuiteState.ready ∷ BenchmarkSuiteState.cancelled ∷ BenchmarkSuiteState.error ∷ [],
    )
    ∷ (
      BenchmarkSuiteState.ready,
      BenchmarkSuiteState.running ∷ BenchmarkSuiteState.completed ∷ BenchmarkSuiteState.cancelled
          ∷ BenchmarkSuiteState.error ∷ [],
    )
    ∷ (
      BenchmarkSuiteState.running,
      BenchmarkSuiteState.completed ∷ BenchmarkSuiteState.cancelled ∷ BenchmarkSuiteState.error
          ∷ [],
    )
    ∷ (BenchmarkSuiteState.completed, [])
    ∷ (BenchmarkSuiteState.cancelled, [])
    ∷ (BenchmarkSuiteState.error, [])
    ∷ []

-- `PROPOSAL_RUN_STATES`
abbrev pub proposal_run_states : List RunState
proposal_run_states = proposing ∷ capturing ∷ proposed ∷ []

-- `VERDICT_RUN_STATES`
abbrev pub verdict_run_states : List RunState
verdict_run_states = passed ∷ passed_with_warnings ∷ failed ∷ []

unfoldable pub validate_run_transition : RunState → RunState → Result (Unit {0})
unfolding validate
validate_run_transition current target = validate current target run_transitions

unfoldable pub validate_eval_run_transition : EvalRunState → EvalRunState → Result (Unit {0})
unfolding validate
validate_eval_run_transition current target = validate current target eval_run_transitions

unfoldable pub validate_benchmark_suite_transition :
    BenchmarkSuiteState → BenchmarkSuiteState → Result (Unit {0})
unfolding validate
validate_benchmark_suite_transition current target =
    validate current target benchmark_suite_transitions

-- `not table[state]`
abbrev pub no_targets {ℓ} : {S : Type ℓ} → List S → Bool
no_targets [] = true
no_targets (t ∷ ts) = false

-- A table's row for a state of any machine: members of two enumerations are one key of a mapping if
-- they are the same string.
abbrev pub row_of_text : {S : Type 0} → (S → String) → Table S → String → Option (List S)
row_of_text value [] state = none
row_of_text value ((k, targets) ∷ rows) state =
    if value k == state then some targets else row_of_text value rows state

-- `is_terminal`: the three tables in turn
unfoldable pub is_terminal : String → Result Bool
unfolding run_state_value eval_run_state_value suite_state_value
is_terminal state = elim (row_of_text run_state_value run_transitions state) [
  | some targets ↦ ok (no_targets targets)
  | none ↦ elim (row_of_text eval_run_state_value eval_run_transitions state) [
    | some targets ↦ ok (no_targets targets)
    | none ↦ elim (row_of_text suite_state_value benchmark_suite_transitions state) [
      | some targets ↦ ok (no_targets targets)
      | none ↦ raise invalid_state_transition
    ]
  ]
]

-- `can_reset`
unfoldable pub can_reset : RunState → Bool
can_reset state = elim (row run_transitions state) [ none ↦ false | some _ ↦ true ]

-- `PERMITTED_TRANSITIONS` of benchmarks/states.py
abbrev pub permitted_transitions : Table BenchmarkStatus
permitted_transitions =
    (
      BenchmarkStatus.draft,
      BenchmarkStatus.ready ∷ BenchmarkStatus.cancelled ∷ BenchmarkStatus.error ∷ [],
    )
    ∷ (
      BenchmarkStatus.ready,
      BenchmarkStatus.running ∷ BenchmarkStatus.completed ∷ BenchmarkStatus.cancelled
          ∷ BenchmarkStatus.error ∷ [],
    )
    ∷ (
      BenchmarkStatus.running,
      BenchmarkStatus.completed ∷ BenchmarkStatus.cancelled ∷ BenchmarkStatus.error ∷ [],
    )
    ∷ (BenchmarkStatus.completed, [])
    ∷ (BenchmarkStatus.cancelled, [])
    ∷ (BenchmarkStatus.error, [])
    ∷ []

-- `target in PERMITTED_TRANSITIONS[current]`; every status is a key
unfoldable pub can_transition : BenchmarkStatus → BenchmarkStatus → Bool
can_transition current target = elim (row permitted_transitions current) [
  | none ↦ false
  | some targets ↦ contains targets target
]

-- `correlation_mode is CorrelationMode.IMPORTED_TRAJECTORY_REPLAY`
abbrev pub is_replay : Option CorrelationMode → Bool
is_replay none = false
is_replay (some mode) = mode == imported_trajectory_replay

-- `require_transition`
unfoldable pub require_transition :
    BenchmarkStatus → BenchmarkStatus → Option CorrelationMode → Result BenchmarkStatus
unfolding can_transition
require_transition current target correlation_mode =
    if not (can_transition current target)
    then raise contract_validation_failed
    else if (current == BenchmarkStatus.ready)
        && (target == BenchmarkStatus.completed)
        && is_replay correlation_mode
    then raise contract_validation_failed
    else ok target
