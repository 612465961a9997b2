-- ===== src/States.antt =====
-- The state enumerations of packages/actionwitness_core/src/actionwitness_core/journeys/enums.py
-- and benchmarks/enums.py. Two members are compared by their positions.
use actionwitness.Prelude.{ℕ, String, ◌≡◌, refl, Eq, List, [], ◌∷◌, get_elem?, some}
use actionwitness.Kernel.{enum_eq}

-- `RunState`
pub data RunState : Type 0 where
  armed proposing capturing proposed running awaiting_confirmation verifying : RunState
  passed passed_with_warnings failed error cancelled : RunState

abbrev pub run_state_rank : RunState → ℕ
run_state_rank armed = 0
run_state_rank proposing = 1
run_state_rank capturing = 2
run_state_rank proposed = 3
run_state_rank running = 4
run_state_rank awaiting_confirmation = 5
run_state_rank verifying = 6
run_state_rank passed = 7
run_state_rank passed_with_warnings = 8
run_state_rank failed = 9
run_state_rank error = 10
run_state_rank cancelled = 11

abbrev pub run_state_members : List RunState
run_state_members =
    armed ∷ proposing ∷ capturing ∷ proposed ∷ running ∷ awaiting_confirmation ∷ verifying ∷ passed
    ∷ passed_with_warnings ∷ failed ∷ error ∷ cancelled ∷ []

pub run_state_position : (s : RunState) → get_elem? run_state_members (run_state_rank s) ≡ some s
run_state_position armed = refl
run_state_position _ = refl

instance abbrev pub run_state_eq : Eq RunState
run_state_eq = enum_eq run_state_rank run_state_members run_state_position

-- the string that a member is
unfoldable pub run_state_value : RunState → String
run_state_value armed = "armed"
run_state_value proposing = "proposing"
run_state_value capturing = "capturing"
run_state_value proposed = "proposed"
run_state_value running = "running"
run_state_value awaiting_confirmation = "awaiting_confirmation"
run_state_value verifying = "verifying"
run_state_value passed = "passed"
run_state_value passed_with_warnings = "passed_with_warnings"
run_state_value failed = "failed"
run_state_value error = "error"
run_state_value cancelled = "cancelled"

-- `EvalRunState`
pub data EvalRunState : Type 0 where
  queued running passed failed cancelled error : EvalRunState

abbrev pub eval_run_state_rank : EvalRunState → ℕ
eval_run_state_rank queued = 0
eval_run_state_rank running = 1
eval_run_state_rank passed = 2
eval_run_state_rank failed = 3
eval_run_state_rank cancelled = 4
eval_run_state_rank error = 5

abbrev pub eval_run_state_members : List EvalRunState
eval_run_state_members = queued ∷ running ∷ passed ∷ failed ∷ cancelled ∷ error ∷ []

pub eval_run_state_position :
    (s : EvalRunState) → get_elem? eval_run_state_members (eval_run_state_rank s) ≡ some s
eval_run_state_position queued = refl
eval_run_state_position _ = refl

instance abbrev pub eval_run_state_eq : Eq EvalRunState
eval_run_state_eq = enum_eq eval_run_state_rank eval_run_state_members eval_run_state_position

-- the string that a member is
unfoldable pub eval_run_state_value : EvalRunState → String
eval_run_state_value queued = "queued"
eval_run_state_value running = "running"
eval_run_state_value passed = "passed"
eval_run_state_value failed = "failed"
eval_run_state_value cancelled = "cancelled"
eval_run_state_value error = "error"

-- `BenchmarkSuiteState`
pub data BenchmarkSuiteState : Type 0 where
  draft ready running completed cancelled error : BenchmarkSuiteState

abbrev pub suite_state_rank : BenchmarkSuiteState → ℕ
suite_state_rank draft = 0
suite_state_rank ready = 1
suite_state_rank running = 2
suite_state_rank completed = 3
suite_state_rank cancelled = 4
suite_state_rank error = 5

abbrev pub suite_state_members : List BenchmarkSuiteState
suite_state_members = draft ∷ ready ∷ running ∷ completed ∷ cancelled ∷ error ∷ []

pub suite_state_position :
    (s : BenchmarkSuiteState) → get_elem? suite_state_members (suite_state_rank s) ≡ some s
suite_state_position draft = refl
suite_state_position _ = refl

instance abbrev pub suite_state_eq : Eq BenchmarkSuiteState
suite_state_eq = enum_eq suite_state_rank suite_state_members suite_state_position

-- the string that a member is
unfoldable pub suite_state_value : BenchmarkSuiteState → String
suite_state_value draft = "draft"
suite_state_value ready = "ready"
suite_state_value running = "running"
suite_state_value completed = "completed"
suite_state_value cancelled = "cancelled"
suite_state_value error = "error"

-- `BenchmarkStatus` of benchmarks/enums.py
pub data BenchmarkStatus : Type 0 where
  draft ready running completed cancelled error : BenchmarkStatus

abbrev pub benchmark_status_rank : BenchmarkStatus → ℕ
benchmark_status_rank draft = 0
benchmark_status_rank ready = 1
benchmark_status_rank running = 2
benchmark_status_rank completed = 3
benchmark_status_rank cancelled = 4
benchmark_status_rank error = 5

abbrev pub benchmark_status_members : List BenchmarkStatus
benchmark_status_members = draft ∷ ready ∷ running ∷ completed ∷ cancelled ∷ error ∷ []

pub benchmark_status_position :
    (s : BenchmarkStatus) → get_elem? benchmark_status_members (benchmark_status_rank s) ≡ some s
benchmark_status_position draft = refl
benchmark_status_position _ = refl

instance abbrev pub benchmark_status_eq : Eq BenchmarkStatus
benchmark_status_eq =
    enum_eq benchmark_status_rank benchmark_status_members benchmark_status_position

-- `CorrelationMode` of benchmarks/enums.py
pub data CorrelationMode : Type 0 where
  executed_browser imported_trajectory_replay : CorrelationMode

abbrev pub correlation_mode_rank : CorrelationMode → ℕ
correlation_mode_rank executed_browser = 0
correlation_mode_rank imported_trajectory_replay = 1

abbrev pub correlation_mode_members : List CorrelationMode
correlation_mode_members = executed_browser ∷ imported_trajectory_replay ∷ []

pub correlation_mode_position :
    (s : CorrelationMode) → get_elem? correlation_mode_members (correlation_mode_rank s) ≡ some s
correlation_mode_position executed_browser = refl
correlation_mode_position _ = refl

instance abbrev pub correlation_mode_eq : Eq CorrelationMode
correlation_mode_eq =
    enum_eq correlation_mode_rank correlation_mode_members correlation_mode_position
