-- ===== src/Guidance/Phases.antt =====
-- `phase_for` of packages/actionwitness_core/src/actionwitness_core/journeys/guidance.py, with the
-- enumerations of journeys/enums.py that guidance speaks in.
use actionwitness.Prelude.{Bool, true, false, if◌then◌else◌, Option, none, some}
use actionwitness.States.{RunState}

-- `WorkspacePhase`
pub data WorkspacePhase : Type 0 where
  no_contract proposing candidates contract_ready armed running awaiting_confirmation :
      WorkspacePhase
  verifying passed passed_with_warnings failed error cancelled eval_ready eval_running :
      WorkspacePhase

-- `GuidanceActor`
pub data GuidanceActor : Type 0 where
  operator agent human_approver system : GuidanceActor

-- `GuidanceActionCode`
pub data GuidanceActionCode : Type 0 where
  select_contract arm_run invoke_target_tool decide_confirmation cancel_confirmation :
      GuidanceActionCode
  verify_outcome review_findings curate_candidates run_regression_eval reset_workspace wait :
      GuidanceActionCode

-- `_PHASE_BY_RUN_STATE`
abbrev pub phase_by_run_state : RunState → WorkspacePhase
phase_by_run_state RunState.armed = WorkspacePhase.armed
phase_by_run_state RunState.proposing = WorkspacePhase.proposing
phase_by_run_state RunState.capturing = WorkspacePhase.proposing
phase_by_run_state RunState.proposed = WorkspacePhase.candidates
phase_by_run_state RunState.running = WorkspacePhase.running
phase_by_run_state RunState.awaiting_confirmation = WorkspacePhase.awaiting_confirmation
phase_by_run_state RunState.verifying = WorkspacePhase.verifying
phase_by_run_state RunState.passed = WorkspacePhase.passed
phase_by_run_state RunState.passed_with_warnings = WorkspacePhase.passed_with_warnings
phase_by_run_state RunState.failed = WorkspacePhase.failed
phase_by_run_state RunState.error = WorkspacePhase.error
phase_by_run_state RunState.cancelled = WorkspacePhase.cancelled

-- `run_state in _EVAL_CAPABLE_RUN_STATES`
abbrev pub is_eval_capable : RunState → Bool
is_eval_capable RunState.failed = true
is_eval_capable RunState.passed_with_warnings = true
is_eval_capable _ = false

abbrev phase_of_run : RunState → Bool → Bool → WorkspacePhase
phase_of_run state ready replaying =
    if is_eval_capable state
    then if replaying
      then WorkspacePhase.eval_running
      else if ready
      then WorkspacePhase.eval_ready
      else phase_by_run_state state
    else phase_by_run_state state

-- `phase_for`
unfoldable pub phase_for : Bool → Option RunState → Bool → Bool → WorkspacePhase
phase_for has_contract (some state) regression_case_ready regression_replay_open =
    phase_of_run state regression_case_ready regression_replay_open
phase_for has_contract none regression_case_ready regression_replay_open =
    if has_contract then WorkspacePhase.contract_ready else WorkspacePhase.no_contract
