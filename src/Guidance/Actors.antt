-- ===== src/Guidance/Actors.antt =====
-- Whom a workspace with a run addresses, and what it offers them.
use actionwitness.Prelude.{◌≡◌, ◌≢◌, ◌↔◌, Bool, false, Option, none, some, arith, String}
use actionwitness.Kernel.{ok}
use actionwitness.States.{RunState, run_state_value}
use actionwitness.Lifecycle.{is_terminal}
use actionwitness.Guidance.{
  GuidanceState, GuidanceActor, GuidanceActionCode, WorkspacePhase, phase_for, derive_guidance,
}

-- what guidance says of a run's state
abbrev pub IsGuidance : RunState → GuidanceState → Type 0
IsGuidance state guidance =
    ((guidance.active_actor ≡ GuidanceActor.human_approver)
      ↔ (state ≡ RunState.awaiting_confirmation))
    × ((guidance.recovery_action_code ≡ some GuidanceActionCode.cancel_confirmation)
        ↔ (state ≡ RunState.awaiting_confirmation))
    × (guidance.action_code ≢ none)
    × (is_terminal (run_state_value state) ≡ ok false → guidance.recovery_action_code ≢ none)
    × ((guidance.phase ≡ WorkspacePhase.passed) ↔ (state ≡ RunState.passed))

-- In a workspace with a run, whatever its regression cases: only a run that awaits a confirmation addresses the human approver and offers to cancel the request; every state names an action, and every state that is not terminal a way to recover; and only a run that passed is shown as passed.
pub derive_guidance-IsGuidance :
    (has_contract ready replaying : Bool) (state : RunState) (correlation_id : Option String)
    → IsGuidance state
        (derive_guidance (phase_for has_contract (some state) ready replaying) correlation_id)
unfolding derive_guidance phase_for is_terminal
derive_guidance-IsGuidance has_contract ready replaying RunState.armed correlation_id = ground arith
derive_guidance-IsGuidance has_contract ready replaying RunState.proposing correlation_id =
    ground arith
derive_guidance-IsGuidance has_contract ready replaying RunState.capturing correlation_id =
    ground arith
derive_guidance-IsGuidance has_contract ready replaying RunState.proposed correlation_id =
    ground arith
derive_guidance-IsGuidance has_contract ready replaying RunState.running correlation_id =
    ground arith
derive_guidance-IsGuidance has_contract ready replaying RunState.awaiting_confirmation
      correlation_id =
    ground arith
derive_guidance-IsGuidance has_contract ready replaying RunState.verifying correlation_id =
    ground arith
derive_guidance-IsGuidance has_contract ready replaying RunState.passed correlation_id =
    ground arith
derive_guidance-IsGuidance has_contract ready replaying RunState.passed_with_warnings
      correlation_id =
    ground arith
derive_guidance-IsGuidance has_contract ready replaying RunState.failed correlation_id =
    ground arith
derive_guidance-IsGuidance has_contract ready replaying RunState.error correlation_id = ground arith
derive_guidance-IsGuidance has_contract ready replaying RunState.cancelled correlation_id =
    ground arith
