-- ===== src/Guidance.antt =====
-- packages/actionwitness_core/src/actionwitness_core/journeys/guidance.py: the phase of a workspace, and
-- what it is told to do. A workspace is shown one phase, which its run's state decides.
mod Phases
pub mod Actors
unfoldable pub use Phases.*
use actionwitness.Prelude.{String, Bool, true, false, List, [], ◌∷◌, Option, none, some}
use actionwitness.Prelude.Text.{concat}

-- `GuidanceState`
pub record GuidanceState : Type 0 where
  pub phase : WorkspacePhase
  pub active_actor : GuidanceActor
  pub next_actor : Option GuidanceActor
  pub headline : String
  pub instruction : String
  pub reason : String
  pub expected_consequence : String
  pub action_code : Option GuidanceActionCode
  pub recovery_action_code : Option GuidanceActionCode
  pub waiting_for : Option String
  pub requires_human_input : Bool
  pub correlation_id : Option String

-- `derive_guidance`, with the row of `_GUIDANCE` for each phase
unfoldable pub derive_guidance : WorkspacePhase → Option String → GuidanceState
derive_guidance WorkspacePhase.no_contract correlation_id = record {
  phase = WorkspacePhase.no_contract;
  active_actor = GuidanceActor.operator;
  next_actor = some GuidanceActor.agent;
  headline = "Choose what this run should prove.";
  instruction = "Select one of the built-in contracts to judge the next run against.";
  reason = "A run needs a contract; without one there is nothing to compare against.";
  expected_consequence = concat (
      "The contract and its target become the workspace's selection, and the run " ∷ "can be armed."
      ∷ []);
  action_code = some GuidanceActionCode.select_contract;
  recovery_action_code = none;
  waiting_for = none;
  requires_human_input = true;
  correlation_id = correlation_id;
}
derive_guidance WorkspacePhase.contract_ready correlation_id = record {
  phase = WorkspacePhase.contract_ready;
  active_actor = GuidanceActor.operator;
  next_actor = some GuidanceActor.agent;
  headline = "Arm the run.";
  instruction = "Arm the selected contract to capture the target's starting state.";
  reason = concat (
      "Arming records the configuration and one authoritative observation, so the "
      ∷ "outcome can later be compared against a baseline nobody edited." ∷ []);
  expected_consequence = concat (
      "A run is created in `armed`, its initial snapshot is stored, and the agent "
      ∷ "may begin using target tools." ∷ []);
  action_code = some GuidanceActionCode.arm_run;
  recovery_action_code = none;
  waiting_for = none;
  requires_human_input = true;
  correlation_id = correlation_id;
}
derive_guidance WorkspacePhase.armed correlation_id = record {
  phase = WorkspacePhase.armed;
  active_actor = GuidanceActor.agent;
  next_actor = some GuidanceActor.agent;
  headline = "The run is armed. Work the task.";
  instruction = "Use the target's tools to carry out the task the contract describes.";
  reason = concat (
      "The starting state is recorded, so every change from here on is "
      ∷ "attributable to an action on the timeline." ∷ []);
  expected_consequence = concat (
      "Each tool call is recorded with what it reported and what was independently "
      ∷ "observed immediately afterwards." ∷ []);
  action_code = some GuidanceActionCode.invoke_target_tool;
  recovery_action_code = some GuidanceActionCode.reset_workspace;
  waiting_for = none;
  requires_human_input = false;
  correlation_id = correlation_id;
}
derive_guidance WorkspacePhase.running correlation_id = record {
  phase = WorkspacePhase.running;
  active_actor = GuidanceActor.agent;
  next_actor = some GuidanceActor.system;
  headline = "Continue, then verify when the task is done.";
  instruction = concat (
      "Continue with the target's tools, and verify the outcome when the task is " ∷ "complete."
      ∷ []);
  reason = concat (
      "Verification is what turns recorded actions into a judged outcome; until it "
      ∷ "runs, nothing has been decided." ∷ []);
  expected_consequence = concat (
      "Verification captures final state, evaluates the contract, and produces a "
      ∷ "report that stands on independent observation." ∷ []);
  action_code = some GuidanceActionCode.verify_outcome;
  recovery_action_code = some GuidanceActionCode.reset_workspace;
  waiting_for = none;
  requires_human_input = false;
  correlation_id = correlation_id;
}
derive_guidance WorkspacePhase.awaiting_confirmation correlation_id = record {
  phase = WorkspacePhase.awaiting_confirmation;
  active_actor = GuidanceActor.human_approver;
  next_actor = some GuidanceActor.agent;
  headline = "A protected action needs a person's decision.";
  instruction = "Review the pending action and choose Approve once or Deny.";
  reason = concat (
      "This action changes state that cannot be undone by retrying, so it proceeds "
      ∷ "only on an explicit decision made by a person." ∷ []);
  expected_consequence = concat (
      "Approving lets this one invocation proceed; denying stops it. Either way "
      ∷ "the decision and its outcome are recorded." ∷ []);
  action_code = some GuidanceActionCode.decide_confirmation;
  recovery_action_code = some GuidanceActionCode.cancel_confirmation;
  waiting_for = some "the agent is waiting for this decision before it can continue";
  requires_human_input = true;
  correlation_id = correlation_id;
}
derive_guidance WorkspacePhase.verifying correlation_id = record {
  phase = WorkspacePhase.verifying;
  active_actor = GuidanceActor.system;
  next_actor = some GuidanceActor.operator;
  headline = "Verifying the outcome.";
  instruction = "No action is needed while verification completes.";
  reason = concat (
      "Final state is being captured and evaluated; new target actions are refused "
      ∷ "so the snapshot describes one moment." ∷ []);
  expected_consequence = "A report and its findings become available.";
  action_code = some GuidanceActionCode.wait;
  recovery_action_code = some GuidanceActionCode.reset_workspace;
  waiting_for = some "the server is capturing final state and evaluating the contract";
  requires_human_input = false;
  correlation_id = correlation_id;
}
derive_guidance WorkspacePhase.passed correlation_id = record {
  phase = WorkspacePhase.passed;
  active_actor = GuidanceActor.operator;
  next_actor = none;
  headline = "The outcome passed.";
  instruction = "Read the report to see what was observed and how it was judged.";
  reason = "Every assertion held against independently observed state.";
  expected_consequence = "The run is terminal; its evidence is retained.";
  action_code = some GuidanceActionCode.review_findings;
  recovery_action_code = none;
  waiting_for = none;
  requires_human_input = false;
  correlation_id = correlation_id;
}
derive_guidance WorkspacePhase.passed_with_warnings correlation_id = record {
  phase = WorkspacePhase.passed_with_warnings;
  active_actor = GuidanceActor.operator;
  next_actor = none;
  headline = "The outcome passed, with warnings.";
  instruction = "Read the findings to see which non-critical checks did not hold.";
  reason = "No critical assertion failed, but at least one warning was recorded.";
  expected_consequence = "The run is terminal; a regression eval can be generated from it.";
  action_code = some GuidanceActionCode.review_findings;
  recovery_action_code = none;
  waiting_for = none;
  requires_human_input = false;
  correlation_id = correlation_id;
}
derive_guidance WorkspacePhase.failed correlation_id = record {
  phase = WorkspacePhase.failed;
  active_actor = GuidanceActor.operator;
  next_actor = none;
  headline = "The outcome failed.";
  instruction = "Read the findings to see which check failed and what was observed.";
  reason = concat (
      "At least one critical assertion did not hold against independently observed " ∷ "state."
      ∷ []);
  expected_consequence = "The run is terminal; a regression eval can be generated to reproduce it.";
  action_code = some GuidanceActionCode.review_findings;
  recovery_action_code = none;
  waiting_for = none;
  requires_human_input = false;
  correlation_id = correlation_id;
}
derive_guidance WorkspacePhase.error correlation_id = record {
  phase = WorkspacePhase.error;
  active_actor = GuidanceActor.operator;
  next_actor = none;
  headline = "The run stopped without a verdict.";
  instruction = "Read the report to see why verification could not be completed.";
  reason = concat (
      "The harness could not finish — a required observation was unavailable, or a "
      ∷ "resource ceiling was reached — so no assertion was judged and nothing here " ∷ "is a pass."
      ∷ []);
  expected_consequence = concat (
      "The run is terminal and its evidence is kept. Resetting clears it, keeps "
      ∷ "the selected contract, and reseeds the target so the next run starts from a "
      ∷ "known state." ∷ []);
  action_code = some GuidanceActionCode.review_findings;
  recovery_action_code = some GuidanceActionCode.reset_workspace;
  waiting_for = none;
  requires_human_input = false;
  correlation_id = correlation_id;
}
derive_guidance WorkspacePhase.cancelled correlation_id = record {
  phase = WorkspacePhase.cancelled;
  active_actor = GuidanceActor.operator;
  next_actor = some GuidanceActor.agent;
  headline = "The run was cancelled before it was verified.";
  instruction = "Arm a new run when you are ready; the selected contract was kept.";
  reason = concat (
      "A reset cancelled the run in flight, so no verdict was produced and its "
      ∷ "partial evidence stands as a record rather than a result." ∷ []);
  expected_consequence = concat (
      "A new run is created in `armed` with a fresh initial observation, and the "
      ∷ "cancelled run stays on record." ∷ []);
  action_code = some GuidanceActionCode.arm_run;
  recovery_action_code = some GuidanceActionCode.reset_workspace;
  waiting_for = none;
  requires_human_input = true;
  correlation_id = correlation_id;
}
derive_guidance WorkspacePhase.proposing correlation_id = record {
  phase = WorkspacePhase.proposing;
  active_actor = GuidanceActor.agent;
  next_actor = some GuidanceActor.operator;
  headline = "Working the task so assertions can be proposed.";
  instruction = "Use the target's tools to demonstrate the behaviour to be captured.";
  reason = "A proposal run records a state delta; no contract is being judged.";
  expected_consequence = "Candidate assertions are derived for a person to curate.";
  action_code = some GuidanceActionCode.invoke_target_tool;
  recovery_action_code = some GuidanceActionCode.reset_workspace;
  waiting_for = none;
  requires_human_input = false;
  correlation_id = correlation_id;
}
derive_guidance WorkspacePhase.candidates correlation_id = record {
  phase = WorkspacePhase.candidates;
  active_actor = GuidanceActor.operator;
  next_actor = none;
  headline = "Curate the proposed assertions.";
  instruction = "Accept or reject each candidate before it becomes a contract.";
  reason = concat (
      "Candidates are derived mechanically; a person decides which of them state "
      ∷ "the intended outcome." ∷ []);
  expected_consequence = "The accepted set becomes one immutable contract.";
  action_code = some GuidanceActionCode.curate_candidates;
  recovery_action_code = some GuidanceActionCode.reset_workspace;
  waiting_for = none;
  requires_human_input = true;
  correlation_id = correlation_id;
}
derive_guidance WorkspacePhase.eval_ready correlation_id = record {
  phase = WorkspacePhase.eval_ready;
  active_actor = GuidanceActor.operator;
  next_actor = none;
  headline = "A regression case is ready to replay.";
  instruction = "Replay the generated regression case to confirm it reproduces.";
  reason = "A regression case is only useful once it has reproduced its source failure.";
  expected_consequence = "The replay reports whether the original classification recurred.";
  action_code = some GuidanceActionCode.run_regression_eval;
  recovery_action_code = some GuidanceActionCode.reset_workspace;
  waiting_for = none;
  requires_human_input = false;
  correlation_id = correlation_id;
}
derive_guidance WorkspacePhase.eval_running correlation_id = record {
  phase = WorkspacePhase.eval_running;
  active_actor = GuidanceActor.system;
  next_actor = some GuidanceActor.operator;
  headline = "Replaying the regression case.";
  instruction = "No action is needed while the replay completes.";
  reason = "The fixture is being restored and the recorded trajectory replayed.";
  expected_consequence = "The replay's classification is compared against the source run.";
  action_code = some GuidanceActionCode.wait;
  recovery_action_code = some GuidanceActionCode.reset_workspace;
  waiting_for = some "the server is replaying the recorded trajectory";
  requires_human_input = false;
  correlation_id = correlation_id;
}
