-- ===== src/Examples/Journeys.antt =====
-- Histories of runs and suites.
use actionwitness.Guidance.Actors.{IsGuidance, derive_guidance-IsGuidance}
use actionwitness.Guidance.{phase_for, derive_guidance}
use actionwitness.Prelude.{
  ◌+◌, ◌*◌, ◌≤◌, ◌≡◌, ◌≢◌, refl, ◌↔◌, true, false, List, [], ◌∷◌, Memᴰ, some, length, none,
}
use actionwitness.Kernel.{ok}
use actionwitness.States.{
  RunState, run_state_eq, armed, proposing, capturing, proposed, running, awaiting_confirmation,
  verifying, passed, run_state_value, BenchmarkStatus, imported_trajectory_replay,
}
use actionwitness.Lifecycle.{
  contains, validate_run_transition, is_terminal, verdict_run_states,
  validate_benchmark_suite_transition, can_transition,
}
use actionwitness.Lifecycle.Histories.{
  follow, follow_bound, proposal_no_verdict, verdict_needs_verifying, follow_terminal,
}
use actionwitness.Lifecycle.Suites.{suite_state, suite_tables_agree, advance}

abbrev confirmed : List RunState
confirmed = running ∷ awaiting_confirmation ∷ running ∷ verifying ∷ passed ∷ []

confirmed-follow : follow armed confirmed ≡ ok passed
unfolding follow validate_run_transition actionwitness.Lifecycle.validate
confirmed-follow = refl

follow_bound_example : 5 ≤ 3 + 2 * 1
follow_bound_example = follow_bound armed confirmed confirmed-follow

abbrev captured : List RunState
captured = capturing ∷ proposed ∷ []

captured-follow : follow proposing captured ≡ ok proposed
unfolding follow validate_run_transition actionwitness.Lifecycle.validate
captured-follow = refl

proposal_no_verdict_example :
    (contains verdict_run_states proposed ≡ false)
    × (proposed ≢ running)
    × (proposed ≢ verifying)
    × (proposed ≢ armed)
proposal_no_verdict_example = proposal_no_verdict captured captured-follow

verdict_needs_verifying_example : Memᴰ verifying (armed ∷ confirmed)
verdict_needs_verifying_example = verdict_needs_verifying armed confirmed refl confirmed-follow refl

suite_tables_example : (can_transition BenchmarkStatus.ready BenchmarkStatus.completed ≡ true) ↔ (
    validate_benchmark_suite_transition
      (suite_state BenchmarkStatus.ready)
      (suite_state BenchmarkStatus.completed)
    ≡ ok tt)
suite_tables_example = suite_tables_agree BenchmarkStatus.ready BenchmarkStatus.completed

abbrev replayed : List BenchmarkStatus
replayed = BenchmarkStatus.ready ∷ BenchmarkStatus.running ∷ BenchmarkStatus.completed ∷ []

replayed-advance :
    advance (some imported_trajectory_replay) BenchmarkStatus.draft replayed
    ≡ ok BenchmarkStatus.completed
unfolding advance actionwitness.Lifecycle.require_transition can_transition
replayed-advance = refl

draft_is_open : BenchmarkStatus.draft ≢ BenchmarkStatus.completed
draft_is_open h = cc h

follow_terminal_example :
    (ts : List RunState) × (u : RunState) × (follow awaiting_confirmation ts ≡ ok u)
    × (is_terminal (run_state_value u) ≡ ok true)
    × (length ts ≤ 1)
    × (is_terminal (run_state_value awaiting_confirmation) ≡ ok true → ts ≡ [])
    × (is_terminal (run_state_value awaiting_confirmation) ≡ ok false → u ≡ RunState.error)
follow_terminal_example = follow_terminal awaiting_confirmation

derive_guidance_example :
    IsGuidance RunState.failed
      (derive_guidance (phase_for true (some RunState.failed) true false) none)
derive_guidance_example = derive_guidance-IsGuidance true true false RunState.failed none
