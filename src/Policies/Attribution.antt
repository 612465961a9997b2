-- ===== src/Policies/Attribution.antt =====
-- `_adjacent_cause` and `_cause_label` of
-- packages/actionwitness_core/src/actionwitness_core/engine/policies.py.
pub mod Blame
use actionwitness.Prelude.{
  ℕ, String, string_eq, ◌==◌, Bool, true, false, not, ◌&&◌, ◌||◌, List, [], ◌∷◌, ◌++◌, map, Option,
  none, some, filter, any, length, ltb, get_last?, head?, if◌then◌else◌,
}
use actionwitness.Prelude.Sort.{sort_by}
use actionwitness.Prelude.Text.{concat, show, distinct}
use actionwitness.Json.{Json, null, bool, str, array, dict, obj, number, JsonDict}
use actionwitness.Paths.{ObservationPath, path_text, path_leb, overlaps}
use actionwitness.Vocabulary.{CheckStatus, FailureClassification}
use actionwitness.Evidence.{
  OutcomeEventType, RunEvent, confirmation_approved, confirmation_denied, event_type_value,
  actor_value, is_acting, is_invocation_start, is_terminal_invocation, changed_state, is_true,
  ordered,
}
use actionwitness.Findings.{Finding}
use actionwitness.Policies.Inputs.{
  Policy, StateChange, changed_paths_of, PolicyEvidence, policy_finding, segments_beq,
}

-- `event_type in _HUMAN_DECISIONS`
abbrev pub is_human_decision : OutcomeEventType → Bool
is_human_decision confirmation_approved = true
is_human_decision confirmation_denied = true
is_human_decision _ = false

-- an optional text as JSON
abbrev pub optional_text : Option String → Json
optional_text none = null
optional_text (some s) = str s

-- what `_adjacent_cause` blames
pub data Cause : Type 0 where
  tool_action : RunEvent → Cause
  human_confirmation : RunEvent → Cause
  no_cause : Cause

abbrev pub choose_cause : Option RunEvent → Option RunEvent → Cause
choose_cause (some action) decision = tool_action action
choose_cause none (some decision) = human_confirmation decision
choose_cause none none = no_cause

-- the choice that `_adjacent_cause` makes
unfoldable pub blame : List RunEvent → Cause
blame events =
    let timeline = ordered events in
    let moved =
      filter (λ e. is_terminal_invocation e.event_type && is_true (changed_state e)) timeline in
    let decisions = filter (λ e. is_human_decision e.event_type) timeline in
    choose_cause (get_last? moved) (get_last? decisions)

-- the object that `_adjacent_cause` returns for it
unfoldable pub adjacent_cause : Cause → JsonDict
adjacent_cause (tool_action action) = dict (
    ("kind", str "tool_action")
    ∷ ("tool_name", optional_text action.tool_name)
    ∷ ("actor", str (actor_value action.actor))
    ∷ ("event_sequence", number action.sequence_number)
    ∷ ("terminal_event", str (event_type_value action.event_type))
    ∷ (
      "reason",
      str (
          concat (
            "the last recorded action whose canonical state hashes moved, so it is "
            ∷ "the action adjacent to the state version this change appears in "
            ∷ "(FR-159); adjacency is a likely cause, not a declared effect" ∷ [])),
    )
    ∷ [])
adjacent_cause (human_confirmation decision) = dict (
    ("kind", str "human_confirmation")
    ∷ ("actor", str (actor_value decision.actor))
    ∷ ("event_sequence", number decision.sequence_number)
    ∷ ("decision", str (event_type_value decision.event_type))
    ∷ (
      "reason",
      str (
          concat (
            "no recorded action moved the canonical state hashes, and a human "
            ∷ "confirmation decision was recorded in this run (FR-159)" ∷ [])),
    )
    ∷ [])
adjacent_cause no_cause = dict (
    ("kind", str "none")
    ∷ (
      "reason",
      str (
          concat (
            "no recorded action moved the canonical state hashes and no human "
            ∷ "confirmation decision was recorded, so no cause was inferred (FR-159)" ∷ [])),
    )
    ∷ [])

abbrev pub name_or_none : Option String → String
name_or_none none = "None"
name_or_none (some s) = s

-- `_cause_label`
abbrev pub cause_label : Cause → String
cause_label (tool_action action) =
    concat ("tool_action:" ∷ name_or_none action.tool_name ∷ "@" ∷ show action.sequence_number ∷ [])
cause_label (human_confirmation decision) =
    concat ("human_confirmation@" ∷ show decision.sequence_number ∷ [])
cause_label no_cause = "none"
