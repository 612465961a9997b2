-- ===== src/Policies/Inputs.antt =====
-- What packages/actionwitness_core/src/actionwitness_core/engine/policies.py reads: the policies of
-- contracts/models.py, the changes of engine/diff.py, the deltas of evidence/surface.py, and
-- `PolicyEvidence`; and the finding that each evaluator builds.
use actionwitness.Prelude.{
  ℕ, String, string_eq, ◌==◌, Bool, true, false, ◌&&◌, List, [], ◌∷◌, map, Option, none, some,
  filter, if◌then◌else◌,
}
use actionwitness.Kernel.{Result, ok, raise, evaluation_input_invalid}
use actionwitness.Json.{Json, null, dict, array, number, JsonDict}
use actionwitness.Paths.{ObservationPath}
use actionwitness.Vocabulary.{
  CheckType, CheckStatus, AssertionSeverity, PolicyType, policy_type_value, SurfaceDeltaKind,
  ToolNamespace,
}
use actionwitness.Evidence.{RunEvent, is_invocation_start, is_completion, ordered}
use actionwitness.Findings.{Finding}

-- the six policy models of a contract
pub data Policy : Type 0 where
  requires_confirmation : String → ℕ → Policy
  idempotent_by_request_id : String → Policy
  maximum_mutations : ℕ → Policy
  forbidden_tool : String → Policy
  no_undeclared_changes : List ObservationPath → Policy
  stable_tool_surface : List SurfaceDeltaKind → Policy

-- `policy.type`
unfoldable pub policy_type : Policy → PolicyType
policy_type (requires_confirmation tool timeout_seconds) = PolicyType.requires_confirmation
policy_type (idempotent_by_request_id tool) = PolicyType.idempotent_by_request_id
policy_type (maximum_mutations limit) = PolicyType.maximum_mutations
policy_type (forbidden_tool tool) = PolicyType.forbidden_tool
policy_type (no_undeclared_changes allow_paths) = PolicyType.no_undeclared_changes
policy_type (stable_tool_surface failing_delta_kinds) = PolicyType.stable_tool_surface

-- `ChangeKind`
pub data ChangeKind : Type 0 where
  added removed changed : ChangeKind

-- `StateChange`
pub record StateChange : Type 0 where
  pub path : ObservationPath
  pub kind : ChangeKind
  pub before : Option String
  pub after : Option String

-- `changed_paths_of`
abbrev pub changed_paths_of : List StateChange → List ObservationPath
changed_paths_of changes = map (λ c. c.path) changes

-- `ToolDefinition`
pub record ToolDefinition : Type 0 where
  pub name : String
  pub namespace : ToolNamespace
  pub description : String
  pub read_only_hint : Option Bool
  pub untrusted_content_hint : Option Bool
  pub input_schema : JsonDict

-- `SurfaceDelta`
pub record SurfaceDelta : Type 0 where
  pub tool_name : String
  pub namespace : ToolNamespace
  pub kind : SurfaceDeltaKind
  pub before : Option ToolDefinition
  pub after : Option ToolDefinition

-- `PolicyEvidence`
pub record PolicyEvidence : Type 0 where
  pub events : List RunEvent
  pub effect_map : List (String × List ObservationPath)
  pub contract_paths : List ObservationPath
  pub changed_paths : Option (List ObservationPath)
  pub changes : Option (List StateChange)
  pub surface_baseline_recorded : Bool
  pub identity_mismatches : List String
  pub observed_surface_deltas : List SurfaceDelta

-- `==` on tuples of segments, and on tuples of paths
abbrev pub segments_beq : List String → List String → Bool
segments_beq [] [] = true
segments_beq (s ∷ a) (t ∷ b) = s == t && segments_beq a b
segments_beq _ _ = false

abbrev pub paths_beq : List ObservationPath → List ObservationPath → Bool
paths_beq [] [] = true
paths_beq (p ∷ a) (q ∷ b) = segments_beq p.segments q.segments && paths_beq a b
paths_beq _ _ = false

abbrev views_agree : Option (List StateChange) → Option (List ObservationPath) → Bool
views_agree (some changes) (some paths) = paths_beq (changed_paths_of changes) paths
views_agree _ _ = true

-- `PolicyEvidence._check_the_two_diff_views_agree`
unfoldable pub check_the_two_diff_views_agree : PolicyEvidence → Result PolicyEvidence
check_the_two_diff_views_agree evidence =
    if views_agree evidence.changes evidence.changed_paths
    then ok evidence
    else raise evaluation_input_invalid

-- `_finding`, with its defaults; a caller that passes more gives those fields anew
abbrev pub policy_finding : Policy → CheckStatus → List (String × Json) → Finding
policy_finding policy status evidence = record {
  check_id = policy_type_value (policy_type policy);
  check_type = CheckType.policy;
  status = status;
  severity = AssertionSeverity.critical;
  classification = none;
  path = none;
  paths = [];
  applied_exemptions = [];
  attributed_cause = none;
  expected = null;
  actual = null;
  causal_event_sequence = none;
  evidence = dict evidence;
}

-- `event.tool_name == tool`
abbrev pub names_tool : String → RunEvent → Bool
names_tool tool event = elim event.tool_name [ none ↦ false | some name ↦ name == tool ]

-- `_starts_for`
unfoldable pub starts_for : List RunEvent → String → List RunEvent
starts_for events tool = filter (λ e. is_invocation_start e && names_tool tool e) (ordered events)

-- `_completions_for`
unfoldable pub completions_for : List RunEvent → String → List RunEvent
completions_for events tool =
    filter (λ e. is_completion e.event_type && names_tool tool e) (ordered events)

abbrev pub sequences : List RunEvent → Json
sequences events = array (map (λ e. number e.sequence_number) events)
