-- ===== src/Policies/Changes.antt =====
-- `_evaluate_no_undeclared_changes` of
-- packages/actionwitness_core/src/actionwitness_core/engine/policies.py.
pub mod Partition
use actionwitness.Prelude.{
  ℕ, String, string_eq, ◌==◌, Bool, true, false, not, ◌&&◌, ◌||◌, List, [], ◌∷◌, ◌++◌, map, Option,
  none, some, filter, any, length, ltb, get_last?, head?, if◌then◌else◌,
}
use actionwitness.Prelude.Sort.{sort_by}
use actionwitness.Prelude.Text.{concat, show, distinct}
use actionwitness.Json.{Json, null, bool, str, array, dict, obj, number, JsonDict}
use actionwitness.Paths.{ObservationPath, path_text, path_leb, overlaps}
use actionwitness.Vocabulary.{CheckStatus, FailureClassification}
use actionwitness.Evidence.{
  OutcomeEventType, RunEvent, confirmation_approved, confirmation_denied, event_type_value,
  actor_value, is_acting, is_invocation_start, is_terminal_invocation, changed_state, is_true,
  ordered,
}
use actionwitness.Findings.{Finding}
use actionwitness.Policies.Attribution.{Cause, blame, adjacent_cause, cause_label, optional_text}
use actionwitness.Policies.Inputs.{
  Policy, StateChange, changed_paths_of, PolicyEvidence, policy_finding, segments_beq,
}

-- `dict.get` on the excerpts, where the last change of a path stands
abbrev excerpt : String → Option (List StateChange) → Option StateChange
excerpt path none = none
excerpt path (some changes) = get_last? (filter (λ c. path_text c.path == path) changes)

abbrev side : (StateChange → Option String) → Option StateChange → Json
side field none = null
side field (some change) = optional_text (field change)

-- `_change_entry`
abbrev change_entry : ObservationPath → Option StateChange → String → Json
change_entry path change label = obj (
    dict (
      ("path", str (path_text path))
      ∷ ("before", side (λ c. c.before) change)
      ∷ ("after", side (λ c. c.after) change)
      ∷ ("attributed_cause", str label)
      ∷ []))

-- the set `executed`
unfoldable pub executed : List RunEvent → List String
executed [] = []
executed (event ∷ rest) =
    let others = executed rest in
    elim event.tool_name [
      | none ↦ others
      | some name ↦
          if is_invocation_start event && is_acting event.actor && not (name == "")
          then name ∷ others
          else others
    ]

-- `effect_map.get(tool, ())`
unfoldable pub effects_of : String → List (String × List ObservationPath) → List ObservationPath
effects_of tool [] = []
effects_of tool ((name, paths) ∷ rest) = if name == tool then paths else effects_of tool rest

unfoldable pub effects : List String → List (String × List ObservationPath) → List ObservationPath
effects [] effect_map = []
effects (tool ∷ tools) effect_map = effects_of tool effect_map ++ effects tools effect_map

-- the list `declared`
unfoldable pub declared_paths : PolicyEvidence → List ObservationPath
declared_paths evidence =
    evidence.contract_paths ++ effects (distinct (executed evidence.events)) evidence.effect_map

-- `any(prefix.overlaps(path) for prefix in prefixes)`
abbrev pub is_covered : List ObservationPath → ObservationPath → Bool
is_covered prefixes path = any (λ prefix. overlaps prefix path) prefixes

-- one path of the loop over the changed paths
pub data Verdict : Type 0 where
  declared : Verdict
  waived : ObservationPath → Verdict
  undeclared : Verdict

unfoldable pub judge_path : List ObservationPath → List ObservationPath → ObservationPath → Verdict
judge_path prefixes allow_paths path =
    if is_covered prefixes path
    then declared
    else elim (head? (filter (λ allowed. overlaps allowed path) allow_paths)) [
      | none ↦ undeclared
      | some waiver ↦ waived waiver
    ]

-- the lists `undeclared` and `applied` when the loop ends
unfoldable pub partition :
    List ObservationPath
    → List ObservationPath
    → List ObservationPath
    → List ObservationPath × List ObservationPath
partition prefixes allow_paths [] = ([], [])
partition prefixes allow_paths (path ∷ rest) =
    let (others, waivers) = partition prefixes allow_paths rest in
    elim (judge_path prefixes allow_paths path) [
      | declared ↦ (others, waivers)
      | waived waiver ↦ (others, waiver ∷ waivers)
      | undeclared ↦ (path ∷ others, waivers)
    ]

-- `sorted(set(applied))`
abbrev distinct_paths : List ObservationPath → List ObservationPath
distinct_paths [] = []
distinct_paths (p ∷ ps) =
    let rest = distinct_paths ps in
    if any (λ q. segments_beq q.segments p.segments) rest then rest else p ∷ rest

abbrev undeclared_finding :
    Policy → PolicyEvidence → ℕ → List ObservationPath → List ObservationPath → Cause → Finding
undeclared_finding policy evidence changed paths exemptions cause =
    record (policy_finding policy CheckStatus.failed (
      ("reason", str "a canonical state path changed that nothing declared")
      ∷ ("changed_paths", number changed)
      ∷ ("undeclared_paths", array (map (λ p. str (path_text p)) paths))
      ∷ (
        "undeclared_changes",
        array (
            map (λ p. change_entry p (excerpt (path_text p) evidence.changes) (cause_label cause))
              paths),
      )
      ∷ ("effect_metadata_published", bool (ltb 0 (length evidence.effect_map)))
      ∷ [])) {
        classification = some FailureClassification.undeclared_state_change;
        paths = paths;
        applied_exemptions = exemptions;
        attributed_cause = some (adjacent_cause cause);
      }

abbrev pub judge_changes :
    Policy → PolicyEvidence → ℕ → List ObservationPath × List ObservationPath → Finding
judge_changes policy evidence changed ([], applied) =
    record (policy_finding policy CheckStatus.passed (
      ("changed_paths", number changed)
      ∷ ("effect_metadata_published", bool (ltb 0 (length evidence.effect_map)))
      ∷ [])) { applied_exemptions = sort_by path_leb (distinct_paths applied) }
judge_changes policy evidence changed (p ∷ ps, applied) =
    undeclared_finding policy evidence changed (sort_by path_leb (p ∷ ps))
      (sort_by path_leb (distinct_paths applied)) (blame evidence.events)

-- `changed_paths`, from the changes where they are given
unfoldable pub paths_to_judge : PolicyEvidence → Option (List ObservationPath)
paths_to_judge evidence = elim evidence.changes [
  | some changes ↦ some (changed_paths_of changes)
  | none ↦ evidence.changed_paths
]

-- `_evaluate_no_undeclared_changes`
unfoldable pub evaluate_no_undeclared_changes :
    Policy → List ObservationPath → PolicyEvidence → Finding
evaluate_no_undeclared_changes policy allow_paths evidence = elim (paths_to_judge evidence) [
  | none ↦ policy_finding policy CheckStatus.not_evaluated (
      (
        "reason",
        str (
            concat (
              "no full-state diff was supplied, so changed paths could not be "
              ∷ "partitioned into declared and undeclared (FR-157)" ∷ [])),
      )
      ∷ [])
  | some changed ↦
      judge_changes policy evidence (length changed)
        (partition (declared_paths evidence) allow_paths changed)
]
