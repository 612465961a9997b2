-- ===== src/Policies/Surface.antt =====
-- `identity_mismatches` and `_evaluate_stable_tool_surface` of
-- packages/actionwitness_core/src/actionwitness_core/engine/policies.py. The evidence key `deltas`,
-- which carries the canonical documents of evidence/surface.py, is left out, and `!r` of a tool name
-- is written for the names that hold no quote and no backslash.
pub mod Laws
use actionwitness.Prelude.{
  ℕ, String, string_eq, ◌==◌, Bool, true, false, not, ◌&&◌, ◌||◌, List, [], ◌∷◌, map, Option, none,
  some, filter, any, if◌then◌else◌,
}
use actionwitness.Prelude.Sort.{sort_by}
use actionwitness.Prelude.Text.{concat, text_leb, sorted_set}
use actionwitness.Json.{Json, str, array}
use actionwitness.Vocabulary.{
  CheckStatus, FailureClassification, SurfaceDeltaKind, delta_kind_eq, delta_kind_value,
  ToolNamespace,
}
use actionwitness.Evidence.{OutcomeEventType, RunEvent, tool_identity_mismatch}
use actionwitness.Findings.{Finding}
use actionwitness.Policies.Inputs.{Policy, SurfaceDelta, PolicyEvidence, policy_finding}

abbrev is_mismatch : OutcomeEventType → Bool
is_mismatch tool_identity_mismatch = true
is_mismatch _ = false

-- `identity_mismatches`
unfoldable pub identity_mismatches : List RunEvent → List String
identity_mismatches [] = []
identity_mismatches (event ∷ rest) =
    let others = identity_mismatches rest in
    elim event.tool_name [
      | none ↦ others
      | some name ↦
          if is_mismatch event.event_type && not (name == "") then name ∷ others else others
    ]

-- `delta.namespace is ToolNamespace.TARGET`
abbrev pub is_watched : SurfaceDelta → Bool
is_watched delta = elim delta.namespace [
  | ToolNamespace.target ↦ true
  | ToolNamespace.harness ↦ false
]

-- `delta.kind in policy.failing_delta_kinds`
abbrev pub is_failing_kind : List SurfaceDeltaKind → SurfaceDelta → Bool
is_failing_kind kinds delta = any (λ kind. kind == delta.kind) kinds

-- the sort key `(delta.kind.value, delta.tool_name)`
abbrev warned_leb : SurfaceDelta → SurfaceDelta → Bool
warned_leb a b =
    if delta_kind_value a.kind == delta_kind_value b.kind
    then text_leb a.tool_name b.tool_name
    else text_leb (delta_kind_value a.kind) (delta_kind_value b.kind)

abbrev pub kind_values : List SurfaceDelta → Json
kind_values deltas = array (map str (sorted_set (map (λ d. delta_kind_value d.kind) deltas)))

abbrev warning_of : SurfaceDelta → Json
warning_of d = str (
    concat (
      delta_kind_value d.kind
      ∷ " on target tool '"
      ∷ d.tool_name
      ∷ "' was warned, not failed (§9.5)"
      ∷ []))

-- the list `warnings`
abbrev pub warnings_of : List SurfaceDelta → Json
warnings_of warned = array (map warning_of (sort_by warned_leb warned))

abbrev surface_mutation : Policy → List (String × Json) → Finding
surface_mutation policy evidence = record (policy_finding policy CheckStatus.failed evidence) {
  classification = some FailureClassification.tool_surface_mutation;
}

abbrev pub judge_surface : Policy → List String → List SurfaceDelta → List SurfaceDelta → Finding
judge_surface policy [] [] warned =
    policy_finding policy CheckStatus.passed
      (("warned_delta_kinds", kind_values warned) ∷ ("warnings", warnings_of warned) ∷ [])
judge_surface policy [] (f ∷ failing) warned = surface_mutation policy (
    ("reason", str "the target tool surface changed outside a declared delta")
    ∷ ("failing_delta_kinds", kind_values (f ∷ failing))
    ∷ ("warned_delta_kinds", kind_values warned)
    ∷ ("warnings", warnings_of warned)
    ∷ [])
judge_surface policy (m ∷ mismatched) failing warned = surface_mutation policy (
    (
      "reason",
      str (
          concat (
            "a tool's definition at invocation time did not match the armed " ∷ "baseline (FR-169)"
            ∷ [])),
    )
    ∷ ("identity_mismatches", array (map str (m ∷ mismatched)))
    ∷ ("failing_delta_kinds", kind_values failing)
    ∷ ("warned_delta_kinds", kind_values warned)
    ∷ ("warnings", warnings_of warned)
    ∷ [])

-- `_evaluate_stable_tool_surface`
unfoldable pub evaluate_stable_tool_surface :
    Policy → List SurfaceDeltaKind → PolicyEvidence → Finding
evaluate_stable_tool_surface policy kinds evidence =
    let watched = filter is_watched evidence.observed_surface_deltas in
    let failing = filter (is_failing_kind kinds) watched in
    let warned = filter (λ d. not (is_failing_kind kinds d)) watched in
    if not evidence.surface_baseline_recorded
    then record (policy_finding policy CheckStatus.observation_unavailable
        (("reason", str "no tool-surface baseline was recorded for this run (§16.1)") ∷ [])) {
          classification = some FailureClassification.observation_unavailable;
        }
    else judge_surface policy (sorted_set evidence.identity_mismatches) failing warned
