-- ===== src/Trajectory.antt =====
-- packages/actionwitness_core/src/actionwitness_core/engine/trajectory.py: the recorded calls
-- against the calls that a contract expects.
pub mod Conformance
use actionwitness.Prelude.{
  ℕ, zero, suc, ◌-◌, String, string_eq, ◌==◌, Bool, true, false, not, ◌&&◌, ◌||◌, List, [], ◌∷◌,
  ◌++◌, map, Option, none, some, if◌then◌else◌, any, length,
}
use actionwitness.Prelude.Sort.{sort_by}
use actionwitness.Prelude.Text.{text_leb, distinct}
use actionwitness.Json.{Json, null, bool, str, array, dict, JsonDict}
use actionwitness.Vocabulary.{CheckType, CheckStatus, AssertionSeverity, FailureClassification}
use actionwitness.Evidence.{RunEvent, is_start, is_invocation_start, is_acting, is_present, ordered}
use actionwitness.Findings.{Finding}

-- `ExpectedTools`
pub record ExpectedTools : Type 0 where
  pub calls : List String
  pub is_ordered : Bool

-- the tool of an eligible invocation start
unfoldable pub eligible_call : RunEvent → Option String
eligible_call event =
    if is_invocation_start event && is_acting event.actor then event.tool_name else none

unfoldable pub calls_of : List RunEvent → List String
calls_of [] = []
calls_of (event ∷ rest) = elim (eligible_call event) [
  | none ↦ calls_of rest
  | some tool ↦ tool ∷ calls_of rest
]

-- `observed_calls`
unfoldable pub observed_calls : List RunEvent → List String
observed_calls events = calls_of (ordered events)

-- `_is_subsequence`: each required call takes the next equal one from the iterator
unfoldable pub is_subsequence : List String → List String → Bool
is_subsequence [] observed = true
is_subsequence (want ∷ required) [] = false
is_subsequence (want ∷ required) (call ∷ observed) = elim (call == want) [
  | true ↦ is_subsequence required observed
  | false ↦ is_subsequence (want ∷ required) observed
]

-- how often a call occurs: `Counter(calls)[call]`
unfoldable pub count : String → List String → ℕ
count call [] = 0
count call (c ∷ calls) = let rest = count call calls in if c == call then suc rest else rest

abbrev replicate : ℕ → String → List String
replicate zero call = []
replicate (suc n) call = call ∷ replicate n call

-- `(Counter(required) - Counter(observed)).elements()`, for the keys given
unfoldable pub short_calls : List String → List String → List String → List String
short_calls required observed [] = []
short_calls required observed (c ∷ keys) =
    replicate (count c required - count c observed) c ++ short_calls required observed keys

unfoldable pub shortfall : List String → List String → List String
unfolding short_calls
shortfall required observed = short_calls required observed (distinct required)

-- `_first_eligible_sequence`, over the ordered events
abbrev first_eligible : List RunEvent → Option ℕ
first_eligible [] = none
first_eligible (event ∷ rest) =
    let later = first_eligible rest in
    if is_invocation_start event && is_acting event.actor then some event.sequence_number else later

unfoldable pub first_eligible_sequence : List RunEvent → Option ℕ
first_eligible_sequence events = first_eligible (ordered events)

abbrev pub strings : List String → Json
strings ss = array (map str ss)

-- what the four findings of `evaluate_expected_tools` share
abbrev trajectory_finding : CheckStatus → List (String × Json) → Finding
trajectory_finding status evidence = record {
  check_id = "expected_tools";
  check_type = CheckType.expected_tools;
  status = status;
  severity = AssertionSeverity.critical;
  classification = none;
  path = none;
  paths = [];
  applied_exemptions = [];
  attributed_cause = none;
  expected = null;
  actual = null;
  causal_event_sequence = none;
  evidence = dict evidence;
}

abbrev is_none_left : List String → Bool
is_none_left [] = true
is_none_left (c ∷ cs) = false

-- `evaluate_expected_tools`, for a contract that carries the term
unfoldable pub evaluate_calls : ExpectedTools → List RunEvent → Finding
evaluate_calls expected events =
    let required = expected.calls in
    let observed = observed_calls events in
    let missing = shortfall required observed in
    let evidence : List (String × Json) =
      ("ordered", bool expected.is_ordered)
      ∷ ("required_calls", strings required)
      ∷ ("observed_calls", strings observed)
      ∷ [] in
    if not (is_none_left missing)
    then record (trajectory_finding CheckStatus.failed (
        evidence
        ++ ("missing_calls", strings (sort_by text_leb missing))
          ∷ ("reason", str "a required tool call did not occur")
          ∷ [])) {
            classification = some FailureClassification.missing_expected_tool;
            causal_event_sequence = first_eligible_sequence events;
            expected = strings required;
            actual = strings observed;
          }
    else if expected.is_ordered && not (is_subsequence required observed)
    then record (trajectory_finding CheckStatus.failed (
        evidence
        ++ ("reason", str "every required call occurred, but not in the required order") ∷ [])) {
          classification = some FailureClassification.trajectory_order_violation;
          causal_event_sequence = first_eligible_sequence events;
          expected = strings required;
          actual = strings observed;
        }
    else trajectory_finding CheckStatus.passed evidence

-- `evaluate_expected_tools`
unfoldable pub evaluate_expected_tools : Option ExpectedTools → List RunEvent → Finding
unfolding evaluate_calls
evaluate_expected_tools none events = trajectory_finding CheckStatus.not_evaluated (
    ("reason", str "the contract declares no expected_tools")
    ∷ ("observed_calls", strings (observed_calls events))
    ∷ [])
evaluate_expected_tools (some expected) events = evaluate_calls expected events
