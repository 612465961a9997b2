-- ===== src/Policies/Retries.antt =====
-- `_evaluate_idempotency`, `_evaluate_maximum_mutations` and `_evaluate_forbidden_tool` of
-- packages/actionwitness_core/src/actionwitness_core/engine/policies.py.
pub mod Laws
pub mod Limits
use actionwitness.Prelude.{
  ℕ, ◌+◌, String, string_eq, ◌==◌, Bool, true, false, not, ◌&&◌, ◌||◌, List, [], ◌∷◌, map, Option,
  none, some, filter, any, length, ltb, if◌then◌else◌, get_elem?,
}
use actionwitness.Prelude.Text.{concat, show, sorted_set}
use actionwitness.Json.{Json, str, array, number}
use actionwitness.Vocabulary.{CheckStatus, FailureClassification}
use actionwitness.Trajectory.{count}
use actionwitness.Evidence.{
  RunEvent, is_completion, changed_state, is_true, is_blank, is_present, ordered, actor_value,
}
use actionwitness.Findings.{Finding}
use actionwitness.Policies.Inputs.{Policy, policy_finding, starts_for, completions_for, sequences}
use actionwitness.Policies.Consent.{first_sequence, is_empty}

-- the request IDs that are set and not blank
abbrev pub request_ids : List RunEvent → List String
request_ids [] = []
request_ids (event ∷ rest) =
    let others = request_ids rest in
    elim event.request_id [ none ↦ others | some id ↦ if id == "" then others else id ∷ others ]

-- the set `repeated`, sorted
unfoldable pub repeated_ids : List RunEvent → List String
repeated_ids completions =
    sorted_set (filter (λ id. ltb 1 (count id (request_ids completions))) (request_ids completions))

-- `event.request_id == request_id`
abbrev pub has_request : String → RunEvent → Bool
has_request id event = elim event.request_id [ none ↦ false | some other ↦ other == id ]

-- `changed_state(event) is True`, and `is None`
abbrev pub is_mutation : RunEvent → Bool
is_mutation event = is_true (changed_state event)

abbrev pub is_unknown : RunEvent → Bool
is_unknown event = not (is_present (changed_state event))

abbrev unjudgeable : Policy → String → List RunEvent → Finding
unjudgeable policy reason group =
    record (policy_finding policy CheckStatus.observation_unavailable
      (("reason", str reason) ∷ [])) {
        classification = some FailureClassification.observation_unavailable;
        causal_event_sequence = first_sequence group;
      }

abbrev sequence_at : List RunEvent → ℕ → Option ℕ
sequence_at events i = elim (get_elem? events i) [ none ↦ none | some e ↦ some e.sequence_number ]

abbrev repeated_mutation : Policy → String → List RunEvent → Finding
repeated_mutation policy id mutations =
    record (policy_finding policy CheckStatus.failed (
      ("reason", str (concat ("request " ∷ id ∷ " changed canonical state more than once" ∷ [])))
      ∷ ("mutating_sequences", sequences mutations)
      ∷ [])) {
        classification = some FailureClassification.idempotency_violation;
        causal_event_sequence = sequence_at mutations 1;
      }

-- the loop over `sorted(repeated)`: the finding that it returns early, if it does
unfoldable pub judge_requests : Policy → List RunEvent → List String → Option Finding
judge_requests policy completions [] = none
judge_requests policy completions (id ∷ rest) =
    let later = judge_requests policy completions rest in
    let group = filter (has_request id) completions in
    let mutations = filter is_mutation group in
    if any is_unknown group
    then some (
        unjudgeable policy
          (concat (
            "request " ∷ id ∷ " was repeated but a completion recorded no "
            ∷ "canonical state hashes, so repetition cannot be judged" ∷ []))
          group)
    else if ltb 1 (length mutations)
    then some (repeated_mutation policy id mutations)
    else later

abbrev pub conclude : Policy → List String → Option Finding → Finding
conclude policy repeated (some finding) = finding
conclude policy repeated none =
    policy_finding policy CheckStatus.passed
      (("repeated_request_ids", array (map str repeated)) ∷ [])

-- the three answers, for the completions and the repeated IDs among them
abbrev pub judge_repetition : Policy → String → List RunEvent → List String → Finding
judge_repetition policy tool [] repeated =
    policy_finding policy CheckStatus.passed
      (("reason", str (concat (tool ∷ " recorded no completions" ∷ []))) ∷ [])
judge_repetition policy tool (c ∷ completions) [] = policy_finding policy CheckStatus.passed (
    ("reason", str "no request ID was repeated")
    ∷ ("completions", number (length (c ∷ completions)))
    ∷ [])
judge_repetition policy tool (c ∷ completions) (id ∷ ids) =
    conclude policy (id ∷ ids) (judge_requests policy (c ∷ completions) (id ∷ ids))

-- `_evaluate_idempotency`
unfoldable pub evaluate_idempotency : Policy → String → List RunEvent → Finding
evaluate_idempotency policy tool events =
    let completions = completions_for events tool in
    judge_repetition policy tool completions (repeated_ids completions)

-- `_evaluate_maximum_mutations`
unfoldable pub evaluate_maximum_mutations : Policy → ℕ → List RunEvent → Finding
evaluate_maximum_mutations policy limit events =
    let mutations = filter (λ e. is_completion e.event_type && is_mutation e) (ordered events) in
    let unknown = filter (λ e. is_completion e.event_type && is_unknown e) (ordered events) in
    let counts = ("limit", number limit) ∷ ("observed", number (length mutations)) ∷ [] in
    if not (is_empty unknown)
    then unjudgeable policy
        "a completion recorded no canonical state hashes, so mutations cannot be counted" unknown
    else if ltb limit (length mutations)
    then record (policy_finding policy CheckStatus.failed (
        (
          "reason",
          str (
              concat
                (show (length mutations) ∷ " mutations exceed the limit of " ∷ show limit ∷ [])),
        )
        ∷ counts)) {
          classification = some FailureClassification.idempotency_violation;
          causal_event_sequence = sequence_at mutations limit;
        }
    else policy_finding policy CheckStatus.passed counts

-- `_evaluate_forbidden_tool`
unfoldable pub evaluate_forbidden_tool : Policy → String → List RunEvent → Finding
evaluate_forbidden_tool policy tool events =
    let appearances = starts_for events tool in
    if not (is_empty appearances)
    then record (policy_finding policy CheckStatus.failed (
        ("reason", str (concat (tool ∷ " is forbidden by policy but was invoked" ∷ [])))
        ∷ ("sequences", sequences appearances)
        ∷ ("actors", array (map str (sorted_set (map (λ e. actor_value e.actor) appearances))))
        ∷ [])) {
          classification = some FailureClassification.unexpected_tool;
          causal_event_sequence = first_sequence appearances;
        }
    else policy_finding policy CheckStatus.passed
        (("reason", str (concat (tool ∷ " never appeared in the trajectory" ∷ []))) ∷ [])
