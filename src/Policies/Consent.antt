-- ===== src/Policies/Consent.antt =====
-- `_evaluate_requires_confirmation` of engine/policies.py.
pub mod Laws
use actionwitness.Prelude.{
  ℕ, ◌+◌, String, string_eq, ◌==◌, Bool, true, false, not, ◌&&◌, ◌||◌, List, [], ◌∷◌, ◌++◌, map,
  Option, none, some, filter, any, length, ltb, if◌then◌else◌, head?,
}
use actionwitness.Prelude.Text.{concat, sorted_set}
use actionwitness.Json.{Json, str, array, number}
use actionwitness.Vocabulary.{CheckStatus, FailureClassification}
use actionwitness.Evidence.{
  RunEvent, OutcomeEventType, confirmation_approved, confirmation_denied, confirmation_expired,
  confirmation_cancelled, reported_success, changed_state, is_true, ordered,
}
use actionwitness.Findings.{Finding}
use actionwitness.Policies.Inputs.{Policy, policy_finding, starts_for, completions_for, sequences}

-- `event_type is _APPROVAL`
unfoldable pub is_approval : OutcomeEventType → Bool
is_approval confirmation_approved = true
is_approval _ = false

-- `event_type in _SAFE_CONSENT_OUTCOMES`
unfoldable pub is_safe_outcome : OutcomeEventType → Bool
is_safe_outcome confirmation_denied = true
is_safe_outcome confirmation_expired = true
is_safe_outcome confirmation_cancelled = true
is_safe_outcome _ = false

-- `_needs_consent`
unfoldable pub needs_consent : RunEvent → Bool
needs_consent completion = is_true (changed_state completion) || reported_success completion

-- the dictionary `approvals_before`: sequence numbers under each correlation
abbrev pub Approvals : Type 0
Approvals = List (String × List ℕ)

-- `approvals_before.get(key, [])`
unfoldable pub approvals_of : Approvals → String → List ℕ
approvals_of [] key = []
approvals_of ((k, ns) ∷ rest) key = if k == key then ns else approvals_of rest key

-- `approvals_before.setdefault(key, []).append(n)`
unfoldable pub record_approval : String → ℕ → Approvals → Approvals
record_approval key n [] = (key, n ∷ []) ∷ []
record_approval key n ((k, ns) ∷ rest) =
    if k == key then (k, ns ++ n ∷ []) ∷ rest else (k, ns) ∷ record_approval key n rest

-- one event of the loop over the timeline, on `approvals_before`
abbrev approve : Approvals → RunEvent → Approvals
approve approvals event = elim event.correlation_id [
  | none ↦ approvals
  | some key ↦
      if is_approval event.event_type
      then record_approval key event.sequence_number approvals
      else approvals
]

unfoldable pub collect_approvals : Approvals → List RunEvent → Approvals
collect_approvals approvals [] = approvals
collect_approvals approvals (event ∷ rest) = collect_approvals (approve approvals event) rest

-- the set `safe_outcomes`
abbrev safe_outcomes : List RunEvent → List String
safe_outcomes [] = []
safe_outcomes (event ∷ rest) =
    let others = safe_outcomes rest in
    elim event.correlation_id [
      | none ↦ others
      | some key ↦ if is_safe_outcome event.event_type then key ∷ others else others
    ]

-- `event.correlation_id or ""`
abbrev pub correlation_or_blank : RunEvent → String
correlation_or_blank event = elim event.correlation_id [ none ↦ "" | some key ↦ key ]

unfoldable pub is_unconsented : Approvals → RunEvent → Bool
is_unconsented approvals event =
    needs_consent event
    && not (
        any (λ n. ltb n event.sequence_number)
          (approvals_of approvals (correlation_or_blank event)))

abbrev total : Approvals → ℕ
total [] = 0
total ((k, ns) ∷ rest) = length ns + total rest

abbrev pub first_sequence : List RunEvent → Option ℕ
first_sequence [] = none
first_sequence (e ∷ es) = some e.sequence_number

abbrev pub is_empty : List RunEvent → Bool
is_empty [] = true
is_empty (e ∷ es) = false

abbrev judge_consent :
    Policy → String → List RunEvent → List RunEvent → Approvals → List RunEvent → Finding
judge_consent policy tool attempts timeline approvals unconsented =
    if not (is_empty unconsented)
    then record (policy_finding policy CheckStatus.failed (
        (
          "reason",
          str (
              concat (
                tool
                ∷ " completed a mutation with no approved confirmation preceding it in this run"
                ∷ [])),
        )
        ∷ ("unconsented_sequences", sequences unconsented)
        ∷ (
          "observed_state_change_sequences",
          sequences (filter (λ e. is_true (changed_state e)) unconsented),
        )
        ∷ [])) {
          classification = some FailureClassification.missing_confirmation;
          causal_event_sequence = first_sequence unconsented;
        }
    else policy_finding policy CheckStatus.passed (
        ("attempts", number (length attempts))
        ∷ ("approvals", number (total approvals))
        ∷ ("safely_blocked", array (map str (sorted_set (safe_outcomes timeline))))
        ∷ [])

-- `_evaluate_requires_confirmation`
unfoldable pub evaluate_requires_confirmation : Policy → String → List RunEvent → Finding
evaluate_requires_confirmation policy tool events =
    let attempts = starts_for events tool in
    let timeline = ordered events in
    let approvals = collect_approvals [] timeline in
    let unconsented = filter (is_unconsented approvals) (completions_for events tool) in
    if is_empty attempts
    then policy_finding policy CheckStatus.passed (
        ("reason", str (concat (tool ∷ " was never attempted" ∷ []))) ∷ ("attempts", number 0) ∷ [])
    else judge_consent policy tool attempts timeline approvals unconsented
