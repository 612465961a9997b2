-- ===== src/Policies/Shape.antt =====
-- What every policy finding has in common.
use actionwitness.Prelude.{
  ◌≡◌, refl, ap, inl, inr, String, ℕ, not, List, [], ◌∷◌, some, arith, Bool-cases, Option-cases,
  any, filter, length, ltb, get_elem?, zero, suc,
}
use actionwitness.Paths.{ObservationPath}
use actionwitness.Vocabulary.{CheckType, AssertionSeverity, SurfaceDeltaKind, policy_type_value}
use actionwitness.Evidence.{RunEvent, is_present}
use actionwitness.Findings.{Finding, has_failed}
use actionwitness.Policies.Inputs.{
  Policy, PolicyEvidence, SurfaceDelta, policy_type, completions_for, requires_confirmation,
  idempotent_by_request_id, maximum_mutations, forbidden_tool, no_undeclared_changes,
  stable_tool_surface,
}
use actionwitness.Policies.{evaluate_policy, evaluate_policies}
use actionwitness.Prelude.Text.{sorted_set}
use actionwitness.Policies.Consent.{evaluate_requires_confirmation}
use actionwitness.Policies.Retries.{
  has_request, is_unknown, is_mutation, repeated_ids, judge_requests, judge_repetition, conclude,
  evaluate_idempotency, evaluate_maximum_mutations, evaluate_forbidden_tool,
}
use actionwitness.Policies.Changes.{
  judge_changes, paths_to_judge, declared_paths, partition, evaluate_no_undeclared_changes,
}
use actionwitness.Policies.Surface.{
  is_watched, is_failing_kind, judge_surface, evaluate_stable_tool_surface,
}

-- a critical policy finding under the policy's type, classified exactly if it has failed
abbrev pub IsFindingOf : Policy → Finding → Type 0
IsFindingOf policy finding =
    (finding.check_id ≡ policy_type_value (policy_type policy))
    × (finding.check_type ≡ CheckType.policy)
    × (finding.severity ≡ AssertionSeverity.critical)
    × (is_present finding.classification ≡ has_failed finding)

consent_shape :
    (policy : Policy) (tool : String) (events : List RunEvent)
    → IsFindingOf policy (evaluate_requires_confirmation policy tool events)
unfolding evaluate_requires_confirmation
consent_shape policy tool events = (ground arith, ground arith, ground arith, ground arith)

mutations_shape :
    (policy : Policy) (limit : ℕ) (events : List RunEvent)
    → IsFindingOf policy (evaluate_maximum_mutations policy limit events)
unfolding evaluate_maximum_mutations
mutations_shape policy limit events = (ground arith, ground arith, ground arith, ground arith)

forbidden_shape :
    (policy : Policy) (tool : String) (events : List RunEvent)
    → IsFindingOf policy (evaluate_forbidden_tool policy tool events)
unfolding evaluate_forbidden_tool
forbidden_shape policy tool events = (ground arith, ground arith, ground arith, ground arith)

changes_shape :
    (policy : Policy) (evidence : PolicyEvidence) (n : ℕ)
    (judged : List ObservationPath × List ObservationPath)
    → IsFindingOf policy (judge_changes policy evidence n judged)
changes_shape policy evidence n ([], ws) = (refl, refl, refl, refl)
changes_shape policy evidence n (u ∷ us, ws) = (refl, refl, refl, refl)

surface_shape :
    (policy : Policy) (mismatched : List String) (failing warned : List SurfaceDelta)
    → IsFindingOf policy (judge_surface policy mismatched failing warned)
surface_shape policy [] [] warned = (refl, refl, refl, refl)
surface_shape policy [] (f ∷ fs) warned = (refl, refl, refl, refl)
surface_shape policy (m ∷ ms) failing warned = (refl, refl, refl, refl)

conclude_shape :
    (policy : Policy) (completions : List RunEvent) (repeated ids : List String)
    → IsFindingOf policy (conclude policy repeated (judge_requests policy completions ids))
unfolding judge_requests
conclude_shape policy completions repeated [] = (refl, refl, refl, refl)
conclude_shape policy completions repeated (id ∷ ids) =
    let rest = conclude_shape policy completions repeated ids in
    let group = filter (has_request id) completions in
    elim (Bool-cases (any is_unknown group)) [
      | inl e ↦ rw (judge_requests, e) (refl, refl, refl, refl)
      | inr e ↦ elim (Bool-cases (ltb 1 (length (filter is_mutation group)))) [
        | inl k ↦ rw (judge_requests, e, k) (refl, refl, refl, refl)
        | inr k ↦ rw (judge_requests, e, k) rest
      ]
    ]

repetition_shape :
    (policy : Policy) (tool : String) (completions : List RunEvent) (repeated : List String)
    → IsFindingOf policy (judge_repetition policy tool completions repeated)
repetition_shape policy tool [] repeated = (refl, refl, refl, refl)
repetition_shape policy tool (c ∷ cs) [] = (refl, refl, refl, refl)
repetition_shape policy tool (c ∷ cs) (id ∷ ids) =
    conclude_shape policy (c ∷ cs) (id ∷ ids) (id ∷ ids)

idempotency_shape :
    (policy : Policy) (tool : String) (events : List RunEvent)
    → IsFindingOf policy (evaluate_idempotency policy tool events)
unfolding evaluate_idempotency
idempotency_shape policy tool events =
    let completions = completions_for events tool in
    repetition_shape policy tool completions (repeated_ids completions)

undeclared_shape :
    (policy : Policy) (allow_paths : List ObservationPath) (evidence : PolicyEvidence)
    → IsFindingOf policy (evaluate_no_undeclared_changes policy allow_paths evidence)
unfolding evaluate_no_undeclared_changes
undeclared_shape policy allow_paths evidence = elim (Option-cases (paths_to_judge evidence)) [
  | inl e ↦ rw (evaluate_no_undeclared_changes, e) (refl, refl, refl, refl)
  | inr (changed, e) ↦
      rw (evaluate_no_undeclared_changes, e)
        (changes_shape policy evidence (length changed)
          (partition (declared_paths evidence) allow_paths changed))
]

stable_shape :
    (policy : Policy) (kinds : List SurfaceDeltaKind) (evidence : PolicyEvidence)
    → IsFindingOf policy (evaluate_stable_tool_surface policy kinds evidence)
unfolding evaluate_stable_tool_surface
stable_shape policy kinds evidence =
    let watched = filter is_watched evidence.observed_surface_deltas in
    let shape =
      surface_shape policy (sorted_set evidence.identity_mismatches)
        (filter (is_failing_kind kinds) watched)
        (filter (λ d. not (is_failing_kind kinds d)) watched) in
    elim (Bool-cases evidence.surface_baseline_recorded) [
      | inl e ↦ rw e shape
      | inr e ↦ rw e (refl, refl, refl, refl)
    ]

evaluate_policy-IsFindingOf :
    (policy : Policy) (evidence : PolicyEvidence)
    → IsFindingOf policy (evaluate_policy policy evidence)
unfolding evaluate_policy
evaluate_policy-IsFindingOf (requires_confirmation tool timeout) evidence =
    consent_shape (requires_confirmation tool timeout) tool evidence.events
evaluate_policy-IsFindingOf (idempotent_by_request_id tool) evidence =
    idempotency_shape (idempotent_by_request_id tool) tool evidence.events
evaluate_policy-IsFindingOf (maximum_mutations limit) evidence =
    mutations_shape (maximum_mutations limit) limit evidence.events
evaluate_policy-IsFindingOf (forbidden_tool tool) evidence =
    forbidden_shape (forbidden_tool tool) tool evidence.events
evaluate_policy-IsFindingOf (no_undeclared_changes allow_paths) evidence =
    undeclared_shape (no_undeclared_changes allow_paths) allow_paths evidence
evaluate_policy-IsFindingOf (stable_tool_surface kinds) evidence =
    stable_shape (stable_tool_surface kinds) kinds evidence

-- the finding of each policy stands at the policy's place
abbrev pub InPlace : List Policy → PolicyEvidence → Type 0
InPlace policies evidence =
    (i : ℕ) (policy : Policy)
    → get_elem? policies i ≡ some policy
    → (finding : Finding) × (get_elem? (evaluate_policies policies evidence) i ≡ some finding)
      × IsFindingOf policy finding

in_place : (policies : List Policy) (evidence : PolicyEvidence) → InPlace policies evidence
unfolding evaluate_policies
in_place [] evidence i policy h = absurd (cc h)
in_place (p ∷ ps) evidence zero policy h =
    let same : p ≡ policy = cc h in
    (
      evaluate_policy policy evidence,
      ap (λ q. some (evaluate_policy q evidence)) same,
      evaluate_policy-IsFindingOf policy evidence,
    )
in_place (p ∷ ps) evidence (suc i) policy h = in_place ps evidence i policy h

length-evaluate_policies :
    (policies : List Policy) (evidence : PolicyEvidence)
    → length (evaluate_policies policies evidence) ≡ length policies
unfolding evaluate_policies
length-evaluate_policies [] evidence = refl
length-evaluate_policies (p ∷ ps) evidence = ap suc (length-evaluate_policies ps evidence)

-- Every policy of a contract gets its own finding, in contract order: as many findings as policies, and the finding at a place is critical, stands under the type of the policy there, and carries a classification exactly if it has failed.
pub evaluate_policies_lem :
    (policies : List Policy) (evidence : PolicyEvidence)
    → (length (evaluate_policies policies evidence) ≡ length policies) × InPlace policies evidence
evaluate_policies_lem policies evidence =
    (length-evaluate_policies policies evidence, in_place policies evidence)
