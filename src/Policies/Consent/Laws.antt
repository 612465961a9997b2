-- ===== src/Policies/Consent/Laws.antt =====
-- When `requires_confirmation` fails.
use actionwitness.Prelude.{
  ℕ, ◌≡◌, refl, sym, ap, ◌∙◌, ◌⊎◌, inl, inr, ◌↔◌, String, string_eq, ◌==◌, Bool, false, not, ◌&&◌,
  ◌||◌, List, [], ◌∷◌, ◌++◌, none, some, arith, eq_iff, Option-cases, if◌then◌else◌, any, filter,
  any_sound, any_complete, any-append, any-filter, any_ext, Some, ltb,
}
use actionwitness.Vocabulary.{CheckStatus}
use actionwitness.Evidence.{
  reported_success, changed_state, is_true, RunEvent, is_invocation_start, is_completion, ordered,
}
use actionwitness.Evidence.Order.{any-ordered}
use actionwitness.Policies.Inputs.{Policy, names_tool, starts_for, completions_for}
use actionwitness.Policies.Consent.{
  is_approval, needs_consent, Approvals, approvals_of, record_approval, approve, collect_approvals,
  correlation_or_blank, is_unconsented, is_empty, evaluate_requires_confirmation,
}

approvals_of-record_approval :
    (k j : String) (n : ℕ) (d : Approvals)
    → approvals_of (record_approval k n d) j
      ≡ (if k == j then approvals_of d j ++ n ∷ [] else approvals_of d j)
unfolding approvals_of record_approval
approvals_of-record_approval k j n [] = refl
approvals_of-record_approval k j n ((i, ns) ∷ d) =
    ground (arith, eq_iff i k, eq_iff i j, eq_iff k j, approvals_of-record_approval k j n d)

-- `event.correlation_id == key`
abbrev pub correlates : String → RunEvent → Bool
correlates key event = elim event.correlation_id [ none ↦ false | some k ↦ k == key ]

abbrev approves : String → (ℕ → Bool) → RunEvent → Bool
approves key p a = is_approval a.event_type && correlates key a && p a.sequence_number

any-approve :
    (key : String) (p : ℕ → Bool) (d : Approvals) (e : RunEvent)
    → any p (approvals_of (approve d e) key) ≡ (any p (approvals_of d key) || approves key p e)
unfolding any
any-approve key p d e = elim (Option-cases e.correlation_id) [
  | inl h ↦ rw h (ground arith)
  | inr (k, h) ↦ rw h (
      ground (
        arith,
        eq_iff k key,
        approvals_of-record_approval k key e.sequence_number d,
        any-append p (approvals_of d key) (e.sequence_number ∷ []),
      ))
]

any-collect_approvals :
    (key : String) (p : ℕ → Bool) (d : Approvals) (events : List RunEvent)
    → any p (approvals_of (collect_approvals d events) key)
      ≡ (any p (approvals_of d key) || any (approves key p) events)
unfolding collect_approvals any
any-collect_approvals key p d [] = ground arith
any-collect_approvals key p d (e ∷ es) =
    ground (arith, any-collect_approvals key p (approve d e) es, any-approve key p d e)

-- an approval recorded before the completion, under the completion's correlation
abbrev pub approved_before : RunEvent → RunEvent → Bool
approved_before completion event =
    approves (correlation_or_blank completion) (λ n. ltb n completion.sequence_number) event

-- the state hashes moved, or the tool reported success
abbrev pub acted : RunEvent → Bool
acted c = is_true (changed_state c) || reported_success c

is_unconsented_lem :
    (events : List RunEvent) (c : RunEvent)
    → is_unconsented (collect_approvals [] (ordered events)) c
      ≡ (acted c && not (any (approved_before c) events))
unfolding is_unconsented approvals_of any needs_consent
is_unconsented_lem events c =
    ap (λ b. acted c && not b)
      (any-collect_approvals (correlation_or_blank c) (λ n. ltb n c.sequence_number) []
          (ordered events)
        ∙ any-ordered (approved_before c) events)

-- a completed call of the tool that acted, with no approval before it
abbrev pub is_unauthorised : String → List RunEvent → RunEvent → Bool
is_unauthorised tool events c =
    (is_completion c.event_type && names_tool tool c)
    && (acted c && not (any (approved_before c) events))

pub is_empty-filter :
    (p : RunEvent → Bool) (events : List RunEvent) → not (is_empty (filter p events)) ≡ any p events
unfolding filter any
is_empty-filter p [] = refl
is_empty-filter p (e ∷ es) = ground (arith, is_empty-filter p es)

module _ (policy : Policy) (tool : String) (events : List RunEvent) where
  abbrev is_attempt : RunEvent → Bool
  is_attempt e = is_invocation_start e && names_tool tool e

  unauthorised_any :
      not (
        is_empty (
          filter
            (is_unconsented (collect_approvals [] (ordered events)))
            (completions_for events tool)))
      ≡ any (is_unauthorised tool events) events
  unfolding completions_for
  unauthorised_any =
      let approvals = collect_approvals [] (ordered events) in
      let completed = λ (e : RunEvent). is_completion e.event_type && names_tool tool e in
      is_empty-filter (is_unconsented approvals) (filter completed (ordered events))
      ∙ any-filter completed (is_unconsented approvals) (ordered events)
      ∙ any-ordered (λ e. completed e && is_unconsented approvals e) events
      ∙ any_ext (λ e. ap (λ b. completed e && b) (is_unconsented_lem events e)) events

  attempted_any : not (is_empty (starts_for events tool)) ≡ any is_attempt events
  unfolding starts_for
  attempted_any = is_empty-filter is_attempt (ordered events) ∙ any-ordered is_attempt events

  consent_status : (evaluate_requires_confirmation policy tool events).status ≡ (
      if any is_attempt events && any (is_unauthorised tool events) events
      then CheckStatus.failed
      else CheckStatus.passed)
  unfolding evaluate_requires_confirmation
  consent_status = rw (sym attempted_any, sym unauthorised_any) (ground arith)

-- `requires_confirmation` fails exactly if the tool was attempted and some completed call of it moved the state hashes or reported success, with no approval of the same correlation at an earlier sequence number; otherwise it passes.
pub requires_confirmation_fails :
    (policy : Policy) (tool : String) (events : List RunEvent)
    → let finding = evaluate_requires_confirmation policy tool events in
      ((finding.status ≡ CheckStatus.failed) ↔ (
        Some (λ e. is_invocation_start e && names_tool tool e) events
        × Some (is_unauthorised tool events) events))
      × ((finding.status ≡ CheckStatus.failed) ⊎ (finding.status ≡ CheckStatus.passed))
requires_confirmation_fails policy tool events =
    let attempt = λ (e : RunEvent). is_invocation_start e && names_tool tool e in
    let attempted = any_sound attempt events in
    let found = any_sound (is_unauthorised tool events) events in
    let status = consent_status policy tool events in
    (
      (
        λ failed. (attempted (ground arith), found (ground arith)),
        λ ((e, m, p), (c, n, q)).
            status
            ∙ rw (any_complete attempt m p, any_complete (is_unauthorised tool events) n q) refl,
      ),
      ground arith,
    )
