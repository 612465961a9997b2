-- ===== src/Policies/Retries/Limits.antt =====
-- When `maximum_mutations` and `forbidden_tool` fail.
use actionwitness.Prelude.{
  ℕ, ◌≡◌, ◌≤◌, ◌<◌, refl, sym, ap, ◌∙◌, ◌⊎◌, inl, inr, ◌↔◌, String, Bool, true, not, ◌&&◌, List, [],
  ◌∷◌, Memᴰ, mem-cons, some, arith, Bool-cases, List-cases, if◌then◌else◌, any, all_sound, filter,
  length, any_sound, any_complete, Some, ltb, mem-filter, mem_of_mem-filter,
}
use actionwitness.Prelude.Sort.{IsSorted}
use actionwitness.Vocabulary.{CheckStatus}
use actionwitness.Evidence.{RunEvent, is_invocation_start, is_completion, ordered, sequence_leb}
use actionwitness.Evidence.Order.{
  any-ordered, length-filter-ordered, ordered-IsSorted, mem-ordered, mem_of_mem-ordered,
}
use actionwitness.Policies.Inputs.{Policy, names_tool, starts_for}
use actionwitness.Policies.Consent.{is_empty}
use actionwitness.Policies.Consent.Laws.{is_empty-filter}
use actionwitness.Policies.Retries.{
  is_mutation, is_unknown, evaluate_maximum_mutations, evaluate_forbidden_tool,
}

-- a completed call of any tool, with the test given
abbrev pub completed : (RunEvent → Bool) → RunEvent → Bool
completed test e = is_completion e.event_type && test e

unknown_any :
    (events : List RunEvent)
    → not (is_empty (filter (completed is_unknown) (ordered events)))
      ≡ any (completed is_unknown) events
unknown_any events =
    is_empty-filter (completed is_unknown) (ordered events)
    ∙ any-ordered (completed is_unknown) events

mutations_status :
    (policy : Policy) (limit : ℕ) (events : List RunEvent)
    → (evaluate_maximum_mutations policy limit events).status ≡ (
        if any (completed is_unknown) events
        then CheckStatus.observation_unavailable
        else if ltb limit (length (filter (completed is_mutation) events))
        then CheckStatus.failed
        else CheckStatus.passed)
unfolding evaluate_maximum_mutations
mutations_status policy limit events =
    rw (sym (unknown_any events), sym (length-filter-ordered (completed is_mutation) events))
      (ground arith)

-- `maximum_mutations` is unavailable exactly if a completed call recorded no state hashes; if all did, it fails exactly if more completed calls than the limit changed the state, and passes otherwise.
pub maximum_mutations_status :
    (policy : Policy) (limit : ℕ) (events : List RunEvent)
    → let status = (evaluate_maximum_mutations policy limit events).status in
      let mutations = length (filter (completed is_mutation) events) in
      ((status ≡ CheckStatus.observation_unavailable) ↔ Some (completed is_unknown) events)
      × (¬ Some (completed is_unknown) events
          → ((status ≡ CheckStatus.failed) ↔ (limit < mutations))
            × ((status ≡ CheckStatus.passed) ↔ (mutations ≤ limit)))
maximum_mutations_status policy limit events =
    let status = mutations_status policy limit events in
    elim (Bool-cases (any (completed is_unknown) events)) [
      | inl some_unknown ↦
          let found = any_sound (completed is_unknown) events some_unknown in
          ((λ _. found, λ _. ground arith), λ clear. absurd (clear found))
      | inr known ↦ (
        (
          λ e. absurd (ground arith),
          λ (e, m, p). cc (known, any_complete (completed is_unknown) m p),
        ),
        λ _. (ground arith, ground arith),
      )
    ]

-- an event that starts a call of the tool
abbrev pub starts : String → RunEvent → Bool
starts tool e = is_invocation_start e && names_tool tool e

no_member : {e : RunEvent} → ¬ Memᴰ e []
no_member m = elim m [ ]

first_least :
    (p : RunEvent → Bool) (events : List RunEvent)
    → IsSorted sequence_leb events
    → (e : RunEvent) (es : List RunEvent) → filter p events ≡ e ∷ es
    → (f : RunEvent) → Memᴰ f events
    → p f ≡ true
    → e.sequence_number ≤ f.sequence_number
unfolding filter
first_least p [] sorted e es h f m q = elim m [ ]
first_least p (x ∷ xs) (low, sorted) e es h f m q = elim (Bool-cases (p x)) [
  | inl px ↦
      let first = rw px at h in
      let same : x ≡ e = cc first in
      elim (mem-cons m) [
        | inl here ↦ rw (sym same, here) (omega arith)
        | inr n ↦ let least = all_sound (sequence_leb x) n low in rw (sym same) (ground arith)
      ]
  | inr px ↦ elim (mem-cons m) [
    | inl same ↦ cc (px, ap p same, q)
    | inr n ↦ first_least p xs sorted e es (rw px at h) f n q
  ]
]

-- `forbidden_tool` fails exactly if an event of the run starts a call of the tool, whoever the actor is, and passes otherwise; when it fails, it is at the sequence number of such an event, and none of them has a smaller one.
pub forbidden_tool_fails :
    (policy : Policy) (tool : String) (events : List RunEvent)
    → let finding = evaluate_forbidden_tool policy tool events in
      ((finding.status ≡ CheckStatus.passed) × ¬ Some (starts tool) events)
      ⊎ ((finding.status ≡ CheckStatus.failed)
          × ((e : RunEvent) × Memᴰ e events
              × (starts tool e ≡ true)
              × (finding.causal_event_sequence ≡ some e.sequence_number)
              × ((f : RunEvent)
                  → Memᴰ f events
                  → starts tool f ≡ true
                  → e.sequence_number ≤ f.sequence_number)))
unfolding evaluate_forbidden_tool starts_for
forbidden_tool_fails policy tool events =
    elim (List-cases (filter (starts tool) (ordered events))) [
      | inl clear ↦ inl (
        rw clear refl,
        λ (e, m, q). no_member (rw clear at (mem-filter (starts tool) (mem-ordered events m) q)),
      )
      | inr (e, es, first) ↦
          let (m, q) =
            mem_of_mem-filter (starts tool) (ordered events) (rw first (Memᴰ.head refl)) in
          inr (
            rw first refl,
            (
              e,
              mem_of_mem-ordered events m,
              q,
              rw first refl,
              λ f n r.
                  first_least (starts tool) (ordered events) (ordered-IsSorted events) e es first f
                    (mem-ordered events n) r,
            ),
          )
    ]
