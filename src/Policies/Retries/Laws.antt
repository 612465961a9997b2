-- ===== src/Policies/Retries/Laws.antt =====
-- When `idempotent_by_request_id` passes.
use actionwitness.Prelude.{
  ℕ, suc, ◌≡◌, ◌≢◌, ◌≤◌, ◌<◌, refl, sym, ap, ◌∙◌, subst, ◌⊎◌, inl, inr, ◌↔◌, String, string_eq,
  ◌==◌, Bool, true, false, not, ◌&&◌, ◌||◌, List, [], ◌∷◌, Memᴰ, mem-cons, Option, none, some,
  arith, eq_iff, Bool-cases, Option-cases, if◌then◌else◌, any, filter, length, any_sound,
  any_complete, any-filter, mem-filter, mem_of_mem-filter, Some, ltb, ltb→lt, lt→ltb,
}
use actionwitness.Prelude.Sort.{mem-sort_by, mem_of_mem-sort_by}
use actionwitness.Prelude.Text.{text_leb, distinct, sorted_set}
use actionwitness.Trajectory.{count}
use actionwitness.Trajectory.Conformance.{mem-distinct}
use actionwitness.Vocabulary.{CheckStatus}
use actionwitness.Evidence.{RunEvent}
use actionwitness.Findings.{Finding}
use actionwitness.Policies.Inputs.{Policy, completions_for}
use actionwitness.Policies.Retries.{
  request_ids, repeated_ids, has_request, is_mutation, is_unknown, judge_requests, judge_repetition,
  evaluate_idempotency,
}

count-request_ids :
    (id : String)
    → id ≢ ""
    → (completions : List RunEvent)
    → count id (request_ids completions) ≡ length (filter (has_request id) completions)
unfolding count filter
count-request_ids id named [] = refl
count-request_ids id named (e ∷ es) = elim (Option-cases e.request_id) [
  | inl h ↦ rw h (count-request_ids id named es)
  | inr (k, h) ↦ rw h (ground (arith, eq_iff k id, eq_iff k "", count-request_ids id named es))
]

mem-count : (id : String) (ids : List String) → 0 < count id ids → Memᴰ id ids
unfolding count
mem-count id [] h = absurd (omega arith)
mem-count id (i ∷ ids) h = elim (Bool-cases (i == id)) [
  | inl e ↦ Memᴰ.head (sym ((eq_iff i id).0 e))
  | inr e ↦ Memᴰ.tail (mem-count id ids (rw e at h))
]

count-filter :
    (p : String → Bool) (id : String) (ids : List String)
    → p id ≡ true
    → count id (filter p ids) ≡ count id ids
unfolding count filter
count-filter p id [] h = refl
count-filter p id (i ∷ ids) h = elim (Bool-cases (i == id)) [
  | inl e ↦ rw (e, ap p ((eq_iff i id).0 e) ∙ h, e) (ap suc (count-filter p id ids h))
  | inr e ↦ ground (arith, count-filter p id ids h)
]

-- the completions of the tool under one request ID
abbrev pub requests_of : String → String → List RunEvent → List RunEvent
requests_of tool id events = filter (has_request id) (completions_for events tool)

mem-repeated_ids :
    (id : String)
    → id ≢ ""
    → (completions : List RunEvent) → 1 < length (filter (has_request id) completions)
    → Memᴰ id (repeated_ids completions)
unfolding repeated_ids sorted_set
mem-repeated_ids id named completions h =
    let many : 1 < count id (request_ids completions) =
      omega (arith, count-request_ids id named completions) in
    let p = λ (i : String). ltb 1 (count i (request_ids completions)) in
    let q : p id ≡ true = lt→ltb 1 (count id (request_ids completions)) many in
    mem-sort_by text_leb (distinct (filter p (request_ids completions))) (
      mem-distinct id (filter p (request_ids completions))
        (omega (arith, count-filter p id (request_ids completions) q)))

-- a request whose effects are known, and changed the state at most once
abbrev pub IsIdempotent : List RunEvent → Type 0
IsIdempotent group = (any is_unknown group ≡ false) × (length (filter is_mutation group) ≤ 1)

judge_requests_sound :
    (policy : Policy) (completions : List RunEvent) (ids : List String)
    → judge_requests policy completions ids ≡ none
    → (id : String) → Memᴰ id ids
    → IsIdempotent (filter (has_request id) completions)
unfolding judge_requests
judge_requests_sound policy completions [] h id m = elim m [ ]
judge_requests_sound policy completions (i ∷ ids) h id m =
    let settled : IsIdempotent (filter (has_request i) completions) =
      (ground arith, ground arith) in
    elim (mem-cons m) [
      | inl e ↦ subst (λ j. IsIdempotent (filter (has_request j) completions)) (sym e) settled
      | inr n ↦ judge_requests_sound policy completions ids (ground arith) id n
    ]

judge_requests_complete :
    (policy : Policy) (completions : List RunEvent) (ids : List String)
    → ((id : String) → Memᴰ id ids → IsIdempotent (filter (has_request id) completions))
    → judge_requests policy completions ids ≡ none
unfolding judge_requests
judge_requests_complete policy completions [] h = refl
judge_requests_complete policy completions (i ∷ ids) h =
    let (known, few) = h i (Memᴰ.head refl) in
    let rest = judge_requests_complete policy completions ids (λ j m. h j (Memᴰ.tail m)) in
    rw known (ground arith)

abbrev verdict : Option Finding → CheckStatus
verdict none = CheckStatus.passed
verdict (some finding) = finding.status

no_requests : repeated_ids [] ≡ []
unfolding repeated_ids sorted_set filter actionwitness.Prelude.Sort.sort_by
no_requests = refl

judge_repetition_status :
    (policy : Policy) (tool : String) (completions : List RunEvent) (repeated : List String)
    → (completions ≡ [] → repeated ≡ [])
    → (judge_repetition policy tool completions repeated).status
      ≡ verdict (judge_requests policy completions repeated)
unfolding judge_requests
judge_repetition_status policy tool [] repeated h = rw (h refl) refl
judge_repetition_status policy tool (c ∷ cs) [] h = refl
judge_repetition_status policy tool (c ∷ cs) (id ∷ ids) h =
    elim (Option-cases (judge_requests policy (c ∷ cs) (id ∷ ids))) [
      | inl e ↦ rw (judge_requests, e) refl
      | inr (f, e) ↦ rw (judge_requests, e) refl
    ]

judge_requests_refuses :
    (policy : Policy) (completions : List RunEvent) (ids : List String)
    → verdict (judge_requests policy completions ids) ≡ CheckStatus.passed
    → judge_requests policy completions ids ≡ none
unfolding judge_requests
judge_requests_refuses policy completions [] h = refl
judge_requests_refuses policy completions (id ∷ ids) h =
    ground (arith, judge_requests_refuses policy completions ids)

evaluate_idempotency_status :
    (policy : Policy) (tool : String) (events : List RunEvent)
    → (evaluate_idempotency policy tool events).status
      ≡ verdict (
          judge_requests policy
            (completions_for events tool)
            (repeated_ids (completions_for events tool)))
unfolding evaluate_idempotency
evaluate_idempotency_status policy tool events =
    judge_repetition_status policy tool (completions_for events tool)
      (repeated_ids (completions_for events tool)) (λ e. rw e no_requests)

mem_of_mem-distinct : (id : String) (ids : List String) → Memᴰ id (distinct ids) → Memᴰ id ids
mem_of_mem-distinct id [] m = m
mem_of_mem-distinct id (i ∷ ids) m = elim (Bool-cases (any (λ j. j == i) (distinct ids))) [
  | inl old ↦ Memᴰ.tail (mem_of_mem-distinct id ids (rw old at m))
  | inr new ↦ elim (mem-cons (rw new at m)) [
    | inl e ↦ Memᴰ.head e
    | inr n ↦ Memᴰ.tail (mem_of_mem-distinct id ids n)
  ]
]

mem-request_ids-named :
    (id : String) (completions : List RunEvent) → Memᴰ id (request_ids completions) → id ≢ ""
mem-request_ids-named id [] m = elim m [ ]
mem-request_ids-named id (e ∷ es) m = elim (Option-cases e.request_id) [
  | inl h ↦ mem-request_ids-named id es (rw h at m)
  | inr (k, h) ↦ elim (Bool-cases (k == "")) [
    | inl blank ↦ mem-request_ids-named id es (rw (h, blank) at m)
    | inr full ↦ elim (mem-cons (rw (h, full) at m)) [
      | inl e ↦ λ q. cc (full, (eq_iff k "").1 (sym e ∙ q))
      | inr n ↦ mem-request_ids-named id es n
    ]
  ]
]

repeated_of_mem :
    (id : String) (completions : List RunEvent)
    → Memᴰ id (repeated_ids completions)
    → (id ≢ "") × (1 < length (filter (has_request id) completions))
unfolding repeated_ids sorted_set
repeated_of_mem id completions m =
    let ids = request_ids completions in
    let p = λ (i : String). ltb 1 (count i ids) in
    let (n, q) = mem_of_mem-filter p ids (
      mem_of_mem-distinct id (filter p ids)
        (mem_of_mem-sort_by text_leb (distinct (filter p ids)) m)) in
    let named = mem-request_ids-named id completions n in
    (named, omega (arith, ltb→lt 1 (count id ids) q, count-request_ids id named completions))

-- `idempotent_by_request_id` passes exactly if, for each request ID that is not blank and that more than one completed call of the tool carries, every one of those calls recorded its state hashes and at most one of them changed the state.
pub idempotency_passes :
    (policy : Policy) (tool : String) (events : List RunEvent)
    → ((evaluate_idempotency policy tool events).status ≡ CheckStatus.passed) ↔ (
        (id : String)
        → id ≢ ""
        → 1 < length (requests_of tool id events)
        → IsIdempotent (requests_of tool id events))
idempotency_passes policy tool events =
    let completions = completions_for events tool in
    let status = evaluate_idempotency_status policy tool events in
    (
      λ passed id named many.
          judge_requests_sound policy completions (repeated_ids completions)
            (judge_requests_refuses policy completions (repeated_ids completions)
              (sym status ∙ passed))
            id (mem-repeated_ids id named completions many),
      λ settled.
          status
          ∙ ap verdict (
              judge_requests_complete policy completions (repeated_ids completions) (λ id m.
                let (named, many) = repeated_of_mem id completions m in settled id named many)),
    )
