-- ===== src/Cases/Pruning.antt =====
-- Which steps of a trajectory survive.
use actionwitness.Prelude.{
  ℕ, suc, ◌≡◌, ◌≤◌, refl, sym, ap, ◌∙◌, String, Bool, true, false, not, ◌&&◌, List, [], ◌∷◌, map,
  length, Option, none, some, any, arith, Bool-cases, Option-cases, inl, inr, ◌⊎◌, if◌then◌else◌,
  lt→ltb,
}
use actionwitness.Json.{JsonDict}
use actionwitness.Cases.{
  OutcomeContract, Step, is_in, is_idle, last_mutation, is_after, keep_steps, prune_trajectory,
}

-- a step without its number
abbrev pub call_of : Step → String × JsonDict
call_of (number, tool, arguments) = (tool, arguments)

-- a step that may have changed the target
abbrev pub is_mutating : List String → Step → Bool
is_mutating read_only_tools (number, tool, arguments) = not (is_in read_only_tools tool)

-- the calls without the idle ones that no mutating step follows
abbrev pub needed : (String → Bool) → List String → List Step → List (String × JsonDict)
needed idle read_only_tools [] = []
needed idle read_only_tools ((number, tool, arguments) ∷ steps) =
    let rest = needed idle read_only_tools steps in
    if idle tool && not (any (is_mutating read_only_tools) steps)
    then rest
    else (tool, arguments) ∷ rest

-- the numbers from one more than `kept` on
abbrev pub numbers_from : ℕ → ℕ → List ℕ
numbers_from kept ℕ.zero = []
numbers_from kept (suc n) = suc kept ∷ numbers_from (suc kept) n

last_mutation-cases :
    (read_only_tools : List String) (index : ℕ) (steps : List Step)
    → (last_mutation read_only_tools index steps ≡ none)
        × (any (is_mutating read_only_tools) steps ≡ false)
      ⊎ ((last : ℕ) × (last_mutation read_only_tools index steps ≡ some last)
          × (any (is_mutating read_only_tools) steps ≡ true)
          × (index ≤ last))
unfolding last_mutation any
last_mutation-cases read_only_tools index [] = inl (refl, refl)
last_mutation-cases read_only_tools index ((n, tool, a) ∷ steps) =
    elim (last_mutation-cases read_only_tools (suc index) steps) [
      | inr (last, e, m, h) ↦ inr (last, rw (last_mutation, e) refl, ground arith, omega arith)
      | inl (e, m) ↦ elim (Bool-cases (is_in read_only_tools tool)) [
        | inl r ↦ inl (rw (last_mutation, e, r) refl, rw (r, m) refl)
        | inr r ↦ inr (index, rw (last_mutation, e, r) refl, rw r refl, omega arith)
      ]
    ]

module _ (read_only_tools : List String) (last : Option ℕ) where
  -- `last` is the last mutating position of the whole trajectory, seen from this position
  abbrev IsLastFrom : ℕ → List Step → Type 0
  IsLastFrom index steps =
      ((l : ℕ) × (last ≡ some l) × (last_mutation read_only_tools index steps ≡ some l))
      ⊎ (last_mutation read_only_tools index steps ≡ none)
        × ((j : ℕ) → index ≤ j → is_after j last ≡ true)

  IsLastFrom-tail :
      (index : ℕ) (step : Step) (steps : List Step)
      → IsLastFrom index (step ∷ steps)
      → IsLastFrom (suc index) steps
  unfolding last_mutation
  IsLastFrom-tail index (n, tool, a) steps known =
      elim (last_mutation-cases read_only_tools (suc index) steps) [
        | inr (later, e, _, _) ↦ elim known [
          | inl (l, same, h) ↦ inl (l, same, e ∙ (rw (last_mutation, e) at h))
          | inr (h, _) ↦ absurd (cc (rw (last_mutation, e) at h))
        ]
        | inl (e, _) ↦ inr (
          e,
          elim known [
            | inr (h, after) ↦ λ j k. after j (omega arith)
            | inl (l, same, h) ↦ λ j k. elim (Bool-cases (is_in read_only_tools tool)) [
              | inl r ↦ absurd (cc (rw (last_mutation, e, r) at h))
              | inr r ↦
                  let here : index ≡ l = cc (rw (last_mutation, e, r) at h) in
                  rw (same, sym here) (lt→ltb index j (omega arith))
            ]
          ],
        )
      ]

  is_after-needed :
      (index : ℕ) (step : Step) (steps : List Step)
      → IsLastFrom index (step ∷ steps)
      → is_mutating read_only_tools step ≡ false
      → is_after index last ≡ not (any (is_mutating read_only_tools) steps)
  unfolding last_mutation
  is_after-needed index (n, tool, a) steps known idle =
      let r : is_in read_only_tools tool ≡ true = ground arith in
      elim (last_mutation-cases read_only_tools (suc index) steps) [
        | inr (later, e, m, k) ↦ elim known [
          | inl (l, same, h) ↦
              let there : later ≡ l = cc (rw (last_mutation, e) at h) in
              rw (same, m, sym there) (ground arith)
          | inr (h, _) ↦ absurd (cc (rw (last_mutation, e) at h))
        ]
        | inl (e, m) ↦ elim known [
          | inl (l, same, h) ↦ absurd (cc (rw (last_mutation, e, r) at h))
          | inr (h, after) ↦ rw m (after index (omega arith))
        ]
      ]

  keep_steps-needed :
      (idle : String → Bool)
      → ((tool : String) → idle tool ≡ true → is_in read_only_tools tool ≡ true)
      → (index kept : ℕ) (steps : List Step) → IsLastFrom index steps
      → map call_of (keep_steps idle last index kept steps) ≡ needed idle read_only_tools steps
  unfolding keep_steps
  keep_steps-needed idle harmless index kept [] known = refl
  keep_steps-needed idle harmless index kept ((n, tool, a) ∷ steps) known =
      let tail = IsLastFrom-tail index (n, tool, a) steps known in
      let without = keep_steps-needed idle harmless (suc index) kept steps tail in
      let with_it = keep_steps-needed idle harmless (suc index) (suc kept) steps tail in
      elim (Bool-cases (idle tool)) [
        | inr busy ↦ rw (busy, with_it) refl
        | inl is_idle ↦
            let place =
              is_after-needed index (n, tool, a) steps known (ap not (harmless tool is_idle)) in
            elim (Bool-cases (any (is_mutating read_only_tools) steps)) [
              | inl m ↦ rw (is_idle, place, m, with_it) refl
              | inr m ↦ rw (is_idle, place, m, without) refl
            ]
      ]

abbrev pub step_number : Step → ℕ
step_number (number, tool, arguments) = number

keep_steps-numbers :
    (idle : String → Bool) (last : Option ℕ) (index kept : ℕ) (steps : List Step)
    → let result = keep_steps idle last index kept steps in
      map step_number result ≡ numbers_from kept (length result)
unfolding keep_steps
keep_steps-numbers idle last index kept [] = refl
keep_steps-numbers idle last index kept ((n, tool, a) ∷ steps) =
    let without = keep_steps-numbers idle last (suc index) kept steps in
    let with_it = keep_steps-numbers idle last (suc index) (suc kept) steps in
    elim (Bool-cases (idle tool && is_after index last)) [
      | inl e ↦ rw e without
      | inr e ↦ rw e (ap (λ ns. suc kept ∷ ns) with_it)
    ]

is_idle-read_only :
    (contract : OutcomeContract) (read_only_tools : List String) (tool : String)
    → is_idle contract read_only_tools tool ≡ true
    → is_in read_only_tools tool ≡ true
unfolding is_idle
is_idle-read_only contract read_only_tools tool h = ground arith

IsLastFrom-start :
    (read_only_tools : List String) (steps : List Step)
    → IsLastFrom read_only_tools (last_mutation read_only_tools 0 steps) 0 steps
IsLastFrom-start read_only_tools steps =
    elim (Option-cases (last_mutation read_only_tools 0 steps)) [
      | inl e ↦ inr (e, λ j h. rw e refl)
      | inr (l, e) ↦ inl (l, e, e)
    ]

-- A pruned trajectory has the calls of the recorded one in order, without exactly the calls of a read-only tool that is neither expected nor named by a policy and that no call of a tool outside the read-only ones follows; and its steps are numbered from one without gaps.
pub prune_trajectory-needed :
    (steps : List Step) (contract : OutcomeContract) (read_only_tools : List String)
    → let pruned = prune_trajectory steps contract read_only_tools in
      (map call_of pruned ≡ needed (is_idle contract read_only_tools) read_only_tools steps)
      × (map step_number pruned ≡ numbers_from 0 (length pruned))
unfolding prune_trajectory
prune_trajectory-needed steps contract read_only_tools =
    let idle = is_idle contract read_only_tools in
    let last = last_mutation read_only_tools 0 steps in
    (
      keep_steps-needed read_only_tools last idle (is_idle-read_only contract read_only_tools) 0 0
          steps (IsLastFrom-start read_only_tools steps),
      keep_steps-numbers idle last 0 0 steps,
    )
