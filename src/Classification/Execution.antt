-- ===== src/Classification/Execution.antt =====
-- The tool execution layer against the findings that are made of failed calls.
use actionwitness.Prelude.{
  ◌≡◌, ◌≢◌, refl, ◌↔◌, inl, inr, Bool, true, false, ◌&&◌, List, [], ◌∷◌, map, arith, Bool-cases,
  any, filter, any-filter, any_ext, Some, any_sound, any_complete, if◌then◌else◌, ◌∙◌, none_of,
  subst,
}
use actionwitness.Vocabulary.{LayerResult}
use actionwitness.Evidence.{RunEvent, is_failure, is_terminal_invocation, ordered}
use actionwitness.Evidence.Order.{any-ordered}
use actionwitness.Classification.{
  is_invocation_end, is_blocked, is_acting_failure, tool_execution_layer, execution_findings,
  judge_invocations, execution_finding,
}

-- what each result of the layer says of the run's ended calls
abbrev pub IsLayer : List RunEvent → LayerResult → Type 0
IsLayer events LayerResult.failed = Some is_acting_failure events
IsLayer events LayerResult.blocked_safely =
    ¬ Some is_acting_failure events × Some (λ e. is_invocation_end e && is_blocked e) events
IsLayer events LayerResult.passed =
    Some is_invocation_end events
    × ¬ Some is_acting_failure events
    × ¬ Some (λ e. is_invocation_end e && is_blocked e) events
IsLayer events LayerResult.not_evaluated = ¬ Some is_invocation_end events
IsLayer events _ = ⊥

is_acting_failure-end :
    (e : RunEvent) → (is_invocation_end e && is_failure e.event_type) ≡ is_acting_failure e
unfolding is_terminal_invocation is_failure
is_acting_failure-end e = ground arith

-- the layer, by what holds of some of the ended calls
abbrev layer_of : Bool → Bool → Bool → LayerResult
layer_of ended failing blocked =
    if ended
    then if failing
      then LayerResult.failed
      else if blocked
      then LayerResult.blocked_safely
      else LayerResult.passed
    else LayerResult.not_evaluated

judge_invocations_lem :
    (xs : List RunEvent)
    → judge_invocations xs
      ≡ layer_of (any (λ e. true) xs) (any (λ e. is_failure e.event_type) xs) (any is_blocked xs)
unfolding any
judge_invocations_lem [] = refl
judge_invocations_lem (x ∷ xs) = refl

any-ends :
    (p : RunEvent → Bool) (events : List RunEvent)
    → any p (filter is_invocation_end (ordered events))
      ≡ any (λ e. is_invocation_end e && p e) events
any-ends p events =
    any-filter is_invocation_end p (ordered events)
    ∙ any-ordered (λ e. is_invocation_end e && p e) events

tool_execution_layer_lem :
    (events : List RunEvent)
    → tool_execution_layer events
      ≡ layer_of
          (any is_invocation_end events)
          (any is_acting_failure events)
          (any (λ e. is_invocation_end e && is_blocked e) events)
unfolding tool_execution_layer
tool_execution_layer_lem events =
    judge_invocations_lem (filter is_invocation_end (ordered events))
    ∙ rw
        (
          any-ends (λ e. true) events,
          any-ends (λ e. is_failure e.event_type) events,
          any-ends is_blocked events,
          any_ext is_acting_failure-end events,
          any_ext (λ e. true_right (is_invocation_end e)) events,
        )
        refl
  where
    true_right : (b : Bool) → (b && true) ≡ b
    true_right b = ground arith

-- what a layer of these three answers says
layer_of-IsLayer :
    (events : List RunEvent)
    → IsLayer events (
        layer_of
          (any is_invocation_end events)
          (any is_acting_failure events)
          (any (λ e. is_invocation_end e && is_blocked e) events))
layer_of-IsLayer events = elim (Bool-cases (any is_invocation_end events)) [
  | inr h ↦ rw h (none_of is_invocation_end events h)
  | inl h ↦ rw h (elim (Bool-cases (any is_acting_failure events)) [
    | inl k ↦ rw k (any_sound is_acting_failure events k)
    | inr k ↦ rw k (elim (Bool-cases (any (λ e. is_invocation_end e && is_blocked e) events)) [
      | inl b ↦ rw b (none_of is_acting_failure events k, any_sound _ events b)
      | inr b ↦ rw b (
        any_sound is_invocation_end events h,
        none_of is_acting_failure events k,
        none_of _ events b,
      )
    ])
  ])
]

-- The execution layer fails exactly if a call of the agent or of an evaluation failed; it is blocked safely if none failed but one was cancelled or reported a block; it passes if such calls ended and none of this holds; and it is not evaluated exactly if no such call ended.
pub tool_execution_layer-IsLayer :
    (events : List RunEvent) → IsLayer events (tool_execution_layer events)
tool_execution_layer-IsLayer events = rw (tool_execution_layer_lem events) (layer_of-IsLayer events)

map_is_empty {ℓ κ} :
    {A : Type ℓ} {B : Type κ} (f : A → B) (p : A → Bool) (xs : List A)
    → (map f (filter p xs) ≡ []) ↔ (any p xs ≡ false)
unfolding filter any
map_is_empty f p [] = (λ h. refl, λ h. refl)
map_is_empty f p (x ∷ xs) = elim (Bool-cases (p x)) [
  | inl e ↦ rw e (λ h. absurd (cc h), λ h. absurd (cc h))
  | inr e ↦ rw e (map_is_empty f p xs)
]

layer-failed :
    (events : List RunEvent)
    → (tool_execution_layer events ≡ LayerResult.failed) ↔ (any is_acting_failure events ≡ true)
layer-failed events = (
  λ h.
      let (e, m, q) = subst (IsLayer events) h (tool_execution_layer-IsLayer events) in
      any_complete is_acting_failure m q,
  λ h.
      let (e, m, q) = any_sound is_acting_failure events h in
      let ended = any_complete is_invocation_end m (end_of_failure e q) in
      tool_execution_layer_lem events ∙ rw (ended, h) refl,
)
  where
    end_of_failure : (e : RunEvent) → is_acting_failure e ≡ true → is_invocation_end e ≡ true
    end_of_failure e q = ground (arith, is_acting_failure-end e)

-- The execution layer fails exactly if there is a finding about a failed call.
pub tool_execution_layer-execution_findings :
    (events : List RunEvent)
    → (tool_execution_layer events ≡ LayerResult.failed) ↔ (execution_findings events ≢ [])
unfolding execution_findings
tool_execution_layer-execution_findings events =
    let (there, back) = layer-failed events in
    let (empty, none_fails) = map_is_empty execution_finding is_acting_failure (ordered events) in
    (
      λ h k. cc (there h, empty k, any-ordered is_acting_failure events),
      λ h. elim (Bool-cases (any is_acting_failure events)) [
        | inl e ↦ back e
        | inr e ↦ absurd (h (none_fails (any-ordered is_acting_failure events ∙ e)))
      ],
    )
