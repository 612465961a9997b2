-- ===== src/Classification/Relevant.antt =====
-- Which action a failed assertion is attributed to, said of the recorded events in any order.
use actionwitness.Prelude.{
  ◌≡◌, ◌≤◌, ◌↔◌, ◌⊎◌, inl, inr, refl, sym, ap, ◌∙◌, subst, any, all, all_sound, mem-cons, not, ◌&&◌,
  ◌≢◌, nat_eq, ◌==◌, ◌∷◌, [], String, Bool, true, List, ◌++◌, Memᴰ, Option, none, some, arith,
  Option-cases, any_sound, any_complete,
}
use mathlib.Core.Option.{some_inj}
use actionwitness.Paths.{ObservationPath, overlaps}
use actionwitness.Paths.Overlap.{is_ancestor_of_iff}
use actionwitness.Evidence.{
  RunEvent, OutcomeEventType, EventActor, is_terminal_invocation, is_acting,
}
use actionwitness.Evidence.Last.{IsLast-passing, none_passing}
use actionwitness.Policies.Changes.{effects_of, is_covered}
use actionwitness.Classification.{EffectMap, declared_effects, is_relevant, last_relevant_action}

-- the event ends an invocation
abbrev pub IsEnd : OutcomeEventType → Type 0
IsEnd t =
    (t ≡ OutcomeEventType.tool_invocation_completed)
    ⊎ (t ≡ OutcomeEventType.tool_invocation_failed)
    ⊎ (t ≡ OutcomeEventType.tool_invocation_cancelled)

-- an agent did it, or its replay
abbrev pub IsByAgent : EventActor → Type 0
IsByAgent a = (a ≡ EventActor.agent) ⊎ (a ≡ EventActor.eval)

-- one path leads to the other
abbrev pub AreRelated : ObservationPath → ObservationPath → Type 0
AreRelated p q =
    ((r : List String) × (q.segments ≡ p.segments ++ r))
    ⊎ ((r : List String) × (p.segments ≡ q.segments ++ r))

-- the tool that the event names declares an effect on the path
abbrev pub Affects : EffectMap → ObservationPath → RunEvent → Type 0
Affects effect_map path event =
    (tool : String) × (event.tool_name ≡ some tool)
    × ((declared : ObservationPath) × Memᴰ declared (effects_of tool effect_map)
        × AreRelated declared path)

abbrev pub IsRelevant : EffectMap → ObservationPath → RunEvent → Type 0
IsRelevant effect_map path event =
    IsEnd event.event_type × IsByAgent event.actor × Affects effect_map path event

-- of the relevant events of the run, one that no other comes after
abbrev pub IsLastRelevant : EffectMap → ObservationPath → List RunEvent → RunEvent → Type 0
IsLastRelevant effect_map path events action =
    Memᴰ action events
    × IsRelevant effect_map path action
    × ((event : RunEvent)
        → Memᴰ event events
        → IsRelevant effect_map path event
        → event.sequence_number ≤ action.sequence_number)

-- no two events of the run share a sequence number
abbrev pub HasDistinctSequence : List RunEvent → Type 0
HasDistinctSequence events =
    (e f : RunEvent) → Memᴰ e events → Memᴰ f events → e.sequence_number ≡ f.sequence_number → e ≡ f

-- the sequence number is on no event of the list
abbrev is_new : RunEvent → RunEvent → Bool
is_new e f = not (f.sequence_number == e.sequence_number)

-- the test of distinct sequence numbers
abbrev pub are_apart : List RunEvent → Bool
are_apart [] = true
are_apart (e ∷ es) = all (is_new e) es && are_apart es

not_new : (e f : RunEvent) → is_new e f ≡ true → e.sequence_number ≢ f.sequence_number
not_new e f h = ground arith

pub are_apart-HasDistinctSequence :
    (events : List RunEvent) → are_apart events ≡ true → HasDistinctSequence events
are_apart-HasDistinctSequence [] h e f m n same = elim m [ ]
are_apart-HasDistinctSequence (x ∷ xs) h e f m n same =
    let low : all (is_new x) xs ≡ true = ground arith in
    elim (mem-cons m) [
      | inl a ↦ elim (mem-cons n) [
        | inl b ↦ a ∙ sym b
        | inr k ↦
            absurd (
              not_new x f (all_sound (is_new x) k low) (ap (λ y. y.sequence_number) (sym a) ∙ same))
      ]
      | inr l ↦ elim (mem-cons n) [
        | inl b ↦ absurd (
            not_new x e (all_sound (is_new x) l low)
              (ap (λ y. y.sequence_number) (sym b) ∙ sym same))
        | inr k ↦ are_apart-HasDistinctSequence xs (ground arith) e f l k same
      ]
    ]

is_terminal_invocation_iff : (t : OutcomeEventType) → (is_terminal_invocation t ≡ true) ↔ IsEnd t
unfolding is_terminal_invocation
is_terminal_invocation_iff t = ground arith

is_acting_iff : (a : EventActor) → (is_acting a ≡ true) ↔ IsByAgent a
unfolding is_acting
is_acting_iff a = ground arith

overlaps_iff : (p q : ObservationPath) → (overlaps p q ≡ true) ↔ AreRelated p q
overlaps_iff p q = ground (arith, is_ancestor_of_iff p q, is_ancestor_of_iff q p)

declares_iff :
    (effect_map : EffectMap) (path : ObservationPath) (name : Option String)
    → (is_covered (elim name [ none ↦ [] | some tool ↦ effects_of tool effect_map ]) path ≡ true)
      ↔ ((tool : String) × (name ≡ some tool)
          × ((declared : ObservationPath) × Memᴰ declared (effects_of tool effect_map)
              × AreRelated declared path))
unfolding any
declares_iff effect_map path none = (λ h. absurd (cc h), λ (tool, e, rest). absurd (cc e))
declares_iff effect_map path (some tool) = (
  λ h.
      let (declared, m, q) = any_sound (λ d. overlaps d path) (effects_of tool effect_map) h in
      (tool, refl, (declared, m, (overlaps_iff declared path).0 q)),
  λ (named, e, (declared, m, related)).
      let same : named ≡ tool = sym (some_inj.0 e) in
      any_complete (λ d. overlaps d path)
        (subst (λ t. Memᴰ declared (effects_of t effect_map)) same m)
        ((overlaps_iff declared path).1 related),
)

declared_effects_iff :
    (effect_map : EffectMap) (path : ObservationPath) (event : RunEvent)
    → (is_covered (declared_effects effect_map event) path ≡ true) ↔ Affects effect_map path event
declared_effects_iff effect_map path event = declares_iff effect_map path event.tool_name

is_relevant_iff :
    (effect_map : EffectMap) (path : ObservationPath) (event : RunEvent)
    → (is_relevant effect_map path event ≡ true) ↔ IsRelevant effect_map path event
is_relevant_iff effect_map path event = ground (
  arith,
  is_terminal_invocation_iff event.event_type,
  is_acting_iff event.actor,
  declared_effects_iff effect_map path event,
)

-- Where no two events share a sequence number, the action that the code finds is the last relevant one.
pub last_relevant_action_iff :
    (path : ObservationPath) (events : List RunEvent) (effect_map : EffectMap) (action : RunEvent)
    → HasDistinctSequence events
    → (last_relevant_action path events effect_map ≡ some action)
      ↔ IsLastRelevant effect_map path events action
unfolding last_relevant_action
last_relevant_action_iff path events effect_map action distinct =
    let test = is_relevant effect_map path in
    (
      λ h.
          let (m, r, latest) = IsLast-passing test events action h in
          (
            m,
            (is_relevant_iff effect_map path action).0 r,
            λ e n q. latest e n ((is_relevant_iff effect_map path e).1 q),
          ),
      λ (m, r, latest).
          let passes = (is_relevant_iff effect_map path action).1 r in
          elim (Option-cases (last_relevant_action path events effect_map)) [
            | inl e ↦ absurd (none_passing test events e (action, m, passes))
            | inr (found, e) ↦
                let (n, q, after) = IsLast-passing test events found e in
                let up = latest found n ((is_relevant_iff effect_map path found).0 q) in
                let down = after action m passes in
                e ∙ ap some (distinct found action n m (omega arith))
          ],
    )
