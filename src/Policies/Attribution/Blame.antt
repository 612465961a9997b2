-- ===== src/Policies/Attribution/Blame.antt =====
-- Which event an undeclared change is attributed to.
use actionwitness.Prelude.{◌≡◌, refl, Bool, ◌&&◌, List, Option, none, some, filter, get_last?, Some}
use actionwitness.Evidence.{RunEvent, is_terminal_invocation, changed_state, is_true, ordered}
use actionwitness.Evidence.Last.{IsLast, IsLast-passing, none_passing}
use actionwitness.Policies.Attribution.{
  Cause, tool_action, human_confirmation, no_cause, choose_cause, blame, is_human_decision,
}

-- a call that ended, whose state hashes moved
abbrev pub moved_state : RunEvent → Bool
moved_state e = is_terminal_invocation e.event_type && is_true (changed_state e)

-- what each attribution says of the run
abbrev pub IsBlamed : List RunEvent → Cause → Type 0
IsBlamed events (tool_action e) = IsLast moved_state events e
IsBlamed events (human_confirmation e) =
    ¬ Some moved_state events × IsLast (λ f. is_human_decision f.event_type) events e
IsBlamed events no_cause =
    ¬ Some moved_state events × ¬ Some (λ f. is_human_decision f.event_type) events

choose_cause-IsBlamed :
    (events : List RunEvent) (action decision : Option RunEvent)
    → get_last? (filter moved_state (ordered events)) ≡ action
    → get_last? (filter (λ e. is_human_decision e.event_type) (ordered events)) ≡ decision
    → IsBlamed events (choose_cause action decision)
choose_cause-IsBlamed events (some e) decision h k = IsLast-passing moved_state events e h
choose_cause-IsBlamed events none (some d) h k = (
  none_passing moved_state events h,
  IsLast-passing (λ e. is_human_decision e.event_type) events d k,
)
choose_cause-IsBlamed events none none h k =
    (none_passing moved_state events h, none_passing (λ e. is_human_decision e.event_type) events k)

-- An undeclared change is attributed to the last ended call whose state hashes moved; to the last approval or denial if no call moved the state; and to nothing only if there is neither.
pub blame-IsBlamed : (events : List RunEvent) → IsBlamed events (blame events)
unfolding blame
blame-IsBlamed events = choose_cause-IsBlamed events _ _ refl refl
