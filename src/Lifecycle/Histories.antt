-- ===== src/Lifecycle/Histories.antt =====
-- What holds of every sequence of transitions that journeys/transitions.py accepts.
use actionwitness.Prelude.{
  ℕ, suc, ◌+◌, ◌*◌, ◌≤◌, ◌≡◌, refl, ◌⊎◌, inl, inr, Bool, true, false, List, [], ◌∷◌, length, Memᴰ,
  arith, ◌≢◌, sym, ap, ◌∙◌, Bool-cases,
}
use actionwitness.Kernel.{Result, ok, raise, ◌>>◌, Result-cases, invalid_state_transition}
use actionwitness.States.{
  RunState, armed, proposing, capturing, proposed, running, awaiting_confirmation, verifying,
  passed, passed_with_warnings, failed, error, cancelled, run_state_eq, run_state_value,
}
use actionwitness.Lifecycle.{contains, validate_run_transition, is_terminal, verdict_run_states}

-- a run that moves through the states listed, each move validated
unfoldable pub follow : RunState → List RunState → Result RunState
follow s [] = ok s
follow s (t ∷ ts) = validate_run_transition s t >> follow t ts

-- how many confirmation requests a history holds
abbrev pub confirmations : List RunState → ℕ
confirmations [] = 0
confirmations (awaiting_confirmation ∷ ts) = suc (confirmations ts)
confirmations (_ ∷ ts) = confirmations ts

-- the most moves that are left without a further confirmation request
abbrev remaining : RunState → ℕ
remaining armed = 3
remaining proposing = 2
remaining capturing = 1
remaining running = 2
remaining awaiting_confirmation = 3
remaining verifying = 1
remaining _ = 0

step_bound :
    (s t : RunState) (ts : List RunState)
    → validate_run_transition s t ≡ ok tt
    → remaining t + 2 * confirmations ts + 1 ≤ remaining s + 2 * confirmations (t ∷ ts)
unfolding validate_run_transition
step_bound s t ts h = ground arith

follow-step :
    (s t : RunState) (ts : List RunState) {u : RunState}
    → follow s (t ∷ ts) ≡ ok u
    → (validate_run_transition s t ≡ ok tt) × (follow t ts ≡ ok u)
unfolding follow
follow-step s t ts h = elim (Result-cases (validate_run_transition s t)) [
  | inl e ↦ (e, rw e at h)
  | inr e ↦ cc
]

-- Every accepted history of a run from `s` makes at most `remaining s` moves, and two more for each
-- confirmation request in it.
pub follow_bound :
    (s : RunState) (ts : List RunState) {u : RunState}
    → follow s ts ≡ ok u
    → length ts ≤ remaining s + 2 * confirmations ts
unfolding follow
follow_bound s [] h = omega arith
follow_bound s (t ∷ ts) h =
    let (v, r) = follow-step s t ts h in omega (arith, step_bound s t ts v, follow_bound t ts r)

-- the states that a proposal run may take
abbrev pub in_proposal : RunState → Bool
in_proposal proposing = true
in_proposal capturing = true
in_proposal proposed = true
in_proposal error = true
in_proposal cancelled = true
in_proposal _ = false

in_proposal_step :
    (s t : RunState)
    → in_proposal s ≡ true
    → validate_run_transition s t ≡ ok tt
    → in_proposal t ≡ true
unfolding validate_run_transition
in_proposal_step s t p h = ground arith

follow-in_proposal :
    (s : RunState) (ts : List RunState) {u : RunState}
    → in_proposal s ≡ true
    → follow s ts ≡ ok u
    → in_proposal u ≡ true
unfolding follow
follow-in_proposal s [] p h = cc
follow-in_proposal s (t ∷ ts) p h =
    let (v, r) = follow-step s t ts h in follow-in_proposal t ts (in_proposal_step s t p v) r

-- A run that starts as a proposal never comes to be armed, running, verifying, or in a verdict state.
pub proposal_no_verdict :
    (ts : List RunState) {u : RunState}
    → follow proposing ts ≡ ok u
    → (contains verdict_run_states u ≡ false) × (u ≢ running) × (u ≢ verifying) × (u ≢ armed)
proposal_no_verdict ts {u} h = ground (arith, follow-in_proposal proposing ts refl h)

verdict_step :
    (s t : RunState)
    → contains verdict_run_states t ≡ true
    → validate_run_transition s t ≡ ok tt
    → s ≡ verifying
unfolding validate_run_transition
verdict_step s t v h = ground arith

-- A run that reaches a verdict from a state that is none was in `verifying` on the way.
pub verdict_needs_verifying :
    (s : RunState) (ts : List RunState) {u : RunState}
    → contains verdict_run_states s ≡ false
    → follow s ts ≡ ok u
    → contains verdict_run_states u ≡ true
    → Memᴰ verifying (s ∷ ts)
unfolding follow
verdict_needs_verifying s [] n h v = cc
verdict_needs_verifying s (t ∷ ts) n h v =
    let (step, r) = follow-step s t ts h in
    elim (Bool-cases (contains verdict_run_states t)) [
      | inl e ↦ Memᴰ.head (sym (verdict_step s t e step))
      | inr e ↦ Memᴰ.tail (verdict_needs_verifying t ts e r v)
    ]

-- the states with no way out
abbrev has_ended : RunState → Bool
has_ended proposed = true
has_ended passed = true
has_ended passed_with_warnings = true
has_ended failed = true
has_ended error = true
has_ended cancelled = true
has_ended _ = false

is_terminal-has_ended : (s : RunState) → is_terminal (run_state_value s) ≡ ok (has_ended s)
unfolding is_terminal
is_terminal-has_ended armed = refl
is_terminal-has_ended _ = refl

refuses_all :
    (s t : RunState)
    → has_ended s ≡ true
    → validate_run_transition s t ≡ raise invalid_state_transition
unfolding validate_run_transition
refuses_all s t h = ground arith

way_out :
    (s : RunState) → has_ended s ≡ false → (t : RunState) × (validate_run_transition s t ≡ ok tt)
unfolding validate_run_transition
way_out armed h = (running, refl)
way_out proposing h = (capturing, refl)
way_out capturing h = (proposed, refl)
way_out running h = (verifying, refl)
way_out awaiting_confirmation h = (running, refl)
way_out verifying h = (failed, refl)
way_out _ h = cc

-- `is_terminal` answers for every state of a run: yes where every move is refused, and no where
-- some move is accepted.
pub is_terminal_cases :
    (s : RunState)
    → ((is_terminal (run_state_value s) ≡ ok true)
        × ((t : RunState) → validate_run_transition s t ≡ raise invalid_state_transition))
      ⊎ ((is_terminal (run_state_value s) ≡ ok false)
          × ((t : RunState) × (validate_run_transition s t ≡ ok tt)))
is_terminal_cases s = elim (Bool-cases (has_ended s)) [
  | inl e ↦ inl (is_terminal-has_ended s ∙ ap ok e, λ t. refuses_all s t e)
  | inr e ↦ inr (is_terminal-has_ended s ∙ ap ok e, way_out s e)
]

-- From every state a run reaches a state that ends it by at most one accepted move: by none if it has ended, and by one move to the error state if it has not.
pub follow_terminal :
    (s : RunState)
    → (ts : List RunState) × (u : RunState) × (follow s ts ≡ ok u)
      × (is_terminal (run_state_value u) ≡ ok true)
      × (length ts ≤ 1)
      × (is_terminal (run_state_value s) ≡ ok true → ts ≡ [])
      × (is_terminal (run_state_value s) ≡ ok false → u ≡ error)
unfolding follow validate_run_transition is_terminal
follow_terminal armed = (error ∷ [], error, refl, refl, omega arith, λ e. cc, λ e. refl)
follow_terminal proposing = (error ∷ [], error, refl, refl, omega arith, λ e. cc, λ e. refl)
follow_terminal capturing = (error ∷ [], error, refl, refl, omega arith, λ e. cc, λ e. refl)
follow_terminal running = (error ∷ [], error, refl, refl, omega arith, λ e. cc, λ e. refl)
follow_terminal awaiting_confirmation =
    (error ∷ [], error, refl, refl, omega arith, λ e. cc, λ e. refl)
follow_terminal verifying = (error ∷ [], error, refl, refl, omega arith, λ e. cc, λ e. refl)
follow_terminal proposed = ([], proposed, refl, refl, omega arith, λ e. refl, λ e. cc)
follow_terminal passed = ([], passed, refl, refl, omega arith, λ e. refl, λ e. cc)
follow_terminal passed_with_warnings =
    ([], passed_with_warnings, refl, refl, omega arith, λ e. refl, λ e. cc)
follow_terminal failed = ([], failed, refl, refl, omega arith, λ e. refl, λ e. cc)
follow_terminal error = ([], error, refl, refl, omega arith, λ e. refl, λ e. cc)
follow_terminal cancelled = ([], cancelled, refl, refl, omega arith, λ e. refl, λ e. cc)
