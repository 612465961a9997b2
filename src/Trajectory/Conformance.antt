-- ===== src/Trajectory/Conformance.antt =====
-- When the recorded calls conform to the expected ones.
use mathlib.Core.List.{Sublistᴰ}
use native.Mathlib.Decide.{dec_lt}
use actionwitness.Prelude.{
  ℕ, zero, suc, ◌≡◌, ◌≤◌, ◌<◌, refl, sym, ◌∙◌, ◌⊎◌, inl, inr, ◌↔◌, String, string_eq, ◌==◌, true,
  false, not, ◌&&◌, ◌||◌, List, [], ◌∷◌, ◌++◌, ◌-◌, Memᴰ, mem-cons, none, some, arith, eq_iff,
  Bool-cases, if◌then◌else◌, any, any_sound, subst,
}
use actionwitness.Prelude.Text.{distinct}
use actionwitness.Vocabulary.{CheckStatus, FailureClassification}
use actionwitness.Evidence.{RunEvent}
use actionwitness.Trajectory.{
  ExpectedTools, observed_calls, is_subsequence, count, replicate, short_calls, shortfall,
  is_none_left, evaluate_calls, evaluate_expected_tools,
}

is_subsequence-sound :
    (required observed : List String)
    → is_subsequence required observed ≡ true
    → Sublistᴰ required observed
unfolding is_subsequence
is_subsequence-sound [] [] h = Sublistᴰ.slnil
is_subsequence-sound [] (o ∷ os) h = Sublistᴰ.cons (is_subsequence-sound [] os refl)
is_subsequence-sound (w ∷ ws) [] h = cc
is_subsequence-sound (w ∷ ws) (o ∷ os) h = elim (Bool-cases (o == w)) [
  | inl e ↦
      Sublistᴰ.cons-cons (sym ((eq_iff o w).0 e))
        (is_subsequence-sound ws os (rw (e, is_subsequence) at h))
  | inr e ↦ Sublistᴰ.cons (is_subsequence-sound (w ∷ ws) os (rw (e, is_subsequence) at h))
]

Sublistᴰ-tail : {w : String} {ws os : List String} → Sublistᴰ (w ∷ ws) os → Sublistᴰ ws os
Sublistᴰ-tail (Sublistᴰ.cons s) = Sublistᴰ.cons (Sublistᴰ-tail s)
Sublistᴰ-tail (Sublistᴰ.cons-cons e s) = Sublistᴰ.cons s

Sublistᴰ-cases :
    {w o : String} {ws os : List String}
    → Sublistᴰ (w ∷ ws) (o ∷ os)
    → (w ≡ o) × Sublistᴰ ws os ⊎ Sublistᴰ (w ∷ ws) os
Sublistᴰ-cases (Sublistᴰ.cons s) = inr s
Sublistᴰ-cases (Sublistᴰ.cons-cons e s) = inl (e, s)

is_subsequence_complete :
    (required observed : List String)
    → Sublistᴰ required observed
    → is_subsequence required observed ≡ true
unfolding is_subsequence
is_subsequence_complete [] os s = refl
is_subsequence_complete (w ∷ ws) [] s = elim s [ ]
is_subsequence_complete (w ∷ ws) (o ∷ os) s = elim (Bool-cases (o == w)) [
  | inl e ↦
      rw (e, is_subsequence)
        (is_subsequence_complete ws os
          (elim (Sublistᴰ-cases s) [ inl t ↦ t.1 | inr t ↦ Sublistᴰ-tail t ]))
  | inr e ↦
      rw (e, is_subsequence)
        (is_subsequence_complete (w ∷ ws) os
          (elim (Sublistᴰ-cases s) [ inl t ↦ absurd (clash e (sym t.0)) | inr t ↦ t ]))
]
  where
    clash : (o == w) ≡ false → o ≡ w → ⊥
    clash e same = cc (e, (eq_iff o w).1 same)

-- Greedy matching finds the required calls in order exactly if they are a sublist of the observed
-- ones.
pub is_subsequence_iff :
    (required observed : List String)
    → (is_subsequence required observed ≡ true) ↔ Sublistᴰ required observed
is_subsequence_iff required observed =
    (is_subsequence-sound required observed, is_subsequence_complete required observed)

-- each required call occurs at least as often as it is required
abbrev pub Enough : List String → List String → Type 0
Enough required observed = (call : String) → count call required ≤ count call observed

replicate-empty :
    (n : ℕ) (c : String) (cs : List String)
    → is_none_left (replicate n c ++ cs) ≡ true
    → (n ≡ 0) × (is_none_left cs ≡ true)
replicate-empty zero c cs h = (refl, h)
replicate-empty (suc n) c cs h = cc

short_calls_sound :
    (required observed keys : List String) {c : String}
    → is_none_left (short_calls required observed keys) ≡ true
    → Memᴰ c keys
    → count c required ≤ count c observed
unfolding short_calls
short_calls_sound required observed [] h m = elim m [ ]
short_calls_sound required observed (k ∷ keys) {c} h m =
    let (few, rest) = replicate-empty (count k required - count k observed) k _ h in
    elim (mem-cons m) [
      | inl e ↦ rw e (omega arith)
      | inr n ↦ short_calls_sound required observed keys rest n
    ]

short_calls_complete :
    (required observed keys : List String)
    → Enough required observed
    → is_none_left (short_calls required observed keys) ≡ true
unfolding short_calls
short_calls_complete required observed [] h = refl
short_calls_complete required observed (k ∷ keys) h =
    let e : count k required - count k observed ≡ 0 = omega (arith, h k) in
    rw e (short_calls_complete required observed keys h)

pub mem-distinct : (c : String) (calls : List String) → 0 < count c calls → Memᴰ c (distinct calls)
unfolding count
mem-distinct c [] h = absurd (omega arith)
mem-distinct c (d ∷ calls) h = elim (Bool-cases (any (λ x. x == d) (distinct calls))) [
  | inl old ↦ rw old (elim (Bool-cases (d == c)) [
    | inl e ↦
        let (x, m, q) = any_sound (λ x. x == d) (distinct calls) old in
        subst (λ y. Memᴰ y (distinct calls)) ((eq_iff x d).0 q ∙ (eq_iff d c).0 e) m
    | inr e ↦ mem-distinct c calls (rw e at h)
  ])
  | inr new ↦ rw new (elim (Bool-cases (d == c)) [
    | inl e ↦ Memᴰ.head (sym ((eq_iff d c).0 e))
    | inr e ↦ Memᴰ.tail (mem-distinct c calls (rw e at h))
  ])
]

-- The shortfall is empty exactly if every required call occurs often enough.
shortfall_iff :
    (required observed : List String)
    → (is_none_left (shortfall required observed) ≡ true) ↔ Enough required observed
unfolding shortfall
shortfall_iff required observed = (
  λ h c. elim (dec_lt 0 (count c required)) [
    | yes some_required ↦
        short_calls_sound required observed (distinct required) h
          (mem-distinct c required some_required)
    | no none_required ↦ omega arith
  ],
  short_calls_complete required observed (distinct required),
)

status_of-calls :
    (expected : ExpectedTools) (events : List RunEvent)
    → (evaluate_calls expected events).status ≡ (
        if is_none_left (shortfall expected.calls (observed_calls events))
          && (not expected.is_ordered || is_subsequence expected.calls (observed_calls events))
        then CheckStatus.passed
        else CheckStatus.failed)
unfolding evaluate_calls
status_of-calls expected events = ground arith

classification_of-calls :
    (expected : ExpectedTools) (events : List RunEvent)
    → (evaluate_calls expected events).classification ≡ (
        if not (is_none_left (shortfall expected.calls (observed_calls events)))
        then some FailureClassification.missing_expected_tool
        else if expected.is_ordered && not (is_subsequence expected.calls (observed_calls events))
        then some FailureClassification.trajectory_order_violation
        else none)
unfolding evaluate_calls
classification_of-calls expected events = ground arith

-- The trajectory check passes exactly if every required call occurs as often as it is required and,
-- where order matters, the required calls are a sublist of the observed ones.
pub evaluate_expected_tools_passes :
    (expected : ExpectedTools) (events : List RunEvent)
    → ((evaluate_expected_tools (some expected) events).status ≡ CheckStatus.passed) ↔ (
        Enough expected.calls (observed_calls events)
        × (expected.is_ordered ≡ true → Sublistᴰ expected.calls (observed_calls events)))
unfolding evaluate_expected_tools
evaluate_expected_tools_passes expected events =
    let observed = observed_calls events in
    let enough = shortfall_iff expected.calls observed in
    let in_order = is_subsequence_iff expected.calls observed in
    let status = status_of-calls expected events in
    (
      λ h. (enough.0 (ground arith), λ o. in_order.0 (ground arith)),
      λ t. elim (Bool-cases expected.is_ordered) [
        | inl o ↦ let e = enough.1 t.0 in let s = in_order.1 (t.1 o) in ground arith
        | inr o ↦ let e = enough.1 t.0 in ground arith
      ],
    )

-- The check is classified as a missing tool exactly if some call occurs less often than required, and
-- as out of order exactly if none does, order matters, and the required calls are no sublist of the
-- observed ones.
pub missing_before_order :
    (expected : ExpectedTools) (events : List RunEvent)
    → let finding = evaluate_expected_tools (some expected) events in
      let observed = observed_calls events in
      ((finding.classification ≡ some FailureClassification.missing_expected_tool)
        ↔ ¬ Enough expected.calls observed)
      × ((finding.classification ≡ some FailureClassification.trajectory_order_violation) ↔ (
          Enough expected.calls observed
          × (expected.is_ordered ≡ true)
          × ¬ Sublistᴰ expected.calls observed))
unfolding evaluate_expected_tools
missing_before_order expected events =
    let observed = observed_calls events in
    let enough = shortfall_iff expected.calls observed in
    let in_order = is_subsequence_iff expected.calls observed in
    let report = classification_of-calls expected events in
    (
      (
        λ h e. let all_there = enough.1 e in ground arith,
        λ few. elim (Bool-cases (is_none_left (shortfall expected.calls observed))) [
          | inl e ↦ absurd (few (enough.0 e))
          | inr e ↦ ground arith
        ],
      ),
      (
        λ h.
            (enough.0 (ground arith), ground arith, λ s. let greedy = in_order.1 s in ground arith),
        λ t.
            let e = enough.1 t.0 in
            elim (Bool-cases (is_subsequence expected.calls observed)) [
              | inl g ↦ absurd (t.2 (in_order.0 g))
              | inr g ↦ ground (arith, t.1)
            ],
      ),
    )
