-- ===== src/Findings/Layers.antt =====
-- What `aggregate` and `critical_classifications` say of the findings.
use actionwitness.Prelude.{
  ◌≡◌, refl, sym, ap, ◌∙◌, subst, mem-cons, ◌==◌, ◌⊎◌, inl, inr, ◌↔◌, Bool, true, false, List, [],
  ◌∷◌, Memᴰ, some, arith, filter, any, mem-filter, mem_of_mem-filter, any_sound, any_complete,
  Bool-cases, Option-cases,
}
use actionwitness.Prelude.Sort.{mem-sort_by, mem_of_mem-sort_by}
use actionwitness.Vocabulary.{
  AssertionSeverity, FailureClassification, classification_eq, LayerResult,
}
use actionwitness.Findings.{
  Finding, has_failed, is_critical, is_warning, critical_classification, add_classification,
  critical_set, classification_leb, critical_classifications, aggregate,
}

-- a finding of the list that has failed and meets the test
abbrev pub SomeFailed : (AssertionSeverity → Bool) → List Finding → Type 0
SomeFailed test findings =
    (f : Finding) × Memᴰ f findings × (has_failed f ≡ true) × (test f.severity ≡ true)

module _ (test : AssertionSeverity → Bool) (findings : List Finding) where
  any_failed_sound :
      any (λ f. test f.severity) (filter has_failed findings) ≡ true → SomeFailed test findings
  any_failed_sound h =
      let (f, m, t) = any_sound (λ f. test f.severity) (filter has_failed findings) h in
      let (n, e) = mem_of_mem-filter has_failed findings m in (f, n, e, t)

  any_failed_complete :
      SomeFailed test findings → any (λ f. test f.severity) (filter has_failed findings) ≡ true
  any_failed_complete (f, m, e, t) =
      any_complete (λ f. test f.severity) (mem-filter has_failed m e) t

  none_failed :
      any (λ f. test f.severity) (filter has_failed findings) ≡ false → ¬ SomeFailed test findings
  none_failed e found = cc (e, any_failed_complete found)

-- A layer fails exactly if a critical finding failed, and passes with warnings exactly if none did
-- and a warning failed; otherwise it passes.
pub aggregate_cases :
    (findings : List Finding)
    → ((aggregate findings ≡ LayerResult.failed) ↔ SomeFailed is_critical findings)
      × ((aggregate findings ≡ LayerResult.passed_with_warnings)
          ↔ (¬ SomeFailed is_critical findings × SomeFailed is_warning findings))
      × ((aggregate findings ≡ LayerResult.passed)
          ↔ (¬ SomeFailed is_critical findings × ¬ SomeFailed is_warning findings))
unfolding aggregate
aggregate_cases findings =
    elim (Bool-cases (any (λ f. is_critical f.severity) (filter has_failed findings))) [
      | inl c ↦
          let found = any_failed_sound is_critical findings c in
          rw c (
            (λ _. found, λ _. refl),
            (λ e. absurd (cc), λ t. absurd (t.0 found)),
            (λ e. absurd (cc), λ t. absurd (t.0 found)),
          )
      | inr c ↦
          let clear = none_failed is_critical findings c in
          elim (Bool-cases (any (λ f. is_warning f.severity) (filter has_failed findings))) [
            | inl w ↦
                let warned = any_failed_sound is_warning findings w in
                rw (c, w)
                  (
                    (λ e. absurd (cc), λ t. absurd (clear t)),
                    (λ _. (clear, warned), λ _. refl),
                    (λ e. absurd (cc), λ t. absurd (t.1 warned)),
                  )
            | inr w ↦
                let quiet = none_failed is_warning findings w in
                rw (c, w)
                  (
                    (λ e. absurd (cc), λ t. absurd (clear t)),
                    (λ e. absurd (cc), λ t. absurd (quiet t.1)),
                    (λ _. (clear, quiet), λ _. refl),
                  )
          ]
    ]

critical_classification_iff :
    (f : Finding) (c : FailureClassification)
    → (critical_classification f ≡ some c)
      ↔ ((has_failed f ≡ true) × (is_critical f.severity ≡ true) × (f.classification ≡ some c))
unfolding critical_classification
critical_classification_iff f c = (λ h. ground arith, λ h. ground arith)

mem-add_classification :
    (c d : FailureClassification) (cs : List FailureClassification)
    → Memᴰ c (add_classification d cs) ↔ ((c ≡ d) ⊎ Memᴰ c cs)
unfolding add_classification
mem-add_classification c d cs = elim (Bool-cases (any (λ e. e == d) cs)) [
  | inl old ↦ rw old (
    inr,
    λ s. elim s [
      | inl e ↦
          let (x, m, q) = any_sound (λ e. e == d) cs old in
          subst (λ y. Memᴰ y cs) ((classification_eq.same_iff x d).0 q ∙ sym e) m
      | inr m ↦ m
    ],
  )
  | inr new ↦ rw new (mem-cons, λ s. elim s [ inl e ↦ Memᴰ.head e | inr m ↦ Memᴰ.tail m ])
]

-- a finding of the list puts this classification into the set
abbrev Classifies : FailureClassification → List Finding → Type 0
Classifies c findings = (f : Finding) × Memᴰ f findings × (critical_classification f ≡ some c)

critical_set_sound :
    (findings : List Finding) (c : FailureClassification)
    → Memᴰ c (critical_set findings)
    → Classifies c findings
unfolding critical_set
critical_set_sound [] c m = elim m [ ]
critical_set_sound (f ∷ fs) c m = elim (Option-cases (critical_classification f)) [
  | inl e ↦ later (critical_set_sound fs c (rw (e, critical_set) at m))
  | inr (d, e) ↦
      elim ((mem-add_classification c d (critical_set fs)).0 (rw (e, critical_set) at m)) [
        | inl same ↦ (f, Memᴰ.head refl, e ∙ ap some (sym same))
        | inr n ↦ later (critical_set_sound fs c n)
      ]
]
  where
    later : Classifies c fs → Classifies c (f ∷ fs)
    later (g, n, q) = (g, Memᴰ.tail n, q)

critical_set-complete :
    (f : Finding) (c : FailureClassification) {findings : List Finding}
    → Memᴰ f findings
    → critical_classification f ≡ some c
    → Memᴰ c (critical_set findings)
unfolding critical_set
critical_set-complete f c (Memᴰ.head {x = g} {xs = gs} e) q =
    rw (sym (ap critical_classification e) ∙ q, critical_set)
      ((mem-add_classification c c (critical_set gs)).1 (inl refl))
critical_set-complete f c (Memᴰ.tail {x = g} {xs = gs} m) q =
    elim (Option-cases (critical_classification g)) [
      | inl e ↦ rw (e, critical_set) (critical_set-complete f c m q)
      | inr (d, e) ↦
          rw (e, critical_set)
            ((mem-add_classification c d (critical_set gs)).1 (inr (critical_set-complete f c m q)))
    ]

-- `critical_classifications` holds exactly the classifications of the critical findings that failed.
pub critical_classifications_iff :
    (findings : List Finding) (c : FailureClassification)
    → Memᴰ c (critical_classifications findings) ↔ (
        (f : Finding) × Memᴰ f findings
        × (has_failed f ≡ true)
        × (is_critical f.severity ≡ true)
        × (f.classification ≡ some c))
unfolding critical_classifications
critical_classifications_iff findings c = (
  λ m.
      let (f, n, q) =
        critical_set_sound findings c
          (mem_of_mem-sort_by classification_leb (critical_set findings) m) in
      let (h, k, e) = (critical_classification_iff f c).0 q in (f, n, h, k, e),
  λ (f, n, h, k, e).
      mem-sort_by classification_leb (critical_set findings)
        (critical_set-complete f c n ((critical_classification_iff f c).1 (h, k, e))),
)
