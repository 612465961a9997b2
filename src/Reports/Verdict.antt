-- ===== src/Reports/Verdict.antt =====
-- When a report is composed, and what verdict it carries.
use actionwitness.Prelude.{
  ◌≡◌, ◌≢◌, refl, ◌⊎◌, inl, inr, String, Bool, true, ◌||◌, List, [], ◌∷◌, Option, none, some, arith,
  Bool-cases, ltb, length, filter, any, any_sound, Some, none_of,
}
use actionwitness.Json.{Json}
use actionwitness.Kernel.{ok}
use actionwitness.States.{RunState}
use actionwitness.Vocabulary.{LayerResult, RunMode}
use actionwitness.Findings.{Finding, aggregate}
use actionwitness.Reports.{
  OutcomeReport, ReportSubject, ReportEvidence, judged, is_critical_failure, is_warning_failure,
  recorded_warnings, count_recorded, counts_of, verdict_of, compose_outcome_report,
  is_execution_result, check_layers, layers_of, trajectory_layer, business_layer,
  is_selection_result, is_business_result, is_safety_result, is_verdict_state, CountsBlock,
  report_of,
}

module _ (text_of : Json → String) where
  -- what a verdict says of the findings
  abbrev pub IsVerdict : List Finding → RunState → Type 0
  IsVerdict findings RunState.failed = Some is_critical_failure findings
  IsVerdict findings RunState.passed_with_warnings =
      ¬ Some is_critical_failure findings
      × (Some is_warning_failure findings
          ⊎ Some (λ f. ltb 0 (length (recorded_warnings text_of f))) findings)
  IsVerdict findings RunState.passed =
      ¬ Some is_critical_failure findings
      × ¬ Some is_warning_failure findings
      × ¬ Some (λ f. ltb 0 (length (recorded_warnings text_of f))) findings
  IsVerdict findings _ = ⊥

count-filter {ℓ} :
    {A : Type ℓ} (p : A → Bool) (xs : List A) → ltb 0 (length (filter p xs)) ≡ any p xs
unfolding filter any
count-filter p [] = refl
count-filter p (x ∷ xs) = ground (arith, count-filter p xs)

count_recorded-any :
    (text_of : Json → String) (findings : List Finding)
    → ltb 0 (count_recorded text_of findings)
      ≡ any (λ f. ltb 0 (length (recorded_warnings text_of f))) findings
unfolding any
count_recorded-any text_of [] = refl
count_recorded-any text_of (f ∷ fs) = ground (arith, count_recorded-any text_of fs)

module _ (text_of : Json → String) (evidence : ReportEvidence) where
  critical_failures-any :
      ltb 0 (counts_of text_of evidence).critical_failures
      ≡ any is_critical_failure (judged evidence)
  unfolding counts_of
  critical_failures-any = count-filter is_critical_failure (judged evidence)

  warnings-any : ltb 0 (counts_of text_of evidence).warnings ≡ (
      any is_warning_failure (judged evidence)
      || any (λ f. ltb 0 (length (recorded_warnings text_of f))) (judged evidence))
  unfolding counts_of
  warnings-any = ground (
    arith,
    count-filter is_warning_failure (judged evidence),
    count_recorded-any text_of (judged evidence),
  )

  counts_of-IsVerdict :
      IsVerdict text_of (judged evidence) (verdict_of (counts_of text_of evidence))
  counts_of-IsVerdict = elim (Bool-cases (any is_critical_failure (judged evidence))) [
    | inl c ↦ rw (critical_failures-any, c) (any_sound is_critical_failure (judged evidence) c)
    | inr c ↦
        let clear = none_of is_critical_failure (judged evidence) c in
        elim (Bool-cases (any is_warning_failure (judged evidence))) [
          | inl w ↦
              rw (critical_failures-any, c, warnings-any, w)
                (clear, inl (any_sound is_warning_failure (judged evidence) w))
          | inr w ↦
              elim (Bool-cases
                (any (λ f. ltb 0 (length (recorded_warnings text_of f))) (judged evidence))) [
                  | inl r ↦
                      rw (critical_failures-any, c, warnings-any, w, r)
                        (clear, inr (any_sound _ (judged evidence) r))
                  | inr r ↦
                      rw (critical_failures-any, c, warnings-any, w, r)
                        (
                          clear,
                          none_of is_warning_failure (judged evidence) w,
                          none_of _ (judged evidence) r,
                        )
                ]
        ]
  ]

-- the layers that the composition does not choose itself are permitted
abbrev pub IsComposable : ReportEvidence → Type 0
IsComposable evidence =
    (is_execution_result evidence.tool_execution ≡ true)
    × (aggregate evidence.policy_findings ≢ LayerResult.passed_with_warnings)

aggregate-kinds :
    (findings : List Finding)
    → (aggregate findings ≡ LayerResult.failed)
      ⊎ ((aggregate findings ≡ LayerResult.passed_with_warnings)
          ⊎ (aggregate findings ≡ LayerResult.passed))
unfolding aggregate
aggregate-kinds findings = ground arith

trajectory_layer-permitted : (o : Option Finding) → is_selection_result (trajectory_layer o) ≡ true
trajectory_layer-permitted none = refl
trajectory_layer-permitted (some finding) = ground arith

business_layer-permitted :
    (mode : RunMode) (findings : List Finding)
    → is_business_result (business_layer mode findings) ≡ true
business_layer-permitted RunMode.proposal findings = refl
business_layer-permitted RunMode.verification findings = elim (aggregate-kinds findings) [
  | inl e ↦ rw e refl
  | inr (inl e) ↦ rw e refl
  | inr (inr e) ↦ rw e refl
]

safety-permitted :
    (findings : List Finding)
    → aggregate findings ≢ LayerResult.passed_with_warnings
    → is_safety_result (aggregate findings) ≡ true
safety-permitted findings h = elim (aggregate-kinds findings) [
  | inl e ↦ rw e refl
  | inr (inl e) ↦ absurd (h e)
  | inr (inr e) ↦ rw e refl
]

check_layers-ok :
    (mode : RunMode) (evidence : ReportEvidence)
    → IsComposable evidence
    → check_layers (layers_of mode evidence) ≡ ok (layers_of mode evidence)
check_layers-ok mode evidence (execution, safety) =
    rw
      (
        trajectory_layer-permitted evidence.trajectory_finding,
        execution,
        business_layer-permitted mode evidence.assertion_findings,
        safety-permitted evidence.policy_findings safety,
      )
      refl

verdict_of-permitted : (counts : CountsBlock) → is_verdict_state (verdict_of counts) ≡ true
verdict_of-permitted counts = ground arith

module _ (text_of : Json → String) (subject : ReportSubject) (evidence : ReportEvidence) where
  -- A verification report is composed, whenever the layers that were given are permitted ones; it fails exactly if a critical check failed, passes with warnings exactly if none did and a warning failed or was recorded, and passes otherwise; and its business and safety layers are those of the assertions and of the policies.
  pub compose_outcome_report-IsVerdict :
      IsComposable evidence
      → (report : OutcomeReport) × (compose_outcome_report text_of subject evidence
            RunMode.verification
          ≡ ok report)
        × IsVerdict text_of (judged evidence) report.status
        × (report.layers.business_outcome ≡ aggregate evidence.assertion_findings)
        × (report.layers.safety_policy ≡ aggregate evidence.policy_findings)
  unfolding compose_outcome_report
  compose_outcome_report-IsVerdict h = (
    report_of text_of subject evidence RunMode.verification
        (layers_of RunMode.verification evidence),
    rw
        (
          check_layers-ok RunMode.verification evidence h,
          verdict_of-permitted (counts_of text_of evidence),
        )
        refl,
    counts_of-IsVerdict text_of evidence,
    refl,
    refl,
  )
