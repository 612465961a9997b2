-- ===== src/Policies/Surface/Laws.antt =====
-- When `stable_tool_surface` fails.
use actionwitness.Prelude.{
  string_eq, beq_refl, ◌==◌, subst, ◌≡◌, ◌≢◌, refl, sym, ap, ◌∙◌, ◌⊎◌, inl, inr, ◌↔◌, String, Bool,
  true, false, not, ◌&&◌, List, [], ◌∷◌, Memᴰ, arith, Bool-cases, List-cases, if◌then◌else◌, any,
  filter, any_sound, any_complete, mem-filter, mem_of_mem-filter, Some,
}
use actionwitness.Prelude.Sort.{mem-sort_by}
use actionwitness.Prelude.Text.{text_leb, distinct, sorted_set}
use actionwitness.Trajectory.{count}
use actionwitness.Trajectory.Conformance.{mem-distinct}
use actionwitness.Vocabulary.{CheckStatus, SurfaceDeltaKind}
use actionwitness.Policies.Inputs.{Policy, SurfaceDelta, PolicyEvidence}
use actionwitness.Policies.Surface.{
  is_watched, is_failing_kind, judge_surface, evaluate_stable_tool_surface,
}

no_member {ℓ} : {A : Type ℓ} {x : A} → ¬ Memᴰ x []
no_member m = elim m [ ]

sorted_set-empty : (xs : List String) → sorted_set xs ≡ [] → xs ≡ []
unfolding sorted_set count
sorted_set-empty [] h = refl
sorted_set-empty (x ∷ xs) h =
    let here = mem-distinct x (x ∷ xs) (rw (beq_refl x) (omega arith)) in
    absurd (no_member (subst (λ ys. Memᴰ x ys) h (mem-sort_by text_leb (distinct (x ∷ xs)) here)))

sorted_set-nothing : sorted_set [] ≡ []
unfolding sorted_set actionwitness.Prelude.Sort.sort_by
sorted_set-nothing = refl

judge_surface_cases :
    (policy : Policy) (mismatched : List String) (failing warned : List SurfaceDelta)
    → let status = (judge_surface policy mismatched failing warned).status in
      (status ≡ CheckStatus.passed) × (mismatched ≡ []) × (failing ≡ [])
      ⊎ (status ≡ CheckStatus.failed) × ((mismatched ≢ []) ⊎ ((d : SurfaceDelta) × Memᴰ d failing))
judge_surface_cases policy [] [] warned = inl (refl, refl, refl)
judge_surface_cases policy [] (f ∷ fs) warned = inr (refl, inr (f, Memᴰ.head refl))
judge_surface_cases policy (m ∷ ms) failing warned = inr (refl, inl (λ h. cc h))

module _ (kinds : List SurfaceDeltaKind) (deltas : List SurfaceDelta) where
  abbrev fails : SurfaceDelta → Bool
  fails d = is_watched d && is_failing_kind kinds d

  failing_deltas : List SurfaceDelta
  failing_deltas = filter (is_failing_kind kinds) (filter is_watched deltas)

  failing_deltas_sound : (d : SurfaceDelta) → Memᴰ d failing_deltas → Some fails deltas
  unfolding failing_deltas
  failing_deltas_sound d m =
      let (n, q) = mem_of_mem-filter (is_failing_kind kinds) (filter is_watched deltas) m in
      let (k, r) = mem_of_mem-filter is_watched deltas n in (d, k, ground arith)

  failing_deltas-complete : Some fails deltas → (d : SurfaceDelta) × Memᴰ d failing_deltas
  unfolding failing_deltas
  failing_deltas-complete (d, m, q) = (
    d,
    mem-filter (is_failing_kind kinds) (mem-filter is_watched m (ground arith)) (ground arith),
  )

-- `stable_tool_surface` passes exactly if the run recorded a baseline, no tool's identity mismatched it, and no delta of a target tool is of a kind that the policy fails; without a baseline it is unavailable, and otherwise it fails.
pub stable_tool_surface_cases :
    (policy : Policy) (kinds : List SurfaceDeltaKind) (evidence : PolicyEvidence)
    → let status = (evaluate_stable_tool_surface policy kinds evidence).status in
      let failing = λ (d : SurfaceDelta). is_watched d && is_failing_kind kinds d in
      ((status ≡ CheckStatus.observation_unavailable)
        ↔ (evidence.surface_baseline_recorded ≡ false))
      × ((status ≡ CheckStatus.passed) ↔ (
          (evidence.surface_baseline_recorded ≡ true)
          × (evidence.identity_mismatches ≡ [])
          × ¬ Some failing evidence.observed_surface_deltas))
      × ((status ≡ CheckStatus.failed) ↔ (
          (evidence.surface_baseline_recorded ≡ true)
          × ((evidence.identity_mismatches ≢ []) ⊎ Some failing evidence.observed_surface_deltas)))
unfolding evaluate_stable_tool_surface failing_deltas
stable_tool_surface_cases policy kinds evidence =
    let deltas = evidence.observed_surface_deltas in
    let warned = filter (λ d. not (is_failing_kind kinds d)) (filter is_watched deltas) in
    let names = evidence.identity_mismatches in
    elim (Bool-cases evidence.surface_baseline_recorded) [
      | inr bare ↦ rw bare (
        (λ _. refl, λ _. refl),
        (λ h. absurd (cc h), λ (h, _, _). absurd (cc h)),
        (λ h. absurd (cc h), λ (h, _). absurd (cc h)),
      )
      | inl armed ↦
          elim (judge_surface_cases policy (sorted_set names) (failing_deltas kinds deltas)
            warned) [
              | inl (passed, clean, quiet) ↦
                  let clear : ¬ Some (fails kinds deltas) deltas = λ found.
                    no_member (rw quiet at (failing_deltas-complete kinds deltas found).1) in
                  rw (armed, passed)
                    (
                      (λ h. absurd (cc h), λ h. absurd (cc h)),
                      (λ _. (refl, sorted_set-empty names clean, clear), λ _. refl),
                      (
                        λ h. absurd (cc h),
                        λ (_, why). elim why [
                          | inl m ↦ absurd (m (sorted_set-empty names clean))
                          | inr found ↦ absurd (clear found)
                        ],
                      ),
                    )
              | inr (failed, why) ↦
                  let cause : (names ≢ []) ⊎ Some (fails kinds deltas) deltas = elim why [
                    | inl m ↦ inl (λ e. m (ap sorted_set e ∙ sorted_set-nothing))
                    | inr (d, m) ↦ inr (failing_deltas_sound kinds deltas d m)
                  ] in
                  rw (armed, failed)
                    (
                      (λ h. absurd (cc h), λ h. absurd (cc h)),
                      (
                        λ h. absurd (cc h),
                        λ (_, clean, quiet). elim cause [
                          | inl m ↦ absurd (m clean)
                          | inr found ↦ absurd (quiet found)
                        ],
                      ),
                      (λ _. (refl, cause), λ _. refl),
                    )
            ]
    ]
