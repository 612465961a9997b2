-- ===== src/Comparison/Matched.antt =====
-- When two runs are a matched pair.
use actionwitness.Prelude.{
  ◌≡◌, ◌≢◌, refl, sym, ap, ap₂, ◌∙◌, ◌↔◌, String, string_eq, Bool, true, false, ◌==◌, not, ◌&&◌,
  List, [], ◌∷◌, ◌++◌, Memᴰ, Option, none, some, arith, Bool-cases, inl, inr, mem-filter,
  mem_of_mem-filter, any_sound, any_complete, map, subst, beq_refl,
}
use actionwitness.Json.{JsonDict}
use actionwitness.Vocabulary.{FailureClassification, classification_eq}
use actionwitness.Security.Canonical.{done, Doubles}
use actionwitness.Security.Canonical.Texts.{content_hash-texts}
use actionwitness.Comparison.{
  ComparableRun, controlled_inputs, has_terminated, same_option, differing_inputs, same_texts,
  is_classified, without, only_if, differing, is_none_differing, ComparisonResult, summary,
  result_of, compare_runs, summary_entries,
}

-- a matched pair: both runs ended, in different scenario modes, with the same inputs and calls
abbrev pub AreMatched : ComparableRun → ComparableRun → Type 0
AreMatched source candidate =
    (has_terminated source ≡ true)
    × (has_terminated candidate ≡ true)
    × (source.scenario_mode ≢ candidate.scenario_mode)
    × (controlled_inputs source ≡ controlled_inputs candidate)
    × (source.trajectory ≡ candidate.trajectory)

same_option_iff : (a b : Option String) → (same_option a b ≡ true) ↔ (a ≡ b)
same_option_iff none none = (λ h. refl, λ h. refl)
same_option_iff none (some b) = (λ h. absurd (cc h), λ h. absurd (cc h))
same_option_iff (some a) none = (λ h. absurd (cc h), λ h. absurd (cc h))
same_option_iff (some a) (some b) =
    (λ h. ap some ((string_eq.same_iff a b).0 h), λ e. (string_eq.same_iff a b).1 (cc e))

same_texts_iff : (a b : List String) → (same_texts a b ≡ true) ↔ (a ≡ b)
same_texts_iff [] [] = (λ h. refl, λ h. refl)
same_texts_iff [] (t ∷ b) = (λ h. absurd (cc h), λ h. absurd (cc h))
same_texts_iff (s ∷ a) [] = (λ h. absurd (cc h), λ h. absurd (cc h))
same_texts_iff (s ∷ a) (t ∷ b) =
    let (i, j) = same_texts_iff a b in
    let (k, l) = string_eq.same_iff s t in
    (
      λ h. ap₂ ◌∷◌ (k (ground arith)) (i (ground arith)),
      λ e. let same : s ≡ t = cc e in let rest : a ≡ b = cc e in ground (arith, l same, j rest),
    )

differing_inputs-same :
    (a b : List (String × Option String)) → a ≡ b → is_none_differing (differing_inputs a b) ≡ true
differing_inputs-same a b e = rw e (self b)
  where
    self : (c : List (String × Option String)) → is_none_differing (differing_inputs c c) ≡ true
    self [] = refl
    self ((field, v) ∷ rest) = rw ((same_option_iff v v).1 refl) (self rest)

abbrev field_of : String × Option String → String
field_of (field, v) = field

differing_inputs_sound :
    (a b : List (String × Option String))
    → map field_of a ≡ map field_of b
    → is_none_differing (differing_inputs a b) ≡ true
    → a ≡ b
differing_inputs_sound [] [] f h = refl
differing_inputs_sound [] (y ∷ b) f h = absurd (cc f)
differing_inputs_sound (x ∷ a) [] f h = absurd (cc f)
differing_inputs_sound ((field, v) ∷ a) ((field', w) ∷ b) f h =
    elim (Bool-cases (same_option v w)) [
      | inr e ↦ absurd (cc (rw e at h))
      | inl e ↦
          let same : field ≡ field' = cc f in
          let others : map field_of a ≡ map field_of b = cc f in
          ap₂ ◌∷◌ (ap₂ (λ g u. (g, u)) same ((same_option_iff v w).0 e))
            (differing_inputs_sound a b others (rw e at h))
    ]

is_none_differing-append :
    (a b : List String) → is_none_differing (a ++ b) ≡ (is_none_differing a && is_none_differing b)
is_none_differing-append [] b = refl
is_none_differing-append (s ∷ a) b = refl

is_none_differing-only_if : (b : Bool) (s : String) → is_none_differing (only_if b s) ≡ not b
is_none_differing-only_if true s = refl
is_none_differing-only_if false s = refl

abbrev inputs_agree : ComparableRun → ComparableRun → Bool
inputs_agree source candidate =
    is_none_differing (differing_inputs (controlled_inputs source) (controlled_inputs candidate))

inputs_agree_sound :
    (source candidate : ComparableRun)
    → inputs_agree source candidate ≡ true
    → controlled_inputs source ≡ controlled_inputs candidate
inputs_agree_sound source candidate h =
    differing_inputs_sound (controlled_inputs source) (controlled_inputs candidate) refl h

differing_iff :
    (source candidate : ComparableRun)
    → is_none_differing (differing source candidate) ≡ (
        has_terminated source
        && (has_terminated candidate
            && (not (source.scenario_mode == candidate.scenario_mode)
                && (inputs_agree source candidate
                    && same_texts source.trajectory candidate.trajectory))))
unfolding differing
differing_iff source candidate =
    is_none_differing-append (only_if (not (has_terminated source)) "source.status") _
    ∙ ap₂ ◌&&◌
        (is_none_differing-only_if (not (has_terminated source)) "source.status"
          ∙ twice (has_terminated source))
        (is_none_differing-append (only_if (not (has_terminated candidate)) "candidate.status") _
          ∙ ap₂ ◌&&◌
              (is_none_differing-only_if (not (has_terminated candidate)) "candidate.status"
                ∙ twice (has_terminated candidate))
              (is_none_differing-append
                  (only_if (source.scenario_mode == candidate.scenario_mode) "scenario_mode") _
                ∙ ap₂ ◌&&◌
                    (is_none_differing-only_if (source.scenario_mode == candidate.scenario_mode)
                      "scenario_mode")
                    (is_none_differing-append
                        (differing_inputs (controlled_inputs source) (controlled_inputs candidate))
                        _
                      ∙ ap (λ b. inputs_agree source candidate && b)
                          (is_none_differing-only_if
                              (not (same_texts source.trajectory candidate.trajectory)) "trajectory"
                            ∙ twice (same_texts source.trajectory candidate.trajectory)))))
  where
    twice : (b : Bool) → not (not b) ≡ b
    twice true = refl
    twice false = refl

split_and :
    (a b c d e : Bool)
    → (a && (b && (c && (d && e)))) ≡ true
    → (a ≡ true) × (b ≡ true) × (c ≡ true) × (d ≡ true) × (e ≡ true)
split_and a b c d e h = ground arith

is_none_differing_iff :
    (source candidate : ComparableRun)
    → (is_none_differing (differing source candidate) ≡ true) ↔ AreMatched source candidate
is_none_differing_iff source candidate =
    let whole = differing_iff source candidate in
    let (same, differ) = string_eq.same_iff source.scenario_mode candidate.scenario_mode in
    let (read, calls) = same_texts_iff source.trajectory candidate.trajectory in
    (
      λ h.
          let (a, b, c, d, e) =
            split_and _ _ (not (source.scenario_mode == candidate.scenario_mode)) _ _
              (sym whole ∙ h) in
          (
            a,
            b,
            λ f. absurd (ground (arith, differ f)),
            inputs_agree_sound source candidate d,
            read e,
          ),
      λ (a, b, c, d, e).
          let varied : (source.scenario_mode == candidate.scenario_mode) ≡ false =
            elim (Bool-cases (source.scenario_mode == candidate.scenario_mode)) [
              | inl f ↦ absurd (c (same f))
              | inr f ↦ f
            ] in
          let agree =
            differing_inputs-same (controlled_inputs source) (controlled_inputs candidate) d in
          whole ∙ rw (a, b, varied, agree, calls e) refl,
    )

without_iff :
    (c : FailureClassification) (cs ds : List FailureClassification)
    → Memᴰ c (without cs ds) ↔ (Memᴰ c cs × ¬ Memᴰ c ds)
without_iff c cs ds = (
  λ m.
      let (n, q) = mem_of_mem-filter (λ d. not (is_classified d ds)) cs m in
      (n, λ k. absurd (ground (arith, any_complete (λ d. d == c) k (beq_refl c)))),
  λ (m, absent).
      mem-filter (λ d. not (is_classified d ds)) m
        (elim (Bool-cases (is_classified c ds)) [
          | inr e ↦ rw e refl
          | inl e ↦
              let (d, k, q) = any_sound (λ d. d == c) ds e in
              absurd (absent (subst (λ t. Memᴰ t ds) ((classification_eq.same_iff d c).0 q) k))
        ]),
)

-- what a comparison says of the two runs
abbrev pub IsComparison : ComparableRun → ComparableRun → ComparisonResult → Type 0
IsComparison source candidate result =
    ((result.comparable ≡ true) ↔ AreMatched source candidate)
    × (result.comparable ≡ true
        → (resolved introduced : List FailureClassification) × (result.resolved_classifications
            ≡ some resolved)
          × (result.introduced_classifications ≡ some introduced)
          × ((c : FailureClassification)
              → Memᴰ c resolved ↔ (
                  Memᴰ c source.critical_classifications
                  × ¬ Memᴰ c candidate.critical_classifications))
          × ((c : FailureClassification)
              → Memᴰ c introduced ↔ (
                  Memᴰ c candidate.critical_classifications
                  × ¬ Memᴰ c source.critical_classifications)))

result_of-IsComparison :
    (quoted : String → String) (source candidate : ComparableRun) (left right : JsonDict)
    → IsComparison source candidate (result_of quoted source candidate left right)
result_of-IsComparison quoted source candidate left right =
    let (there, back) = is_none_differing_iff source candidate in
    elim (Bool-cases (is_none_differing (differing source candidate))) [
      | inl e ↦ rw e (
        (λ h. there e, λ m. refl),
        λ h. (
          _,
          _,
          refl,
          refl,
          λ c. without_iff c source.critical_classifications candidate.critical_classifications,
          λ c. without_iff c candidate.critical_classifications source.critical_classifications,
        ),
      )
      | inr e ↦ rw e ((λ h. absurd (cc h), λ m. absurd (cc (e, back m))), λ h. absurd (cc h))
    ]

module _ (doubles : Doubles) (sha256_hex : String → String) (quoted : String → String) where
  summary-done : (run : ComparableRun) → (d : JsonDict) × (summary doubles sha256_hex run ≡ done d)
  summary-done run =
      let (key, e) = content_hash-texts doubles sha256_hex (controlled_inputs run) in
      (summary_entries run key, rw e refl)

  -- Two runs are always compared; they are a matched pair exactly if both terminated, in different scenario modes, with the same controlled inputs and the same tool calls; and the result for a matched pair lists the critical classifications that only the first run, or only the second, has.
  pub compare_runs-IsComparison :
      (source candidate : ComparableRun)
      → (result : ComparisonResult) × (compare_runs doubles sha256_hex quoted source candidate
          ≡ done result)
        × IsComparison source candidate result
  unfolding compare_runs
  compare_runs-IsComparison source candidate =
      let (left, e) = summary-done source in
      let (right, f) = summary-done candidate in
      (
        result_of quoted source candidate left right,
        rw (e, f) refl,
        result_of-IsComparison quoted source candidate left right,
      )
