-- ===== src/Security/Redaction/Fixed.antt =====
-- What redacting leaves in a document.
use actionwitness.Prelude.{
  ℕ, suc, ◌≡◌, refl, ap, ◌↔◌, String, true, false, List, [], ◌∷◌, ◌++◌, Bool-cases, inl, inr, subst,
}
use actionwitness.Prelude.Text.{show}
use actionwitness.Json.{
  Json, null, bool, int, float, str, arr, obj, JsonList, nil, cons, JsonDict, end, entry,
}
use actionwitness.Security.Redaction.{
  RedactionPolicy, redacted, selects, redact_at, redact_entries, redact_items,
}

module _ (lower : String → String) (policy : RedactionPolicy) where
  abbrev mutual
    -- every selected value below a path is the marker
    pub IsRedacted : List String → Json → Type 0
    IsRedacted path (obj d) = AreRedacted path d
    IsRedacted path (arr xs) = AllRedacted path 0 xs
    IsRedacted path value = Unit

    pub AreRedacted : List String → JsonDict → Type 0
    AreRedacted path end = Unit
    AreRedacted path (entry key item d) =
        (selects lower policy (path ++ key ∷ []) true ≡ true → item ≡ str redacted)
        × IsRedacted (path ++ key ∷ []) item
        × AreRedacted path d

    pub AllRedacted : List String → ℕ → JsonList → Type 0
    AllRedacted path index nil = Unit
    AllRedacted path index (cons item xs) =
        (selects lower policy (path ++ show index ∷ []) false ≡ true → item ≡ str redacted)
        × IsRedacted (path ++ show index ∷ []) item
        × AllRedacted path (suc index) xs

  mutual
    unfolding redact_at

    redact_at-IsRedacted :
        (path : List String) (value : Json) → IsRedacted path (redact_at lower policy path value)
    redact_at-IsRedacted path (obj d) = redact_entries-AreRedacted path d
    redact_at-IsRedacted path (arr xs) = redact_items-AllRedacted path 0 xs
    redact_at-IsRedacted path null = tt
    redact_at-IsRedacted path (bool b) = tt
    redact_at-IsRedacted path (int i) = tt
    redact_at-IsRedacted path (float m e) = tt
    redact_at-IsRedacted path (str s) = tt

    redact_entries-AreRedacted :
        (path : List String) (d : JsonDict) → AreRedacted path (redact_entries lower policy path d)
    redact_entries-AreRedacted path end = tt
    redact_entries-AreRedacted path (entry key item d) =
        elim (Bool-cases (selects lower policy (path ++ key ∷ []) true)) [
          | inl e ↦ rw e ((λ _. refl), tt, redact_entries-AreRedacted path d)
          | inr e ↦ rw e (
            (λ h. absurd (cc h)),
            redact_at-IsRedacted (path ++ key ∷ []) item,
            redact_entries-AreRedacted path d,
          )
        ]

    redact_items-AllRedacted :
        (path : List String) (index : ℕ) (xs : JsonList)
        → AllRedacted path index (redact_items lower policy path index xs)
    redact_items-AllRedacted path index nil = tt
    redact_items-AllRedacted path index (cons item xs) =
        elim (Bool-cases (selects lower policy (path ++ show index ∷ []) false)) [
          | inl e ↦ rw e ((λ _. refl), tt, redact_items-AllRedacted path (suc index) xs)
          | inr e ↦ rw e (
            (λ h. absurd (cc h)),
            redact_at-IsRedacted (path ++ show index ∷ []) item,
            redact_items-AllRedacted path (suc index) xs,
          )
        ]

  mutual
    unfolding redact_at

    redact_at-fixed :
        (path : List String) (value : Json)
        → IsRedacted path value
        → redact_at lower policy path value ≡ value
    redact_at-fixed path (obj d) r = ap obj (redact_entries-fixed path d r)
    redact_at-fixed path (arr xs) r = ap arr (redact_items-fixed path 0 xs r)
    redact_at-fixed path null r = refl
    redact_at-fixed path (bool b) r = refl
    redact_at-fixed path (int i) r = refl
    redact_at-fixed path (float m e) r = refl
    redact_at-fixed path (str s) r = refl

    redact_entries-fixed :
        (path : List String) (d : JsonDict)
        → AreRedacted path d
        → redact_entries lower policy path d ≡ d
    redact_entries-fixed path end r = refl
    redact_entries-fixed path (entry key item d) (marked, below, r) =
        elim (Bool-cases (selects lower policy (path ++ key ∷ []) true)) [
          | inl e ↦ rw (e, marked e, redact_entries-fixed path d r) refl
          | inr e ↦
              rw (e, redact_at-fixed (path ++ key ∷ []) item below, redact_entries-fixed path d r)
                refl
        ]

    redact_items-fixed :
        (path : List String) (index : ℕ) (xs : JsonList)
        → AllRedacted path index xs
        → redact_items lower policy path index xs ≡ xs
    redact_items-fixed path index nil r = refl
    redact_items-fixed path index (cons item xs) (marked, below, r) =
        elim (Bool-cases (selects lower policy (path ++ show index ∷ []) false)) [
          | inl e ↦ rw (e, marked e, redact_items-fixed path (suc index) xs r) refl
          | inr e ↦
              rw
                (
                  e,
                  redact_at-fixed (path ++ show index ∷ []) item below,
                  redact_items-fixed path (suc index) xs r,
                )
                refl
        ]

  -- Redacting leaves a value as it is exactly if each value that the policy selects in it, at any depth, is the marker already; and this holds of every redacted value, so redacting twice is redacting once.
  pub redact_at-IsRedacted_iff :
      (path : List String) (value : Json)
      → ((redact_at lower policy path value ≡ value) ↔ IsRedacted path value)
        × IsRedacted path (redact_at lower policy path value)
        × (redact_at lower policy path (redact_at lower policy path value)
            ≡ redact_at lower policy path value)
  redact_at-IsRedacted_iff path value =
      let done = redact_at-IsRedacted path value in
      (
        (λ same. subst (IsRedacted path) same done, λ r. redact_at-fixed path value r),
        done,
        redact_at-fixed path (redact_at lower policy path value) done,
      )
