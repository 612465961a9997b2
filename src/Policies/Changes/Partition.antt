-- ===== src/Policies/Changes/Partition.antt =====
-- Which changed paths `no_undeclared_changes` reports.
use actionwitness.Prelude.{
  ℕ, ◌≡◌, refl, sym, ap, subst, ◌⊎◌, inl, inr, ◌↔◌, Bool, true, false, not, ◌&&◌, List, [], ◌∷◌,
  Memᴰ, none, some, Bool-cases, Option-cases, any, head?, length, filter, mem-filter,
  mem_of_mem-filter, Some,
}
use actionwitness.Prelude.Sort.{mem-sort_by, mem_of_mem-sort_by}
use actionwitness.Paths.{ObservationPath, overlaps, path_leb}
use actionwitness.Vocabulary.{CheckStatus}
use actionwitness.Findings.{Finding}
use actionwitness.Policies.Inputs.{Policy, PolicyEvidence}
use actionwitness.Policies.Changes.{
  declared, waived, undeclared, declared_paths, is_covered, judge_path, partition, judge_changes,
  paths_to_judge, evaluate_no_undeclared_changes,
}

-- a path that neither a declared path nor a waiver covers
abbrev pub is_undeclared : List ObservationPath → List ObservationPath → ObservationPath → Bool
is_undeclared prefixes allow_paths path =
    not (is_covered prefixes path) && not (is_covered allow_paths path)

head?-filter :
    {A : Type 0} (p : A → Bool) (xs : List A)
    → (head? (filter p xs) ≡ none) × (any p xs ≡ false)
      ⊎ ((x : A) × (head? (filter p xs) ≡ some x) × (any p xs ≡ true))
unfolding filter any
head?-filter p [] = inl (refl, refl)
head?-filter p (x ∷ xs) = elim (Bool-cases (p x)) [
  | inl e ↦ inr (x, rw e refl, rw e refl)
  | inr e ↦ elim (head?-filter p xs) [
    | inl (h, k) ↦ inl (rw e h, rw e k)
    | inr (y, h, k) ↦ inr (y, rw e h, rw e k)
  ]
]

judge_path_cases :
    (prefixes allow_paths : List ObservationPath) (p : ObservationPath)
    → (judge_path prefixes allow_paths p ≡ undeclared)
        × (is_undeclared prefixes allow_paths p ≡ true)
      ⊎ ((judge_path prefixes allow_paths p ≡ declared)
          ⊎ ((w : ObservationPath) × (judge_path prefixes allow_paths p ≡ waived w)))
        × (is_undeclared prefixes allow_paths p ≡ false)
unfolding judge_path
judge_path_cases prefixes allow_paths p = elim (Bool-cases (is_covered prefixes p)) [
  | inl e ↦ inr (inl (rw e refl), rw e refl)
  | inr e ↦ elim (head?-filter (λ allowed. overlaps allowed p) allow_paths) [
    | inl (h, k) ↦ inl (rw (e, h) refl, rw (e, k) refl)
    | inr (w, h, k) ↦ inr (inr (w, rw (e, h) refl), rw (e, k) refl)
  ]
]

partition-undeclared :
    (prefixes allow_paths changed : List ObservationPath)
    → (partition prefixes allow_paths changed).0
      ≡ filter (is_undeclared prefixes allow_paths) changed
unfolding partition filter
partition-undeclared prefixes allow_paths [] = refl
partition-undeclared prefixes allow_paths (p ∷ ps) =
    let rest = partition-undeclared prefixes allow_paths ps in
    elim (judge_path_cases prefixes allow_paths p) [
      | inl (h, e) ↦ rw (partition, h, e) (ap (λ xs. p ∷ xs) rest)
      | inr (inl h, e) ↦ rw (partition, h, e) rest
      | inr (inr (w, h), e) ↦ rw (partition, h, e) rest
    ]

no_member : {p : ObservationPath} → ¬ Memᴰ p []
no_member m = elim m [ ]

-- what the finding says, once the undeclared paths are those of the test
abbrev pub Reports : (ObservationPath → Bool) → List ObservationPath → Finding → Type 0
Reports bare changed finding =
    ((finding.status ≡ CheckStatus.failed) ↔ Some bare changed)
    × ((finding.status ≡ CheckStatus.passed) ↔ ¬ Some bare changed)
    × ((p : ObservationPath) → Memᴰ p finding.paths ↔ (Memᴰ p changed × (bare p ≡ true)))

judge_changes-Reports :
    (policy : Policy) (evidence : PolicyEvidence) (n : ℕ) (us ws : List ObservationPath)
    (bare : ObservationPath → Bool) (changed : List ObservationPath)
    → us ≡ filter bare changed
    → Reports bare changed (judge_changes policy evidence n (us, ws))
judge_changes-Reports policy evidence n [] ws bare changed e =
    let clear : ¬ Some bare changed =
      λ (p, m, q). no_member (rw (sym e) at (mem-filter bare m q)) in
    (
      (λ h. absurd (cc h), λ found. absurd (clear found)),
      (λ _. clear, λ _. refl),
      λ p. (λ m. elim m [ ], λ (m, q). absurd (clear (p, m, q))),
    )
judge_changes-Reports policy evidence n (u ∷ us) ws bare changed e =
    let (m, q) = mem_of_mem-filter bare changed (subst (λ xs. Memᴰ u xs) e (Memᴰ.head refl)) in
    (
      (λ _. (u, m, q), λ _. refl),
      (λ h. absurd (cc h), λ clear. absurd (clear (u, m, q))),
      λ p. (
        λ k. mem_of_mem-filter bare changed (rw e at (mem_of_mem-sort_by path_leb (u ∷ us) k)),
        λ (k, r). mem-sort_by path_leb (u ∷ us) (rw (sym e) at (mem-filter bare k r)),
      ),
    )

-- When a diff was supplied, `no_undeclared_changes` fails exactly if some changed path is covered by no declared path and by no waiver, passes otherwise, and the paths that its finding lists are exactly those; with no diff it is not evaluated.
pub no_undeclared_changes_lem :
    (policy : Policy) (allow_paths : List ObservationPath) (evidence : PolicyEvidence)
    → let finding = evaluate_no_undeclared_changes policy allow_paths evidence in
      let bare = is_undeclared (declared_paths evidence) allow_paths in
      ((finding.status ≡ CheckStatus.not_evaluated) × (paths_to_judge evidence ≡ none))
      ⊎ ((changed : List ObservationPath) × (paths_to_judge evidence ≡ some changed)
          × Reports bare changed finding)
unfolding evaluate_no_undeclared_changes
no_undeclared_changes_lem policy allow_paths evidence =
    let prefixes = declared_paths evidence in
    elim (Option-cases (paths_to_judge evidence)) [
      | inl none_given ↦ inl (rw (evaluate_no_undeclared_changes, none_given) refl, none_given)
      | inr (changed, given) ↦ inr (
        changed,
        given,
        rw (evaluate_no_undeclared_changes, given)
            (judge_changes-Reports policy evidence (length changed)
              (partition prefixes allow_paths changed).0 (partition prefixes allow_paths changed).1
              (is_undeclared prefixes allow_paths) changed
              (partition-undeclared prefixes allow_paths changed)),
      )
    ]
