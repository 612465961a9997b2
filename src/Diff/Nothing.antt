-- ===== src/Diff/Nothing.antt =====
-- When nothing is listed and nothing is raised.
use actionwitness.Prelude.{
  ◌≡◌, ◌↔◌, refl, ap, ◌∙◌, String, Bool, true, false, ◌&&◌, List, [], ◌∷◌, ◌++◌, Option, arith, inl,
  inr, all, List-cases, length,
}
use actionwitness.Prelude.Sort.{sort_by, length-sort_by}
use actionwitness.Policies.Inputs.{ChangeKind}
use actionwitness.Security.Canonical.{Outcome, done, refused, overflow, value_error, ◌>>=◌}
use actionwitness.Diff.{Changes, gather, is_nested, change_leb, listed}

-- nothing was listed, and nothing was raised
abbrev pub is_empty : Changes → Bool
is_empty (done []) = true
is_empty (done (c ∷ cs)) = false
is_empty (refused code) = false
is_empty overflow = false
is_empty value_error = false

pub is_empty-join :
    (first others : Changes)
    → is_empty (first >>= λ f. others >>= λ o. done (f ++ o)) ≡ (is_empty first && is_empty others)
is_empty-join (done []) (done []) = refl
is_empty-join (done []) (done (c ∷ cs)) = refl
is_empty-join (done []) (refused code) = refl
is_empty-join (done []) overflow = refl
is_empty-join (done []) value_error = refl
is_empty-join (done (d ∷ ds)) (done cs) = refl
is_empty-join (done (d ∷ ds)) (refused code) = refl
is_empty-join (done (d ∷ ds)) overflow = refl
is_empty-join (done (d ∷ ds)) value_error = refl
is_empty-join (refused code) others = refl
is_empty-join overflow others = refl
is_empty-join value_error others = refl

abbrev pub nothing_under : String × Changes → Bool
nothing_under (key, changes) = is_empty changes

pub gather-empty : (xs : List (String × Changes)) → is_empty (gather xs) ≡ all nothing_under xs
unfolding gather all
gather-empty [] = refl
gather-empty ((key, changes) ∷ rest) =
    is_empty-join changes (gather rest) ∙ ap (λ b. is_empty changes && b) (gather-empty rest)

pub is_nested-append : (prefix : List String) (k : String) → is_nested (prefix ++ k ∷ []) ≡ true
is_nested-append [] k = refl
is_nested-append (s ∷ prefix) k = refl

pub listed-empty :
    (prefix : List String) (kind : ChangeKind) (before after : Option String)
    → is_empty (listed prefix kind before after) ≡ false
listed-empty prefix kind before after = ground arith

pub then_empty {ℓ} :
    {A : Type ℓ} (call : Outcome A) (next : A → Changes)
    → ((a : A) → is_empty (next a) ≡ false)
    → is_empty (call >>= next) ≡ false
then_empty (done a) next h = h a
then_empty (refused code) next h = refl
then_empty overflow next h = refl
then_empty value_error next h = refl

pub is_empty-sorted :
    (changes : Changes) → is_empty (changes >>= λ c. done (sort_by change_leb c)) ≡ is_empty changes
unfolding sort_by
is_empty-sorted (done []) = refl
is_empty-sorted (done (c ∷ cs)) = elim (List-cases (sort_by change_leb (c ∷ cs))) [
  | inl e ↦ let same = length-sort_by change_leb (c ∷ cs) in absurd (ground (arith, ap length e))
  | inr (x, xs, e) ↦ rw e refl
]
is_empty-sorted (refused code) = refl
is_empty-sorted overflow = refl
is_empty-sorted value_error = refl

pub is_empty_iff : (changes : Changes) → (changes ≡ done []) ↔ (is_empty changes ≡ true)
is_empty_iff (done []) = (λ h. refl, λ h. refl)
is_empty_iff (done (c ∷ cs)) = (λ h. absurd (cc h), λ h. absurd (cc h))
is_empty_iff (refused code) = (λ h. absurd (cc h), λ h. absurd (cc h))
is_empty_iff overflow = (λ h. absurd (cc h), λ h. absurd (cc h))
is_empty_iff value_error = (λ h. absurd (cc h), λ h. absurd (cc h))
