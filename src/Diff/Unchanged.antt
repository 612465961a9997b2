-- ===== src/Diff/Unchanged.antt =====
-- A document that did not change.
use actionwitness.Prelude.{
  ℕ, ◌≡◌, refl, true, false, [], string_eq, Option, none, some, arith, Bool-cases, inl, inr, ap,
  sym, ◌∙◌,
}
use mathlib.Core.Option.{some_inj}
use actionwitness.Prelude.Text.{codes}
use actionwitness.Prelude.Int.{ℤ}
use actionwitness.Json.{
  Json, null, bool, int, float, str, arr, obj, JsonList, nil, cons, JsonDict, end, entry,
}
use actionwitness.Json.Laws.{
  IsJson, IsJsonList, IsJsonDict, Within, Within-refl, has_key-Within, deep_equal_refl,
}
use actionwitness.Assertions.{Decimals, if_finite}
use actionwitness.Security.Canonical.{Doubles, done}
use actionwitness.Diff.{
  as_decimal, same_decimal, same_scalar, is_plain_decimal, has_unrepresentable, equal, equal_items,
  equal_entries, diff_states,
}
use actionwitness.Diff.Complete.{diff_states-equal}

module _ {D : Type 0} (decimals : Decimals D) where
  pub if_finite-finite :
      (o : Option D) {d : D} → if_finite decimals o ≡ some d → decimals.is_finite d ≡ true
  if_finite-finite none h = cc
  if_finite-finite (some c) {d} h = elim (Bool-cases (decimals.is_finite c)) [
    | inl e ↦ ap decimals.is_finite (sym (some_inj.0 (rw e at h))) ∙ e
    | inr e ↦ absurd (cc (rw e at h))
  ]

  module _ (of_float : ℤ → ℕ → D) where
    -- The decimal that a value is compared as is finite.
    pub as_decimal-finite :
        (v : Json) {d : D} → as_decimal decimals of_float v ≡ some d → decimals.is_finite d ≡ true
    as_decimal-finite null h = cc
    as_decimal-finite (bool b) h = cc
    as_decimal-finite (int i) h = if_finite-finite (some (decimals.of_int i)) h
    as_decimal-finite (float m e) h = if_finite-finite (some (of_float m e)) h
    as_decimal-finite (arr xs) h = cc
    as_decimal-finite (obj d) h = cc
    as_decimal-finite (str s) h = elim (Bool-cases (is_plain_decimal (codes s))) [
      | inl e ↦ if_finite-finite (decimals.of_text s) (rw e at h)
      | inr e ↦ absurd (cc (rw e at h))
    ]

module _ {D : Type 0} (decimals : Decimals D) (of_float : ℤ → ℕ → D)
    (reflexive : (d : D) → decimals.is_finite d ≡ true → decimals.equals d d ≡ true) where
  same_decimal_self :
      (o : Option D)
      → ((d : D) → o ≡ some d → decimals.is_finite d ≡ true)
      → same_decimal decimals of_float o o true ≡ true
  same_decimal_self none h = refl
  same_decimal_self (some d) h = reflexive d (h d refl)

  same_scalar_self : (v : Json) → IsJson v → same_scalar decimals of_float v v ≡ true
  same_scalar_self v h = rw (deep_equal_refl v h) (
      same_decimal_self (as_decimal decimals of_float v)
        (λ d e. as_decimal-finite decimals of_float v e))

  mutual
    unfolding equal

    equal_self : (v : Json) → IsJson v → equal decimals of_float v v ≡ true
    equal_self null h = refl
    equal_self (bool true) h = refl
    equal_self (bool false) h = refl
    equal_self (int n) h = same_scalar_self (int n) h
    equal_self (float m e) h = same_scalar_self (float m e) h
    equal_self (str s) h = same_scalar_self (str s) h
    equal_self (arr xs) h = equal_items_self xs h
    equal_self (obj d) h =
        let w = Within-refl d h in ground (arith, has_key-Within d d w, equal_entries_self d d h w)

    equal_items_self : (xs : JsonList) → IsJsonList xs → equal_items decimals of_float xs xs ≡ true
    equal_items_self nil h = refl
    equal_items_self (cons x xs) (hx, hxs) =
        ground (arith, equal_self x hx, equal_items_self xs hxs)

    equal_entries_self :
        (before after : JsonDict)
        → IsJsonDict before
        → Within before after
        → equal_entries decimals of_float before after ≡ true
    equal_entries_self end after h w = refl
    equal_entries_self (entry k v before) after (_, hv, h) (at, w) =
        rw at (ground (arith, equal_self v hv, equal_entries_self before after h w))

  -- A document that did not change has an empty diff, where each finite decimal equals itself, and its namespaces can be named in a path.
  pub diff_states_self :
      (doubles : Doubles) (excerpt_chars : ℕ) (d : JsonDict)
      → IsJsonDict d
      → has_unrepresentable d ≡ false
      → diff_states decimals of_float doubles excerpt_chars d d ≡ done []
  diff_states_self doubles excerpt_chars d h named =
      (diff_states-equal decimals of_float doubles excerpt_chars d d (rw named refl)).1
        (equal_self (obj d) h)
