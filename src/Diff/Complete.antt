-- ===== src/Diff/Complete.antt =====
-- A diff is empty exactly if the documents are equal.
use actionwitness.Prelude.{
  ℕ, suc, ◌≡◌, ◌↔◌, refl, sym, ap₂, ◌∙◌, String, Bool, true, false, not, ◌&&◌, ◌||◌, List, [], ◌∷◌,
  ◌++◌, none, some, arith, Bool-cases, Option-cases, inl, inr, all, all-append,
}
use actionwitness.Prelude.Int.{ℤ}
use actionwitness.Prelude.Sort.{sort_by, all-sort_by}
use actionwitness.Prelude.Text.{show}
use actionwitness.Json.{
  Json, null, bool, int, float, str, arr, obj, JsonList, nil, cons, JsonDict, end, entry, lookup,
  has_key, keys_within,
}
use actionwitness.Json.Laws.{has_key-lookup}
use actionwitness.Assertions.{Decimals}
use actionwitness.Policies.Inputs.{ChangeKind}
use actionwitness.Security.Canonical.{done, Doubles}
use actionwitness.Diff.{
  Changes, under_key_leb, has_unrepresentable, is_nested, equal, equal_items, equal_entries,
  canonical_excerpt, change_of, compare_whole, added_entries, rest_items, choose_mapping, walk,
  walk_entries, walk_items, diff_states,
}
use actionwitness.Diff.Nothing.{
  is_empty, is_empty-join, nothing_under, gather-empty, is_nested-append, listed-empty, then_empty,
  is_empty-sorted, is_empty_iff,
}

module _ (doubles : Doubles) (excerpt_chars : ℕ) where
  change_of-empty :
      (prefix : List String) (kind : ChangeKind) (before after : Json)
      → is_empty (change_of doubles excerpt_chars prefix kind before after) ≡ false
  unfolding change_of
  change_of-empty prefix ChangeKind.added before after =
      then_empty (canonical_excerpt doubles excerpt_chars after) _
        (λ text. listed-empty prefix ChangeKind.added none (some text))
  change_of-empty prefix ChangeKind.removed before after =
      then_empty (canonical_excerpt doubles excerpt_chars before) _
        (λ text. listed-empty prefix ChangeKind.removed (some text) none)
  change_of-empty prefix ChangeKind.changed before after =
      then_empty (canonical_excerpt doubles excerpt_chars before) _ (λ old.
        then_empty (canonical_excerpt doubles excerpt_chars after) _
          (λ new. listed-empty prefix ChangeKind.changed (some old) (some new)))

  added_entries-empty :
      (prefix : List String) (before after : JsonDict)
      → all nothing_under (added_entries doubles excerpt_chars prefix before after)
        ≡ keys_within after before
  unfolding all
  added_entries-empty prefix before end = refl
  added_entries-empty prefix before (entry k w after) = elim (Bool-cases (has_key before k)) [
    | inl e ↦ rw e (added_entries-empty prefix before after)
    | inr e ↦ rw (e, change_of-empty (prefix ++ k ∷ []) ChangeKind.added null w) refl
  ]

  rest_items-empty :
      (prefix : List String) (kind : ChangeKind) (index : ℕ) (x : Json) (xs : JsonList)
      → is_empty (rest_items doubles excerpt_chars prefix kind index (cons x xs)) ≡ false
  rest_items-empty prefix kind index x xs =
      is_empty-join (change_of doubles excerpt_chars (prefix ++ show index ∷ []) kind x x)
        (rest_items doubles excerpt_chars prefix kind (suc index) xs)
      ∙ rw (change_of-empty (prefix ++ show index ∷ []) kind x x) refl

-- an object with a key that no path can name
abbrev is_unnamed : Json → Bool
is_unnamed (obj d) = has_unrepresentable d
is_unnamed _ = false

-- the walk can name every key that it meets first
abbrev CanName : List String → Json → Json → Type 0
CanName prefix before after =
    (is_nested prefix || not (is_unnamed before || is_unnamed after)) ≡ true

CanName-nested :
    (prefix : List String) (k : String) (before after : Json)
    → CanName (prefix ++ k ∷ []) before after
CanName-nested prefix k before after = rw (is_nested-append prefix k) refl

module _ {D : Type 0} (decimals : Decimals D) (of_float : ℤ → ℕ → D) (doubles : Doubles)
    (excerpt_chars : ℕ) where
  compare_whole-empty :
      (prefix : List String) (before after : Json)
      → is_empty (compare_whole decimals of_float doubles excerpt_chars prefix before after)
        ≡ equal decimals of_float before after
  compare_whole-empty prefix before after =
      elim (Bool-cases (equal decimals of_float before after)) [
        | inl e ↦ rw e refl
        | inr e ↦
            rw (e, change_of-empty doubles excerpt_chars prefix ChangeKind.changed before after)
              refl
      ]

  -- under the keys of two objects nothing changed exactly if they are equal
  mapping-empty :
      (prefix : List String) (before after : JsonDict) (below : List (String × Changes))
      → (is_nested prefix || not (has_unrepresentable before || has_unrepresentable after)) ≡ true
      → all nothing_under below
        ≡ (keys_within before after && equal_entries decimals of_float before after)
      → is_empty (choose_mapping decimals of_float doubles excerpt_chars prefix before after below)
        ≡ equal decimals of_float (obj before) (obj after)
  unfolding equal
  mapping-empty prefix before after below named h =
      elim (Bool-cases (has_unrepresentable before || has_unrepresentable after)) [
        | inl e ↦
            let nested : is_nested prefix ≡ true = ground arith in
            rw (e, nested) (compare_whole-empty prefix (obj before) (obj after))
        | inr e ↦
            let added = added_entries-empty doubles excerpt_chars prefix before after in
            let both =
              gather-empty (
                sort_by under_key_leb
                  (below ++ added_entries doubles excerpt_chars prefix before after))
              ∙ all-sort_by under_key_leb nothing_under
                  (below ++ added_entries doubles excerpt_chars prefix before after)
              ∙ all-append nothing_under below
                  (added_entries doubles excerpt_chars prefix before after) in
            rw (e, both, h, added) (ground arith)
      ]

  mutual
    unfolding walk equal all

    walk-empty :
        (prefix : List String) (before after : Json)
        → CanName prefix before after
        → is_empty (walk decimals of_float doubles excerpt_chars prefix before after)
          ≡ equal decimals of_float before after
    walk-empty prefix null after named = compare_whole-empty prefix null after
    walk-empty prefix (bool b) after named = compare_whole-empty prefix (bool b) after
    walk-empty prefix (int i) after named = compare_whole-empty prefix (int i) after
    walk-empty prefix (float m e) after named = compare_whole-empty prefix (float m e) after
    walk-empty prefix (str s) after named = compare_whole-empty prefix (str s) after
    walk-empty prefix (arr xs) null named = compare_whole-empty prefix (arr xs) null
    walk-empty prefix (arr xs) (bool b) named = compare_whole-empty prefix (arr xs) (bool b)
    walk-empty prefix (arr xs) (int i) named = compare_whole-empty prefix (arr xs) (int i)
    walk-empty prefix (arr xs) (float m e) named = compare_whole-empty prefix (arr xs) (float m e)
    walk-empty prefix (arr xs) (str s) named = compare_whole-empty prefix (arr xs) (str s)
    walk-empty prefix (arr xs) (arr ys) named = walk_items-empty prefix 0 xs ys
    walk-empty prefix (arr xs) (obj after) named = compare_whole-empty prefix (arr xs) (obj after)
    walk-empty prefix (obj before) null named = compare_whole-empty prefix (obj before) null
    walk-empty prefix (obj before) (bool b) named = compare_whole-empty prefix (obj before) (bool b)
    walk-empty prefix (obj before) (int i) named = compare_whole-empty prefix (obj before) (int i)
    walk-empty prefix (obj before) (float m e) named =
        compare_whole-empty prefix (obj before) (float m e)
    walk-empty prefix (obj before) (str s) named = compare_whole-empty prefix (obj before) (str s)
    walk-empty prefix (obj before) (arr ys) named = compare_whole-empty prefix (obj before) (arr ys)
    walk-empty prefix (obj before) (obj after) named =
        mapping-empty prefix before after
          (walk_entries decimals of_float doubles excerpt_chars prefix before after) named
          (walk_entries-empty prefix before after)

    walk_entries-empty :
        (prefix : List String) (before after : JsonDict)
        → all nothing_under
            (walk_entries decimals of_float doubles excerpt_chars prefix before after)
          ≡ (keys_within before after && equal_entries decimals of_float before after)
    walk_entries-empty prefix end after = refl
    walk_entries-empty prefix (entry k v before) after = elim (Option-cases (lookup after k)) [
      | inl e ↦
          rw (e, change_of-empty doubles excerpt_chars (prefix ++ k ∷ []) ChangeKind.removed v null)
            (ground arith)
      | inr (w, e) ↦
          rw
            (
              e,
              walk-empty (prefix ++ k ∷ []) v w (CanName-nested prefix k v w),
              walk_entries-empty prefix before after,
              has_key-lookup after k w e,
            )
            (ground arith)
    ]

    walk_items-empty :
        (prefix : List String) (index : ℕ) (before after : JsonList)
        → is_empty (walk_items decimals of_float doubles excerpt_chars prefix index before after)
          ≡ equal_items decimals of_float before after
    walk_items-empty prefix index nil nil = refl
    walk_items-empty prefix index nil (cons y after) =
        rest_items-empty doubles excerpt_chars prefix ChangeKind.added index y after
    walk_items-empty prefix index (cons x before) nil =
        rest_items-empty doubles excerpt_chars prefix ChangeKind.removed index x before
    walk_items-empty prefix index (cons x before) (cons y after) =
        is_empty-join (walk decimals of_float doubles excerpt_chars (prefix ++ show index ∷ []) x y)
          (walk_items decimals of_float doubles excerpt_chars prefix (suc index) before after)
        ∙ ap₂ ◌&&◌
            (walk-empty (prefix ++ show index ∷ []) x y (CanName-nested prefix (show index) x y))
            (walk_items-empty prefix (suc index) before after)

  -- For documents whose namespaces can be named in a path, the diff returns and lists no change exactly if the documents are equal up to the spelling of decimals.
  pub diff_states-equal :
      (before after : JsonDict)
      → (has_unrepresentable before || has_unrepresentable after) ≡ false
      → (diff_states decimals of_float doubles excerpt_chars before after ≡ done [])
        ↔ (equal decimals of_float (obj before) (obj after) ≡ true)
  unfolding diff_states
  diff_states-equal before after named =
      let walked = walk-empty [] (obj before) (obj after) (rw named refl) in
      let whole =
        is_empty-sorted (walk decimals of_float doubles excerpt_chars [] (obj before) (obj after))
        ∙ walked in
      let (there, back) =
        is_empty_iff (diff_states decimals of_float doubles excerpt_chars before after) in
      (λ h. sym whole ∙ there h, λ h. back (whole ∙ h))
