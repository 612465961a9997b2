-- ===== src/Diff.antt =====
-- packages/actionwitness_core/src/actionwitness_core/engine/diff.py: the changes between two documents.
-- `Decimal` is the parameter of Assertions, with a constructor from a float.
pub mod Nothing
pub mod Complete
pub mod Unchanged
pub mod Spelling
use actionwitness.Prelude.{
  ℕ, zero, suc, String, string_eq, nat_eq, ◌==◌, Bool, true, false, not, ◌&&◌, ◌||◌, List, [], ◌∷◌,
  ◌++◌, Option, none, some, if◌then◌else◌, leb, ltb, any, all,
}
use actionwitness.Prelude.Int.{ℤ, pos}
use actionwitness.Prelude.Sort.{sort_by}
use actionwitness.Prelude.Text.{codes, show, text_leb}
use actionwitness.Json.{
  Json, null, bool, int, float, str, arr, obj, JsonList, nil, cons, JsonDict, end, entry, lookup,
  has_key, same_keys, keys, bool_beq, deep_equal,
}
use actionwitness.Paths.{ObservationPath, path_text, is_valid_segment}
use actionwitness.Assertions.{Decimals, if_finite}
use actionwitness.Policies.Inputs.{StateChange, ChangeKind}
use actionwitness.Security.Limits.{bounded_summary, text_length, max_finding_value_chars}
use actionwitness.Security.Canonical.{Outcome, done, value_error, ◌>>=◌, Doubles, canonical_text}

-- `MAX_CHANGE_EXCERPT_CHARS`
abbrev pub max_change_excerpt_chars : ℕ
max_change_excerpt_chars = max_finding_value_chars

abbrev is_too_long : Option String → Bool
is_too_long none = false
is_too_long (some text) = ltb max_change_excerpt_chars (text_length text)

abbrev is_decimal_digit : ℕ → Bool
is_decimal_digit c = leb b'0' c && leb c b'9'

-- `(?:\.[0-9]+)?` to the end of the text
abbrev is_fraction : List ℕ → Bool
is_fraction [] = true
is_fraction (c ∷ []) = false
is_fraction (c ∷ d ∷ cs) = c == b'.' && all is_decimal_digit (d ∷ cs)

-- `[0-9]*(?:\.[0-9]+)?` to the end of the text
abbrev is_rest : List ℕ → Bool
is_rest [] = true
is_rest (c ∷ cs) = is_decimal_digit c && is_rest cs || is_fraction (c ∷ cs)

abbrev is_unsigned : List ℕ → Bool
is_unsigned [] = false
is_unsigned (c ∷ cs) = c == b'0' && is_fraction cs || leb b'1' c && leb c b'9' && is_rest cs

-- `_PLAIN_DECIMAL.fullmatch(value)`
abbrev pub is_plain_decimal : List ℕ → Bool
is_plain_decimal [] = false
is_plain_decimal (c ∷ cs) = if c == b'-' then is_unsigned cs else is_unsigned (c ∷ cs)

-- the changes under a key, or what stopped their listing
abbrev pub Changes : Type 0
Changes = Outcome (List StateChange)

-- the changes of the keys in their order
unfoldable pub gather : List (String × Changes) → Changes
gather [] = done []
gather ((key, changes) ∷ rest) = do first ← changes; others ← gather rest; done (first ++ others)

abbrev under_key_leb : (String × Changes) → (String × Changes) → Bool
under_key_leb (key, changes) (key', changes') = text_leb key key'

-- some key of the object is not a segment of a path
unfoldable pub has_unrepresentable : JsonDict → Bool
has_unrepresentable end = false
has_unrepresentable (entry key value d) = not (is_valid_segment key) || has_unrepresentable d

-- the dotted prefix is not empty
abbrev is_nested : List String → Bool
is_nested [] = false
is_nested (s ∷ prefix) = true

abbrev change_leb : StateChange → StateChange → Bool
change_leb a b = text_leb (path_text a.path) (path_text b.path)

-- the change in the list that it is appended to; a `StateChange` refuses a longer canonical_excerpt
abbrev listed : List String → ChangeKind → Option String → Option String → Changes
listed prefix kind before after =
    if is_too_long before || is_too_long after
    then value_error
    else done (
        record { path = record { segments = prefix }; kind = kind; before = before; after = after }
        ∷ [])

module _ (doubles : Doubles) (excerpt_chars : ℕ) where
  -- `_excerpt`
  abbrev canonical_excerpt : Json → Outcome String
  canonical_excerpt value = do
    rendered ← canonical_text doubles value
    elim (bounded_summary rendered (pos excerpt_chars)) [
      | none ↦ value_error
      | some summary ↦ done summary.text
    ]

  -- `_change`
  unfoldable pub change_of : List String → ChangeKind → Json → Json → Changes
  change_of prefix ChangeKind.added before after = do
    text ← canonical_excerpt after
    listed prefix ChangeKind.added none (some text)
  change_of prefix ChangeKind.removed before after = do
    text ← canonical_excerpt before
    listed prefix ChangeKind.removed (some text) none
  change_of prefix ChangeKind.changed before after = do
    old ← canonical_excerpt before
    new ← canonical_excerpt after
    listed prefix ChangeKind.changed (some old) (some new)

  -- the keys that only the second object has
  abbrev added_entries : List String → JsonDict → JsonDict → List (String × Changes)
  added_entries prefix before end = []
  added_entries prefix before (entry k w after) =
      let rest = added_entries prefix before after in
      if has_key before k
      then rest
      else (k, change_of (prefix ++ k ∷ []) ChangeKind.added null w) ∷ rest

  -- the items that only one array has
  abbrev rest_items : List String → ChangeKind → ℕ → JsonList → Changes
  rest_items prefix kind index nil = done []
  rest_items prefix kind index (cons x xs) = do
    first ← change_of (prefix ++ show index ∷ []) kind x x
    others ← rest_items prefix kind (suc index) xs
    done (first ++ others)

module _ {D : Type 0} (decimals : Decimals D) (of_float : ℤ → ℕ → D) where
  -- `_as_decimal`
  abbrev pub as_decimal : Json → Option D
  as_decimal (int i) = if_finite decimals (some (decimals.of_int i))
  as_decimal (float m e) = if_finite decimals (some (of_float m e))
  as_decimal (str s) =
      if is_plain_decimal (codes s) then if_finite decimals (decimals.of_text s) else none
  as_decimal _ = none

  abbrev same_decimal : Option D → Option D → Bool → Bool
  same_decimal (some left) (some right) otherwise = decimals.equals left right
  same_decimal _ _ otherwise = otherwise

  -- the comparison of two texts, or of two numbers
  abbrev pub same_scalar : Json → Json → Bool
  same_scalar before after =
      same_decimal (as_decimal before) (as_decimal after) (deep_equal before after)

  -- `_equal`
  unfoldable mutual
    pub equal : Json → Json → Bool
    equal null null = true
    equal (bool a) (bool b) = bool_beq a b
    equal (int a) (int b) = same_scalar (int a) (int b)
    equal (int a) (float n f) = same_scalar (int a) (float n f)
    equal (float m e) (int b) = same_scalar (float m e) (int b)
    equal (float m e) (float n f) = same_scalar (float m e) (float n f)
    equal (str a) (str b) = same_scalar (str a) (str b)
    equal (arr xs) (arr ys) = equal_items xs ys
    equal (obj a) (obj b) = same_keys a b && equal_entries a b
    equal _ _ = false

    pub equal_items : JsonList → JsonList → Bool
    equal_items nil nil = true
    equal_items (cons x xs) (cons y ys) = equal x y && equal_items xs ys
    equal_items _ _ = false

    -- `all(_equal(before[key], after[key]) for key in before)`
    pub equal_entries : JsonDict → JsonDict → Bool
    equal_entries end after = true
    equal_entries (entry k v before) after =
        elim (lookup after k) [ none ↦ false | some w ↦ equal v w ] && equal_entries before after

  -- `values_differ`
  abbrev pub values_differ : Json → Json → Bool
  values_differ before after = not (equal before after)

  module _ (doubles : Doubles) (excerpt_chars : ℕ) where
    -- a scalar pair, a change of shape, or an object with a key that no path can name
    abbrev compare_whole : List String → Json → Json → Changes
    compare_whole prefix before after =
        if equal before after
        then done []
        else change_of doubles excerpt_chars prefix ChangeKind.changed before after

    -- `_walk_mapping`, given the changes under the keys of the first object
    abbrev choose_mapping : List String → JsonDict → JsonDict → List (String × Changes) → Changes
    choose_mapping prefix before after below =
        if has_unrepresentable before || has_unrepresentable after
        then if is_nested prefix then compare_whole prefix (obj before) (obj after) else value_error
        else gather (
            sort_by under_key_leb
              (below ++ added_entries doubles excerpt_chars prefix before after))

    unfoldable mutual
      -- `_walk`
      pub walk : List String → Json → Json → Changes
      walk prefix (obj before) (obj after) =
          choose_mapping prefix before after (walk_entries prefix before after)
      walk prefix (arr before) (arr after) = walk_items prefix 0 before after
      walk prefix before after = compare_whole prefix before after

      -- the loop of `_walk_mapping`, over the keys of the first object
      pub walk_entries : List String → JsonDict → JsonDict → List (String × Changes)
      walk_entries prefix end after = []
      walk_entries prefix (entry k v before) after =
          (
            k,
            elim (lookup after k) [
              | none ↦ change_of doubles excerpt_chars (prefix ++ k ∷ []) ChangeKind.removed v null
              | some w ↦ walk (prefix ++ k ∷ []) v w
            ],
          )
          ∷ walk_entries prefix before after

      -- `_walk_array`
      pub walk_items : List String → ℕ → JsonList → JsonList → Changes
      walk_items prefix index nil after =
          rest_items doubles excerpt_chars prefix ChangeKind.added index after
      walk_items prefix index (cons x before) nil =
          rest_items doubles excerpt_chars prefix ChangeKind.removed index (cons x before)
      walk_items prefix index (cons x before) (cons y after) = do
        first ← walk (prefix ++ show index ∷ []) x y
        others ← walk_items prefix (suc index) before after
        done (first ++ others)

    -- `diff_states`
    unfoldable pub diff_states : JsonDict → JsonDict → Changes
    diff_states before after = do
      changes ← walk [] (obj before) (obj after)
      done (sort_by change_leb changes)
