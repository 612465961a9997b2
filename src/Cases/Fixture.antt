-- ===== src/Cases/Fixture.antt =====
-- `referenced_roots` and `minimize_fixture` of
-- packages/actionwitness_core/src/actionwitness_core/evals/minimize.py.
use Prim.Native.Char.{code}
use actionwitness.Prelude.{
  inl, inr, ℕ, ◌≡◌, refl, ap, String, string_eq, nat_beq, ◌==◌, eq_iff, Bool, true, List, [], ◌∷◌,
  ◌++◌, map, Option, none, some, if◌then◌else◌, Bool-cases, Memᴰ, any_complete, beq_refl,
}
use actionwitness.Prelude.Text.{codes}
use actionwitness.Json.{JsonDict, end, entry, lookup, same_keys}
use actionwitness.Paths.{ObservationPath, path_text, split_dots}
use actionwitness.Cases.{OutcomeContract, is_in, requires_complete_state}

-- the text after a prefix, if it has that prefix
unfoldable pub strip_prefix : List ℕ → String → Option String
strip_prefix [] text = some text
strip_prefix (c ∷ prefix) String.[] = none
strip_prefix (c ∷ prefix) (String.◌∷◌ d text) =
    let rest = strip_prefix prefix text in if nat_beq (code d) c then rest else none

-- `text.split("[", 1)[0]`
unfoldable pub before_bracket : String → String
before_bracket String.[] = ""
before_bracket (String.◌∷◌ c text) =
    let rest = before_bracket text in if nat_beq (code c) b'[' then "" else String.◌∷◌ c rest

abbrev pub first_text : List String → String
first_text [] = ""
first_text (s ∷ rest) = s

abbrev pub target_root : Option String → Option String
target_root none = none
target_root (some remainder) =
    let root = before_bracket (first_text (split_dots remainder)) in
    if root == "" then none else some root

-- the root that one path adds
unfoldable pub root_of : ObservationPath → Option String
root_of path = target_root (strip_prefix (codes "target.") (path_text path))

abbrev pub roots_of : List ObservationPath → List String
roots_of [] = []
roots_of (path ∷ paths) =
    let rest = roots_of paths in elim (root_of path) [ none ↦ rest | some root ↦ root ∷ rest ]

-- `referenced_roots`
unfoldable pub referenced_roots : OutcomeContract → List String
referenced_roots contract =
    roots_of (map (λ a. a.path) contract.assertions ++ map (λ p. p.path) contract.preconditions)

-- `{key: value for key, value in state.items() if key in roots}`
unfoldable pub keep_keys : List String → JsonDict → JsonDict
keep_keys roots end = end
keep_keys roots (entry k v d) =
    let rest = keep_keys roots d in if is_in roots k then entry k v rest else rest

abbrev pub choose_fixture : JsonDict → List String → JsonDict → JsonDict × Bool
choose_fixture state [] kept = (state, true)
choose_fixture state (root ∷ roots) end = (state, true)
choose_fixture state (root ∷ roots) (entry k v d) = (entry k v d, same_keys (entry k v d) state)

-- `minimize_fixture`
unfoldable pub minimize_fixture : JsonDict → OutcomeContract → JsonDict × Bool
minimize_fixture state contract =
    let roots = referenced_roots contract in
    if requires_complete_state contract
    then (state, true)
    else choose_fixture state roots (keep_keys roots state)

pub lookup-keep_keys :
    (roots : List String) (d : JsonDict) (k : String)
    → is_in roots k ≡ true
    → lookup (keep_keys roots d) k ≡ lookup d k
unfolding keep_keys
lookup-keep_keys roots end k h = refl
lookup-keep_keys roots (entry j v d) k h =
    let rest = lookup-keep_keys roots d k h in
    elim (Bool-cases (is_in roots j)) [
      | inl e ↦ rw (e, rest) refl
      | inr e ↦ elim (Bool-cases (j == k)) [
        | inl same ↦ absurd (cc (e, h, ap (is_in roots) ((eq_iff j k).0 same)))
        | inr other ↦ rw (e, other) rest
      ]
    ]

choose_fixture-lookup :
    (state : JsonDict) (roots : List String) (kept : JsonDict) (k : String)
    → lookup kept k ≡ lookup state k
    → lookup (choose_fixture state roots kept).0 k ≡ lookup state k
choose_fixture-lookup state [] kept k h = refl
choose_fixture-lookup state (root ∷ roots) end k h = refl
choose_fixture-lookup state (root ∷ roots) (entry j v d) k h = h

-- A minimised fixture has at every root that the contract refers to what the state has there, and it is the whole state where the contract has a policy on undeclared changes.
pub minimize_fixture-lookup :
    (state : JsonDict) (contract : OutcomeContract)
    → let fixture = (minimize_fixture state contract).0 in
      ((root : String)
        → Memᴰ root (referenced_roots contract)
        → lookup fixture root ≡ lookup state root)
      × (requires_complete_state contract ≡ true → fixture ≡ state)
unfolding minimize_fixture
minimize_fixture-lookup state contract =
    let roots = referenced_roots contract in
    let kept = keep_keys roots state in
    (
      λ root m.
          let asked : is_in roots root ≡ true =
            any_complete (λ name. name == root) m (beq_refl root) in
          let h =
            choose_fixture-lookup state roots kept root (lookup-keep_keys roots state root asked) in
          elim (Bool-cases (requires_complete_state contract)) [
            | inl e ↦ rw e refl
            | inr e ↦ rw e h
          ],
      λ e. rw e refl,
    )
