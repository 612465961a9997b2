-- ===== src/Cases/Replay.antt =====
-- What a replay reads of a minimised fixture, which stands under `target` in each observation.
use actionwitness.Prelude.{
  ◌≡◌, ◌≢◌, refl, sym, ap, ap₂, ◌∙◌, inl, inr, ◌⊎◌, String, string_eq, ◌==◌, true, false, List, [],
  ◌∷◌, map, none, some, Bool-cases, Option-cases, Memᴰ, any_complete, eq_iff, mem-map,
  mem-append_left, mem-append_right,
}
use actionwitness.Kernel.{ok}
use actionwitness.Json.{Json, obj, JsonDict, end, entry, lookup}
use actionwitness.Paths.{ObservationPath, parse_text, walk, child, resolve}
use actionwitness.Paths.Parsing.{split_dots-cons, segments-parse_text}
use actionwitness.Assertions.{Assertion, Precondition}
use actionwitness.Policies.Inputs.{no_undeclared_changes}
use actionwitness.Cases.{OutcomeContract, is_in, requires_complete_state}
use actionwitness.Cases.Fixture.{
  lookup-keep_keys, root_of, roots_of, referenced_roots, keep_keys, choose_fixture,
  minimize_fixture, minimize_fixture-lookup,
}
use actionwitness.Cases.Roots.{root_of-parse}

-- the path of an assertion or of a precondition
abbrev pub IsContractPath : OutcomeContract → ObservationPath → Type 0
IsContractPath contract path =
    ((a : Assertion) × Memᴰ a contract.assertions × (a.path ≡ path))
    ⊎ ((p : Precondition) × Memᴰ p contract.preconditions × (p.path ≡ path))

mem-roots_of :
    {path : ObservationPath} {paths : List ObservationPath} (root : String)
    → Memᴰ path paths
    → root_of path ≡ some root
    → Memᴰ root (roots_of paths)
mem-roots_of root (Memᴰ.head {x = first} e) h =
    rw (sym (ap root_of e) ∙ h, roots_of) (Memᴰ.head refl)
mem-roots_of root (Memᴰ.tail {x = first} m) h = elim (Option-cases (root_of first)) [
  | inl e ↦ rw (e, roots_of) (mem-roots_of root m h)
  | inr (other, e) ↦ rw (e, roots_of) (Memᴰ.tail (mem-roots_of root m h))
]

mem-referenced_roots :
    (contract : OutcomeContract) (path : ObservationPath) (root : String)
    → IsContractPath contract path
    → root_of path ≡ some root
    → Memᴰ root (referenced_roots contract)
unfolding referenced_roots
mem-referenced_roots contract path root (inl (a, m, e)) h =
    mem-roots_of root
      (mem-append_left (map (λ p. p.path) contract.preconditions) (mem-map (λ a. a.path) m))
      (ap root_of e ∙ h)
mem-referenced_roots contract path root (inr (p, m, e)) h =
    mem-roots_of root
      (mem-append_right (map (λ a. a.path) contract.assertions) (mem-map (λ p. p.path) m))
      (ap root_of e ∙ h)

walk-below :
    (fixture state : JsonDict) (rest : List String)
    → rest ≢ []
    → ((root : String) (more : List String)
        → rest ≡ root ∷ more
        → lookup fixture root ≡ lookup state root)
    → walk rest (obj fixture) ≡ walk rest (obj state)
unfolding walk child
walk-below fixture state [] some_segment same = absurd (some_segment refl)
walk-below fixture state (root ∷ more) some_segment same = rw (same root more refl, walk) refl

-- Two targets that agree on the second segment of a path are the same to it.
walk-mounted :
    (fixture state context : JsonDict) (segments : List String)
    → segments ≢ []
    → segments ≢ "target" ∷ []
    → ((root : String) (more : List String)
        → segments ≡ "target" ∷ root ∷ more
        → lookup fixture root ≡ lookup state root)
    → walk segments (obj (entry "target" (obj fixture) context))
      ≡ walk segments (obj (entry "target" (obj state) context))
unfolding walk child
walk-mounted fixture state context [] some_segment below same = absurd (some_segment refl)
walk-mounted fixture state context (s ∷ rest) some_segment below same =
    elim (Bool-cases ("target" == s)) [
      | inr e ↦ rw (e, walk) refl
      | inl e ↦
          let is_target : s ≡ "target" = sym ((eq_iff "target" s).0 e) in
          rw (e, walk)
            (walk-below fixture state rest (λ empty. below (ap₂ ◌∷◌ is_target empty))
              (λ root more parts. same root more (ap₂ ◌∷◌ is_target parts)))
    ]

lookup-dropped :
    (roots : List String) (d : JsonDict) (k : String)
    → is_in roots k ≡ false
    → lookup (keep_keys roots d) k ≡ none
unfolding keep_keys
lookup-dropped roots end k h = refl
lookup-dropped roots (entry j v d) k h = elim (Bool-cases (is_in roots j)) [
  | inr e ↦ rw e (lookup-dropped roots d k h)
  | inl e ↦ elim (Bool-cases (j == k)) [
    | inl same ↦ absurd (cc (e, h, ap (is_in roots) ((eq_iff j k).0 same)))
    | inr other ↦ rw (e, other) (lookup-dropped roots d k h)
  ]
]

-- what the second mapping holds is in the first, under the same key
abbrev pub IsPart : JsonDict → JsonDict → Type 0
IsPart whole part = (k : String) (v : Json) → lookup part k ≡ some v → lookup whole k ≡ some v

IsPart-keep_keys : (roots : List String) (d : JsonDict) → IsPart d (keep_keys roots d)
IsPart-keep_keys roots d k v h = elim (Bool-cases (is_in roots k)) [
  | inl e ↦ sym (lookup-keep_keys roots d k e) ∙ h
  | inr e ↦ absurd (cc (lookup-dropped roots d k e, h))
]

IsPart-choose_fixture :
    (state : JsonDict) (roots : List String) (kept : JsonDict)
    → IsPart state kept
    → IsPart state (choose_fixture state roots kept).0
IsPart-choose_fixture state [] kept part k v h = h
IsPart-choose_fixture state (root ∷ roots) end part k v h = h
IsPart-choose_fixture state (root ∷ roots) (entry j w d) part k v h = part k v h

IsPart-minimize_fixture :
    (state : JsonDict) (contract : OutcomeContract)
    → IsPart state (minimize_fixture state contract).0
unfolding minimize_fixture
IsPart-minimize_fixture state contract = elim (Bool-cases (requires_complete_state contract)) [
  | inl e ↦ rw e (λ k v h. h)
  | inr e ↦
      let roots = referenced_roots contract in
      rw e
        (IsPart-choose_fixture state roots (keep_keys roots state) (IsPart-keep_keys roots state))
]

complete_for :
    (contract : OutcomeContract) (allowed : List ObservationPath)
    → Memᴰ (no_undeclared_changes allowed) contract.policies
    → requires_complete_state contract ≡ true
unfolding requires_complete_state
complete_for contract allowed m = any_complete _ m refl

parsed_segments :
    (text : String) (path : ObservationPath) → parse_text text ≡ ok path → path.segments ≢ []
parsed_segments text path h empty =
    let (first, rest, split) = split_dots-cons text in
    cc (sym empty ∙ segments-parse_text text path h ∙ split)

-- Every path of an assertion or a precondition that is read from a text, except the bare path `target`, resolves in an observation of a minimised fixture to what it resolves to in one of the whole state. What the fixture holds is what the state holds there, and it is the whole state where the contract has a policy on undeclared changes.
pub minimize_fixture-resolve :
    (state : JsonDict) (contract : OutcomeContract)
    → let fixture = (minimize_fixture state contract).0 in
      ((text : String) (path : ObservationPath) (context : JsonDict)
        → IsContractPath contract path
        → parse_text text ≡ ok path
        → path.segments ≢ "target" ∷ []
        → resolve path (entry "target" (obj fixture) context)
          ≡ resolve path (entry "target" (obj state) context))
      × IsPart state fixture
      × ((allowed : List ObservationPath)
          → Memᴰ (no_undeclared_changes allowed) contract.policies
          → fixture ≡ state)
minimize_fixture-resolve state contract =
    let (agree, whole) = minimize_fixture-lookup state contract in
    (
      λ text path context asked parsed below.
          walk-mounted (minimize_fixture state contract).0 state context path.segments
            (parsed_segments text path parsed) below
            (λ root more parts. agree root (
              mem-referenced_roots contract path root asked
                (root_of-parse text path root more parsed parts))),
      IsPart-minimize_fixture state contract,
      λ allowed m. whole (complete_for contract allowed m),
    )
