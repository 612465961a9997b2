-- ===== src/Reports/Undeclared.antt =====
-- `undeclared_changes_from`, `_undeclared_entries` and `_parse_entries` of
-- packages/actionwitness_core/src/actionwitness_core/reports/models.py. A block is absent where its
-- counts are refused.
use actionwitness.Prelude.{
  ℕ, ◌+◌, ◌-◌, ◌≤◌, ◌≡◌, refl, sym, ap, ap₂, ◌∙◌, String, string_eq, Bool, true, false, ◌&&◌, not,
  List, [], ◌∷◌, map, Option, none, some, if◌then◌else◌, leb, ltb, length, arith, Bool-cases, inl,
  inr, suc,
}
use actionwitness.Prelude.Int.{ℤ, pos, negsuc}
use actionwitness.Json.{
  Json, null, bool, int, float, str, arr, obj, nil, cons, JsonDict, end, entry, lookup, items,
}
use actionwitness.Kernel.{Result, ok, raise}
use actionwitness.Paths.{ObservationPath, parse_text}
use actionwitness.Findings.{Finding}
use actionwitness.Policies.Inputs.{paths_beq, segments_beq}
use actionwitness.Security.Limits.{text_length}
use actionwitness.Diff.{max_change_excerpt_chars}
use actionwitness.Reports.{UndeclaredChange, UndeclaredChangesBlock}

abbrev equals_zero : ℤ → Bool
equals_zero (pos n) = leb n 0
equals_zero (negsuc n) = false

-- `bool(value)`
abbrev pub truth_of : Json → Bool
truth_of null = false
truth_of (bool b) = b
truth_of (int i) = not (equals_zero i)
truth_of (float m e) = not (equals_zero m)
truth_of (str s) = ltb 0 (text_length s)
truth_of (arr nil) = false
truth_of (arr (cons x xs)) = true
truth_of (obj end) = false
truth_of (obj (entry k v d)) = true

-- the length that the model of a change allows an excerpt
abbrev fits : Option String → Bool
fits none = true
fits (some text_value) = leb (text_length text_value) max_change_excerpt_chars

abbrev checked_change :
    Result ObservationPath → Option String → Option String → String → Option UndeclaredChange
checked_change (raise code) before after cause = none
checked_change (ok path) before after cause =
    if fits before && fits after
    then some (record { path = path; before = before; after = after; attributed_cause = cause })
    else none

-- a path with nothing known of its values
abbrev bare : ObservationPath → UndeclaredChange
bare path = record { path = path; before = none; after = none; attributed_cause = "none" }

abbrev get_or : JsonDict → String → Json → Json
get_or d key default = elim (lookup d key) [ none ↦ default | some v ↦ v ]

abbrev pub paths_of : List UndeclaredChange → List ObservationPath
paths_of changes = map (λ c. c.path) changes

abbrev choose_entries :
    List ObservationPath → Option (List UndeclaredChange) → List UndeclaredChange
choose_entries paths none = map bare paths
choose_entries paths (some changes) =
    if paths_beq (paths_of changes) paths then changes else map bare paths

module _ (text_of : Json → String) where
  -- `str(value)`
  abbrev text_value : Json → String
  text_value (str s) = s
  text_value value = text_of value

  -- `_excerpt_of`
  abbrev excerpt_of : Json → Option String
  excerpt_of null = none
  excerpt_of value = some (text_value value)

  abbrev parse_entry : Json → Option UndeclaredChange
  parse_entry (obj item) =
      checked_change (parse_text (text_value (get_or item "path" (str ""))))
        (excerpt_of (get_or item "before" null)) (excerpt_of (get_or item "after" null))
        (text_value (get_or item "attributed_cause" (str "none")))
  parse_entry _ = none

  abbrev parse_items : List Json → Option (List UndeclaredChange)
  parse_items [] = some []
  parse_items (item ∷ rest) = elim (parse_entry item) [
    | none ↦ none
    | some change ↦ elim (parse_items rest) [ none ↦ none | some changes ↦ some (change ∷ changes) ]
  ]

  -- `_parse_entries`
  abbrev pub parse_entries : Option Json → Option (List UndeclaredChange)
  parse_entries (some (arr xs)) = parse_items (items xs)
  parse_entries _ = none

  -- `_undeclared_entries`
  unfoldable pub undeclared_entries : Finding → List UndeclaredChange
  undeclared_entries finding =
      choose_entries finding.paths (parse_entries (lookup finding.evidence "undeclared_changes"))

  abbrev block_of : Finding → ℕ → UndeclaredChangesBlock
  block_of finding changed_paths = record {
    changed_paths = changed_paths;
    declared = changed_paths - length finding.paths;
    undeclared = length finding.paths;
    effect_metadata_published =
        truth_of (get_or finding.evidence "effect_metadata_published" (bool false));
    paths = undeclared_entries finding;
    applied_exemptions = finding.applied_exemptions;
  }

  -- `undeclared_changes_from`
  unfoldable pub undeclared_changes_from : Finding → ℕ → Option UndeclaredChangesBlock
  undeclared_changes_from finding changed_paths =
      if leb (length finding.paths) changed_paths
      then some (block_of finding changed_paths)
      else none

segments_beq_sound : (a b : List String) → segments_beq a b ≡ true → a ≡ b
segments_beq_sound [] [] h = refl
segments_beq_sound [] (t ∷ b) h = cc
segments_beq_sound (s ∷ a) [] h = cc
segments_beq_sound (s ∷ a) (t ∷ b) h =
    ap₂ ◌∷◌ ((string_eq.same_iff s t).0 (ground arith)) (segments_beq_sound a b (ground arith))

paths_beq_sound : (a b : List ObservationPath) → paths_beq a b ≡ true → a ≡ b
paths_beq_sound [] [] h = refl
paths_beq_sound [] (q ∷ b) h = cc
paths_beq_sound (p ∷ a) [] h = cc
paths_beq_sound (p ∷ a) (q ∷ b) h =
    ap₂ ◌∷◌
      (ap (λ s. record { segments = s }) (segments_beq_sound p.segments q.segments (ground arith)))
      (paths_beq_sound a b (ground arith))

paths_of-bare : (paths : List ObservationPath) → paths_of (map bare paths) ≡ paths
paths_of-bare [] = refl
paths_of-bare (p ∷ paths) = ap (λ rest. p ∷ rest) (paths_of-bare paths)

paths_of-choose_entries :
    (paths : List ObservationPath) (parsed : Option (List UndeclaredChange))
    → paths_of (choose_entries paths parsed) ≡ paths
paths_of-choose_entries paths none = paths_of-bare paths
paths_of-choose_entries paths (some changes) =
    elim (Bool-cases (paths_beq (paths_of changes) paths)) [
      | inl e ↦ rw e (paths_beq_sound (paths_of changes) paths e)
      | inr e ↦ rw e (paths_of-bare paths)
    ]

length-paths_of : (changes : List UndeclaredChange) → length (paths_of changes) ≡ length changes
length-paths_of [] = refl
length-paths_of (c ∷ cs) = ap suc (length-paths_of cs)

module _ (text_of : Json → String) where
  -- The block for a finding whose paths are no more than those that changed is made; it lists exactly the paths of the finding, in their order, whatever the stored evidence holds, and its counts add up.
  pub undeclared_changes_from-paths :
      (finding : Finding) (changed_paths : ℕ)
      → length finding.paths ≤ changed_paths
      → (block : UndeclaredChangesBlock) × (undeclared_changes_from text_of finding changed_paths
          ≡ some block)
        × (paths_of block.paths ≡ finding.paths)
        × (block.undeclared ≡ length block.paths)
        × (block.declared + block.undeclared ≡ block.changed_paths)
  unfolding undeclared_changes_from undeclared_entries
  undeclared_changes_from-paths finding changed_paths h =
      let parsed = parse_entries text_of (lookup finding.evidence "undeclared_changes") in
      let same = paths_of-choose_entries finding.paths parsed in
      let within : leb (length finding.paths) changed_paths ≡ true = ground arith in
      let size = length-paths_of (choose_entries finding.paths parsed) in
      (
        block_of text_of finding changed_paths,
        rw within refl,
        same,
        sym (ap length same) ∙ size,
        omega arith,
      )
