-- ===== src/Effects.antt =====
-- packages/actionwitness_core/src/actionwitness_core/evidence/effects.py: what is recorded beside an event
-- of the paths that its tool declared. `str.lower` is the parameter of Redaction.
pub mod Fragments
use Prim.Native.String
use Prim.Native.String.{◌++◌ as append}
use actionwitness.Prelude.{
  ℕ, String, string_eq, ◌==◌, Bool, true, false, not, ◌&&◌, ◌||◌, List, [], ◌∷◌, Option, none, some,
  if◌then◌else◌, leb,
}
use actionwitness.Json.{
  Json, null, bool, int, float, str, arr, obj, JsonList, nil, cons, JsonDict, end, entry, dict,
  lookup, has_key,
}
use actionwitness.Paths.{ObservationPath, Resolution, resolve, path_text}
use actionwitness.Security.Limits.{text_length, take_text, truncation_marker}
use actionwitness.Security.Redaction.{RedactionPolicy, redact}

abbrev bounded_text : ℕ → String → String
bounded_text limit value =
    if leb (text_length value) limit
    then value
    else append (take_text limit value) truncation_marker

-- `bounded`
unfoldable mutual
  pub bounded : ℕ → Json → Json
  bounded limit (str s) = str (bounded_text limit s)
  bounded limit (obj d) = obj (bounded_entries limit d)
  bounded limit (arr xs) = arr (bounded_items limit xs)
  bounded limit value = value

  pub bounded_entries : ℕ → JsonDict → JsonDict
  bounded_entries limit end = end
  bounded_entries limit (entry k v d) = entry k (bounded limit v) (bounded_entries limit d)

  pub bounded_items : ℕ → JsonList → JsonList
  bounded_items limit nil = nil
  bounded_items limit (cons x xs) = cons (bounded limit x) (bounded_items limit xs)

-- `d[key] = value`
abbrev pub put : JsonDict → String → Json → JsonDict
put end key value = entry key value end
put (entry j v d) key value =
    let rest = put d key value in if j == key then entry j value d else entry j v rest

-- what `_graft` does below a segment, whose value is `existing`, given what it makes of a new map
-- and of the map that is there
abbrev graft_below : JsonDict → String → Option Json → JsonDict → (JsonDict → JsonDict) → JsonDict
graft_below target segment none fresh below = put target segment (obj fresh)
graft_below target segment (some null) fresh below = put target segment (obj fresh)
graft_below target segment (some (obj inner)) fresh below = put target segment (obj (below inner))
graft_below target segment (some _) fresh below = target

-- `_graft`
unfoldable pub graft : JsonDict → List String → Json → JsonDict
graft target [] value = target
graft target (leaf ∷ []) value = if has_key target leaf then target else put target leaf value
graft target (segment ∷ t ∷ rest) value =
    graft_below target segment (lookup target segment) (graft end (t ∷ rest) value)
      (λ inner. graft inner (t ∷ rest) value)

module _ (lower : String → String) (policy : Option RedactionPolicy) where
  -- the loop of `effect_context`
  unfoldable pub graft_all : JsonDict → List ObservationPath → JsonDict → JsonDict
  graft_all fragment [] context = fragment
  graft_all fragment (path ∷ paths) context =
      graft_all
        (if (resolve path context).found
          then graft fragment path.segments (redact lower (resolve path context).value policy)
          else fragment)
        paths context

  -- `effect_context`
  abbrev pub effect_context : List ObservationPath → Option JsonDict → Option JsonDict
  effect_context paths none = none
  effect_context paths (some context) = some (graft_all end paths context)
