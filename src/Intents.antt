-- ===== src/Intents.antt =====
-- packages/actionwitness_core/src/actionwitness_core/benchmarks/intents.py, with `VariantKind` of
-- benchmarks/enums.py. The tables of Unicode are a parameter. A rejection inside a validator reaches
-- the caller as pydantic's `ValidationError`, which is `value_error` here.
use actionwitness.Prelude.{
  ℕ, String, string_eq, ◌==◌, Bool, true, not, ◌&&◌, ◌||◌, List, [], ◌∷◌, map, Option, none, some,
  leb, length, any, all, if◌then◌else◌,
}
use actionwitness.Prelude.Text.{codes}
use actionwitness.Security.Outcome.{Outcome, done, value_error, ◌>>=◌}
use actionwitness.Json.{Json, str, obj, JsonDict, lookup, keys, dict, array}

-- what `unicodedata.category`, `str.strip` and `str.casefold` answer
pub record Unicode : Type 0 where
  pub category : ℕ → String
  pub strip : String → String
  pub casefold : String → String

-- `MAX_INTENT_VARIANTS`
abbrev pub max_intent_variants : ℕ
max_intent_variants = 6

-- `MAX_INTENT_VARIANT_CHARS`
abbrev pub max_intent_variant_chars : ℕ
max_intent_variant_chars = 500

-- `MIN_INTENT_VARIANT_CHARS`
abbrev pub min_intent_variant_chars : ℕ
min_intent_variant_chars = 8

-- `VariantKind`
pub data VariantKind : Type 0 where
  paraphrased ambiguous adversarial : VariantKind

abbrev pub variant_kind_value : VariantKind → String
variant_kind_value VariantKind.paraphrased = "paraphrased"
variant_kind_value VariantKind.ambiguous = "ambiguous"
variant_kind_value VariantKind.adversarial = "adversarial"

-- `_FORBIDDEN_CATEGORIES`
abbrev pub is_forbidden_category : String → Bool
is_forbidden_category c = any (λ f. f == c) ("Cc" ∷ "Cf" ∷ "Cs" ∷ "Co" ∷ "Cn" ∷ [])

-- `StringConstraints(min_length=…, max_length=…)`
abbrev pub has_length : ℕ → ℕ → String → Bool
has_length least most text = leb least (length (codes text)) && leb (length (codes text)) most

-- `IntentVariant`
pub record IntentVariant : Type 0 where
  pub kind : VariantKind
  pub text : String

-- `IntentVariant.canonical_document`
abbrev pub variant_document : IntentVariant → Json
variant_document variant =
    obj (dict (("kind", str (variant_kind_value variant.kind)) ∷ ("text", str variant.text) ∷ []))

-- `CandidateVariants`
pub record CandidateVariants : Type 0 where
  pub canonical_intent : String
  pub variants : List IntentVariant

-- `CandidateVariants.canonical_document`
abbrev pub candidates_document : CandidateVariants → Json
candidates_document candidates = obj (
    dict (
      ("canonical_intent", str candidates.canonical_intent)
      ∷ ("variants", array (map variant_document candidates.variants))
      ∷ []))

-- the kind that a loose mapping names
abbrev kind_of : Option Json → Option VariantKind
kind_of (some (str s)) =
    if s == "paraphrased"
    then some VariantKind.paraphrased
    else if s == "ambiguous"
    then some VariantKind.ambiguous
    else if s == "adversarial"
    then some VariantKind.adversarial
    else none
kind_of _ = none

abbrev text_of : Option Json → Option String
text_of (some (str s)) = some s
text_of _ = none

-- `len(set(xs)) == len(xs)` of texts
abbrev are_distinct : List String → Bool
are_distinct [] = true
are_distinct (x ∷ xs) = not (any (λ y. y == x) xs) && are_distinct xs

module _ (unicode : Unicode) where
  -- `_offending_characters` finds some
  abbrev has_offending : String → Bool
  has_offending text = any (λ c. is_forbidden_category (unicode.category c)) (codes text)

  -- `IntentVariant._text_is_plain_and_meaningful`, after the length of the text
  unfoldable pub is_plain_text : String → Bool
  is_plain_text text =
      has_length min_intent_variant_chars max_intent_variant_chars text
      && not (has_offending text)
      && not (unicode.strip text == "")

  variant_of : Option VariantKind → Option String → Outcome IntentVariant
  variant_of (some kind) (some text) =
      if is_plain_text text then done (record { kind = kind; text = text }) else value_error
  variant_of _ _ = value_error

  -- `IntentVariant.model_validate`
  unfoldable pub read_variant : JsonDict → Outcome IntentVariant
  unfolding variant_of
  read_variant document =
      if all (λ key. (key == "kind") || (key == "text")) (keys document)
      then variant_of (kind_of (lookup document "kind")) (text_of (lookup document "text"))
      else value_error

  unfoldable pub read_variants : List JsonDict → Outcome (List IntentVariant)
  read_variants [] = done []
  read_variants (document ∷ documents) = do
    variant ← read_variant document
    variants ← read_variants documents
    done (variant ∷ variants)

  -- the text of a variant as it is compared
  abbrev pub folded : String → String
  folded text = unicode.casefold (unicode.strip text)

  -- `CandidateVariants._within_the_ceiling_and_distinct`, after the length of the intent
  unfoldable pub is_candidate_set : CandidateVariants → Bool
  is_candidate_set candidates =
      let seen = map (λ variant. folded (IntentVariant.text variant)) candidates.variants in
      has_length min_intent_variant_chars max_intent_variant_chars candidates.canonical_intent
      && leb (length candidates.variants) max_intent_variants
      && are_distinct seen
      && not (any (λ text. text == folded candidates.canonical_intent) seen)

  -- `validate_candidates`
  unfoldable pub validate_candidates : String → List JsonDict → Outcome CandidateVariants
  validate_candidates canonical_intent documents = do
    variants ← read_variants documents
    let candidates : CandidateVariants = record {
      canonical_intent = canonical_intent;
      variants = variants;
    } in
        if is_candidate_set candidates then done candidates else value_error
