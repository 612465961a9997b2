-- ===== src/Security/Redaction.antt =====
-- packages/actionwitness_core/src/actionwitness_core/security/redaction.py. `str.lower` of Python's
-- Unicode tables is a parameter.
pub mod Matching
pub mod Fixed
use Prim.Native.String
use actionwitness.Prelude.{
  ℕ, zero, suc, ◌+◌, String, string_eq, nat_eq, ◌==◌, Bool, true, false, not, ◌&&◌, ◌||◌, List, [],
  ◌∷◌, ◌++◌, map, Option, none, some, if◌then◌else◌, leb, ltb, length, any, filter, get_last?,
}
use actionwitness.Prelude.Text.{codes, show}
use actionwitness.Kernel.{Result, ok, raise, ◌>>=◌, ◌>>◌, raise_if, invalid_redaction_pattern}
use actionwitness.Json.{
  Json, null, bool, int, float, str, arr, obj, JsonList, nil, cons, JsonDict, end, entry,
}
use actionwitness.Paths.{matches_segment, max_observation_path_length, split_dots}

-- `REDACTED`
abbrev pub redacted : String
redacted = "[REDACTED]"

-- `DEFAULT_REDACTION_KEYS`
abbrev pub default_redaction_keys : List String
default_redaction_keys =
    "password" ∷ "secret" ∷ "token" ∷ "authorization" ∷ "cookie" ∷ "api_key" ∷ "access_token"
    ∷ "cart_token" ∷ "email" ∷ "payment" ∷ "card" ∷ []

-- `_WORD_DEFAULTS`
abbrev pub word_defaults : List String
word_defaults =
    "password" ∷ "secret" ∷ "token" ∷ "authorization" ∷ "cookie" ∷ "email" ∷ "payment" ∷ "card" ∷ []

abbrev is_upper : ℕ → Bool
is_upper c = leb b'A' c && leb c b'Z'

abbrev is_lower_or_digit : ℕ → Bool
is_lower_or_digit c = leb b'a' c && leb c b'z' || leb b'0' c && leb c b'9'

-- put a character in front of the first part
abbrev onto_part : ℕ → List (List ℕ) → List (List ℕ)
onto_part c [] = (c ∷ []) ∷ []
onto_part c (part ∷ parts) = (c ∷ part) ∷ parts

-- `_WORD_BOUNDARY.split(key)` after the character `before`, with the parts lower-cased: a part has
-- ASCII letters and digits only. A run of other characters leaves empty parts, which are dropped.
unfoldable pub split_words : ℕ → List ℕ → List (List ℕ)
split_words before [] = [] ∷ []
split_words before (c ∷ cs) =
    let rest = split_words c cs in
    if is_upper c
    then if is_lower_or_digit before then [] ∷ onto_part (c + 32) rest else onto_part (c + 32) rest
    else if is_lower_or_digit c
    then onto_part c rest
    else [] ∷ rest

abbrev same_codes : List ℕ → List ℕ → Bool
same_codes [] [] = true
same_codes (c ∷ cs) (d ∷ ds) = c == d && same_codes cs ds
same_codes _ _ = false

-- `bool(_words(key) & _WORD_DEFAULTS)`; no default is empty
unfoldable pub has_default_word : String → Bool
has_default_word key =
    any (λ part. any (λ word. same_codes (codes word) part) word_defaults)
      (split_words 0 (codes key))

abbrev pub is_among : String → List String → Bool
is_among text texts = any (λ t. t == text) texts

-- `RedactionPattern`
pub record RedactionPattern : Type 0 where
  pub segments : List String

abbrev is_wildcard : String → Bool
is_wildcard segment = segment == "*" || segment == "**"

abbrev is_empty_text : String → Bool
is_empty_text String.[] = true
is_empty_text (String.◌∷◌ c s) = false

-- a segment that `parse` refuses
abbrev is_bad : String → Bool
is_bad segment =
    not (is_wildcard segment) && (is_empty_text segment || not (matches_segment (codes segment)))

abbrev parse_pattern_text : String → Result RedactionPattern
parse_pattern_text text = do
  raise_if (is_empty_text text) invalid_redaction_pattern
  raise_if (ltb max_observation_path_length (length (codes text))) invalid_redaction_pattern
  raise_if (any is_bad (split_dots text)) invalid_redaction_pattern
  ok (record { segments = split_dots text })

-- `RedactionPattern.parse`
unfoldable pub parse_pattern : Json → Result RedactionPattern
parse_pattern (str text) = parse_pattern_text text
parse_pattern _ = raise invalid_redaction_pattern

-- `path[index:] for index in range(len(path) + 1)`
unfoldable pub suffixes : List String → List (List String)
suffixes [] = [] ∷ []
suffixes (s ∷ path) = (s ∷ path) ∷ suffixes path

abbrev is_nil : List String → Bool
is_nil [] = true
is_nil (s ∷ path) = false

-- the head of a pattern other than `**` against the head of a path, before the rest is matched
abbrev head_matches : String → List String → (List String → Bool) → Bool
head_matches head [] rest = false
head_matches head (s ∷ path) rest = (head == "*" || head == s) && rest path

-- `_match`
unfoldable pub match : List String → List String → Bool
match [] path = is_nil path
match (head ∷ rest) path =
    if head == "**"
    then any (λ suffix. match rest suffix) (suffixes path)
    else head_matches head path (λ p. match rest p)

-- `RedactionPolicy`
pub record RedactionPolicy : Type 0 where
  pub patterns : List RedactionPattern
  pub apply_defaults : Bool

abbrev parse_patterns : List String → Result (List RedactionPattern)
parse_patterns [] = ok []
parse_patterns (path ∷ paths) = do
  first ← parse_pattern (str path)
  others ← parse_patterns paths
  ok (first ∷ others)

-- `RedactionPolicy.from_paths`
abbrev pub from_paths : List String → Result RedactionPolicy
from_paths paths = do
  patterns ← parse_patterns paths
  ok (record { patterns = patterns; apply_defaults = true })

module _ (lower : String → String) where
  -- `_is_default_redacted_key`
  abbrev pub is_default_redacted_key : String → Bool
  is_default_redacted_key key = is_among (lower key) default_redaction_keys || has_default_word key

  abbrev default_selects : Option String → Bool
  default_selects none = false
  default_selects (some key) = is_default_redacted_key key

  -- `RedactionPolicy.selects`
  unfoldable pub selects : RedactionPolicy → List String → Bool → Bool
  selects policy path is_object_key =
      not (is_nil path)
      && (policy.apply_defaults && is_object_key && default_selects (get_last? path)
          || any (λ pattern. match pattern.segments path) policy.patterns)

  -- `redact`, whose loops are mutual with `_walk`
  unfoldable mutual
    -- `_walk`
    pub redact_at : RedactionPolicy → List String → Json → Json
    redact_at policy path (obj d) = obj (redact_entries policy path d)
    redact_at policy path (arr xs) = arr (redact_items policy path 0 xs)
    redact_at policy path value = value

    pub redact_entries : RedactionPolicy → List String → JsonDict → JsonDict
    redact_entries policy path end = end
    redact_entries policy path (entry key item d) =
        let below = redact_at policy (path ++ key ∷ []) item in
        entry key (if selects policy (path ++ key ∷ []) true then str redacted else below)
          (redact_entries policy path d)

    pub redact_items : RedactionPolicy → List String → ℕ → JsonList → JsonList
    redact_items policy path index nil = nil
    redact_items policy path index (cons item xs) =
        let below = redact_at policy (path ++ show index ∷ []) item in
        cons (if selects policy (path ++ show index ∷ []) false then str redacted else below)
          (redact_items policy path (suc index) xs)

  -- `policy or RedactionPolicy()`
  abbrev policy_or_default : Option RedactionPolicy → RedactionPolicy
  policy_or_default none = record { patterns = []; apply_defaults = true }
  policy_or_default (some policy) = policy

  -- `redact`
  abbrev pub redact : Json → Option RedactionPolicy → Json
  redact value policy = redact_at (policy_or_default policy) [] value
