-- ===== src/Paths.antt =====
-- packages/actionwitness_core/src/actionwitness_core/contracts/paths.py: the restricted dotted
-- observation paths, their overlap, and their resolution in a document.
pub mod Overlap
pub mod Parsing
use Prim.Native.Char.{Char, code}
use Prim.Native.String
use Prim.Native.String.{◌++◌ as append}
use actionwitness.Prelude.{
  ℕ, zero, suc, ◌+◌, ◌*◌, ◌-◌, String, string_eq, nat_eq, Eq, ◌==◌, Bool, true, false, ◌&&◌, ◌||◌,
  not, List, [], ◌∷◌, Option, none, some, if◌then◌else◌, leb, ltb, length, any, all, get_elem?,
}
use actionwitness.Prelude.Text.{codes, text_leb}
use actionwitness.Kernel.{Result, ok, raise, ◌>>=◌, ◌>>◌, raise_if, invalid_observation_path}
use actionwitness.Json.{
  Json, null, bool, int, float, str, arr, obj, JsonList, nil, cons, JsonDict, lookup, items,
}

-- `ObservationPath`
pub record ObservationPath : Type 0 where
  pub segments : List String

abbrev is_letter : ℕ → Bool
is_letter c = leb b'a' c && leb c b'z' || leb b'A' c && leb c b'Z'

abbrev is_digit : ℕ → Bool
is_digit c = leb b'0' c && leb c b'9'

-- a character of `[A-Za-z0-9_-]`
abbrev is_key_char : ℕ → Bool
is_key_char c = is_letter c || is_digit c || c == b'_' || c == b'-'

abbrev pub is_empty {ℓ} : {A : Type ℓ} → List A → Bool
is_empty [] = true
is_empty (x ∷ xs) = false

-- `(?:[A-Za-z_][A-Za-z0-9_-]*|0|[1-9][0-9]*)`, matched to the end of the text
unfoldable pub is_segment : List ℕ → Bool
is_segment [] = false
is_segment (c ∷ cs) =
    (is_letter c || c == b'_') && all is_key_char cs
    || c == b'0' && is_empty cs
    || leb b'1' c && leb c b'9' && all is_digit cs

-- the text without the newline that ends it
unfoldable pub before_newline : List ℕ → Option (List ℕ)
before_newline [] = none
before_newline (c ∷ []) = if c == 10 then some [] else none
before_newline (c ∷ d ∷ cs) = elim (before_newline (d ∷ cs)) [
  | none ↦ none
  | some init ↦ some (c ∷ init)
]

-- `_SEGMENT.match`: the pattern ends in `$`, which also stands before a newline that ends the text
abbrev pub matches_segment : List ℕ → Bool
matches_segment cs =
    is_segment cs || elim (before_newline cs) [ none ↦ false | some init ↦ is_segment init ]

-- `is_valid_segment`
unfoldable pub is_valid_segment : String → Bool
is_valid_segment text = matches_segment (codes text)

-- `_FORBIDDEN_CONSTRUCTS`; a backslash is 92
abbrev forbidden_constructs : List ℕ
forbidden_constructs =
    b'*' ∷ b'$' ∷ b'[' ∷ b']' ∷ b'(' ∷ b')' ∷ b'@' ∷ b'?' ∷ 39 ∷ b'"' ∷ 92 ∷ b'/' ∷ b':' ∷ b' ' ∷ []

abbrev is_control : ℕ → Bool
is_control c = ltb c 32 || c == 127

-- a character that `parse` refuses wherever it stands
unfoldable pub is_refused : ℕ → Bool
is_refused c = any (λ d. d == c) forbidden_constructs || is_control c

abbrev pub max_observation_path_length : ℕ
max_observation_path_length = 200

-- put a character in front of the first text
abbrev onto_first : Char → List String → List String
onto_first c [] = String.◌∷◌ c "" ∷ []
onto_first c (s ∷ rest) = String.◌∷◌ c s ∷ rest

-- a segment that `parse` refuses
abbrev pub is_bad_segment : String → Bool
is_bad_segment s = is_empty (codes s) || not (matches_segment (codes s))

-- `text.split(".")`
unfoldable pub split_dots : String → List String
split_dots String.[] = "" ∷ []
split_dots (String.◌∷◌ c s) =
    if code c == b'.' then "" ∷ split_dots s else onto_first c (split_dots s)

-- `ObservationPath.parse` of a text
unfoldable pub parse_text : String → Result ObservationPath
unfolding split_dots
parse_text text = do
  raise_if (is_empty (codes text)) invalid_observation_path
  raise_if (ltb max_observation_path_length (length (codes text))) invalid_observation_path
  raise_if (any is_refused (codes text)) invalid_observation_path
  raise_if (any is_bad_segment (split_dots text)) invalid_observation_path
  ok (record { segments = split_dots text })

-- `ObservationPath.parse`
unfoldable pub parse : Json → Result ObservationPath
parse (str text) = parse_text text
parse _ = raise invalid_observation_path

-- `str(path)`
unfoldable pub join_dots : List String → String
join_dots [] = ""
join_dots (s ∷ []) = s
join_dots (s ∷ t ∷ rest) = append s (append "." (join_dots (t ∷ rest)))

abbrev pub path_text : ObservationPath → String
path_text path = join_dots path.segments

-- `other[: len(self)] == self`, which also asks that `self` is no longer
unfoldable pub is_prefix : List String → List String → Bool
is_prefix [] other = true
is_prefix (s ∷ rest) [] = false
is_prefix (s ∷ rest) (t ∷ other) = s == t && is_prefix rest other

abbrev pub is_ancestor_of : ObservationPath → ObservationPath → Bool
is_ancestor_of self other = is_prefix self.segments other.segments

abbrev pub overlaps : ObservationPath → ObservationPath → Bool
overlaps self other = is_ancestor_of self other || is_ancestor_of other self

-- `<=` on segment tuples
unfoldable pub segments_leb : List String → List String → Bool
segments_leb [] other = true
segments_leb (s ∷ rest) [] = false
segments_leb (s ∷ rest) (t ∷ other) = if s == t then segments_leb rest other else text_leb s t

abbrev pub path_leb : ObservationPath → ObservationPath → Bool
path_leb p q = segments_leb p.segments q.segments

-- `Resolution`
pub record Resolution : Type 0 where
  pub found : Bool
  pub value : Json

-- `MISSING`
abbrev pub missing : Resolution
missing = record { found = false; value = null }

abbrev pub found_value : Json → Resolution
found_value v = record { found = true; value = v }

-- `segment.isdigit()` for the segments of a parsed path, whose digits are ASCII
abbrev is_number : String → Bool
is_number s = not (is_empty (codes s)) && all is_digit (codes s)

-- `int(segment)`
abbrev to_number : ℕ → List ℕ → ℕ
to_number n [] = n
to_number n (c ∷ cs) = to_number (n * 10 + (c - 48)) cs

-- one round of the loop of `resolve`: the value under a segment
unfoldable pub child : String → Json → Option Json
child segment (obj d) = lookup d segment
child segment (arr xs) =
    if is_number segment then get_elem? (items xs) (to_number 0 (codes segment)) else none
child segment _ = none

-- the loop of `resolve`, from the value reached
unfoldable pub walk : List String → Json → Resolution
walk [] current = found_value current
walk (segment ∷ rest) current = elim (child segment current) [
  | none ↦ missing
  | some v ↦ walk rest v
]

-- `resolve`
abbrev pub resolve : ObservationPath → JsonDict → Resolution
resolve path context = walk path.segments (obj context)
