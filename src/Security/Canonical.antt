-- ===== src/Security/Canonical.antt =====
-- packages/actionwitness_core/src/actionwitness_core/security/canonical.py: the canonical text of a JSON
-- value and its hashes. Strings and Numbers have the texts of those.
mod Strings
mod Numbers
pub mod Members
pub mod Hashes
pub mod Texts
unfoldable pub use Strings.*
unfoldable pub use Numbers.*
pub use actionwitness.Security.Outcome.{Outcome, done, refused, overflow, value_error, ◌>>=◌}
use Prim.Native.Nat.{◌/◌, ◌%◌}
use Prim.Native.Char.{Char, code}
use Prim.Native.String
use Prim.Native.String.{◌++◌ as append}
use actionwitness.Prelude.{
  ℕ, zero, suc, ◌+◌, ◌-◌, String, string_eq, nat_eq, ◌==◌, Bool, true, false, not, ◌&&◌, ◌||◌, List,
  [], ◌∷◌, Option, none, some, if◌then◌else◌, leb, ltb, length, any,
}
use actionwitness.Prelude.Int.{ℤ, pos, negsuc}
use actionwitness.Prelude.Sort.{sort_by}
use actionwitness.Prelude.Text.{codes, show, concat, lex_leb}
use actionwitness.Kernel.{
  CoreErrorCode, canonicalization_failed, number_not_representable, resource_limit_exceeded,
}
use actionwitness.Json.{
  Json, null, bool, int, float, str, arr, obj, JsonList, nil, cons, JsonDict, end, entry,
}

-- `MAX_CANONICAL_DEPTH`
abbrev pub max_canonical_depth : ℕ
max_canonical_depth = 100

abbrev pub Encoded : Type 0
Encoded = String × Outcome String

abbrev pub encoded_leb : Encoded → Encoded → Bool
encoded_leb (key, text) (key', text') = lex_leb (utf16 (codes key)) (utf16 (codes key'))

-- the member of an object, its value encoded first
abbrev member_text : String → Outcome String → Outcome String
member_text key value = do
  encoded_value ← value
  encoded_key ← encode_string key
  done (concat (encoded_key ∷ ":" ∷ encoded_value ∷ []))

-- the texts in order, joined by commas, up to the first that is refused
unfoldable pub join_members : List Encoded → Outcome String
join_members [] = done ""
join_members ((key, text) ∷ []) = text
join_members ((key, text) ∷ other ∷ rest) = do
  first ← text
  others ← join_members (other ∷ rest)
  done (concat (first ∷ "," ∷ others ∷ []))

abbrev in_braces : Outcome String → Outcome String
in_braces members = do text ← members; done (concat ("{" ∷ text ∷ "}" ∷ []))

abbrev in_brackets : Outcome String → Outcome String
in_brackets items = do text ← items; done (concat ("[" ∷ text ∷ "]" ∷ []))

-- the text of a value, unless it is nested too deep
abbrev at_depth : ℕ → Outcome String → Outcome String
at_depth depth text =
    if ltb max_canonical_depth depth then refused resource_limit_exceeded else text

-- `{key: value for key, value in document.items() if key != "content_hash"}`
abbrev pub without_hash : JsonDict → JsonDict
without_hash end = end
without_hash (entry key value d) =
    let rest = without_hash d in if key == "content_hash" then rest else entry key value rest

module _ (doubles : Doubles) where
  -- `_encode` without its test of the depth
  unfoldable mutual
    pub encode_value : ℕ → Json → Outcome String
    encode_value depth null = done "null"
    encode_value depth (bool true) = done "true"
    encode_value depth (bool false) = done "false"
    encode_value depth (int i) = check_integer doubles i >>= λ _. done (encode_number doubles i 0)
    encode_value depth (float m e) = done (encode_number doubles m e)
    encode_value depth (str s) = encode_string s
    encode_value depth (arr xs) = in_brackets (encode_items (suc depth) xs)
    encode_value depth (obj d) =
        in_braces (join_members (sort_by encoded_leb (encode_entries (suc depth) d)))

    pub encode_items : ℕ → JsonList → Outcome String
    encode_items depth nil = done ""
    encode_items depth (cons x nil) = at_depth depth (encode_value depth x)
    encode_items depth (cons x (cons y xs)) = do
      first ← at_depth depth (encode_value depth x)
      others ← encode_items depth (cons y xs)
      done (concat (first ∷ "," ∷ others ∷ []))

    pub encode_entries : ℕ → JsonDict → List Encoded
    encode_entries depth end = []
    encode_entries depth (entry key value d) =
        (key, member_text key (at_depth depth (encode_value depth value))) ∷ encode_entries depth d

  -- `_encode`
  abbrev pub encode : ℕ → Json → Outcome String
  encode depth value = at_depth depth (encode_value depth value)

  -- `canonical_text`
  abbrev pub canonical_text : Json → Outcome String
  canonical_text value = encode 0 value

  -- `sha256_hex` of a text in UTF-8 is a parameter: `hashlib` computes it
  module _ (sha256_hex : String → String) where
    -- `content_hash`
    abbrev pub content_hash : Json → Outcome String
    content_hash value = do text ← canonical_text value; done (append "sha256:" (sha256_hex text))

    -- `document_content_hash` of a mapping
    abbrev pub document_content_hash : JsonDict → Outcome String
    document_content_hash document = content_hash (obj (without_hash document))
