-- ===== src/Security/Canonical/Strings.antt =====
-- The strings of packages/actionwitness_core/src/actionwitness_core/security/canonical.py: their escapes,
-- and the order of member names.
use Prim.Native.Nat.{◌/◌, ◌%◌}
use Prim.Native.Char.{Char, code}
use Prim.Native.String.{◌++◌ as append}
use actionwitness.Prelude.{
  ℕ, ◌+◌, ◌-◌, String, string_eq, nat_eq, ◌==◌, Bool, ◌&&◌, List, [], ◌∷◌, if◌then◌else◌, leb, ltb,
  any,
}
use actionwitness.Prelude.Text.{codes, show, concat}
use actionwitness.Kernel.{canonicalization_failed}
use actionwitness.Security.Outcome.{Outcome, done, refused}

abbrev pub is_surrogate : ℕ → Bool
is_surrogate c = leb 55296 c && leb c 57343

abbrev hex_digit : ℕ → String
hex_digit n =
    if n == 10
    then "a"
    else if n == 11
    then "b"
    else if n == 12
    then "c"
    else if n == 13
    then "d"
    else if n == 14
    then "e"
    else if n == 15
    then "f"
    else show n

-- the piece that `_encode_string` appends for a character: `_SHORT_ESCAPES`, then `\uXXXX`
unfoldable pub piece : Char → String
piece c =
    if code c == b'"'
    then "\\\""
    else if code c == 92
    then "\\\\"
    else if code c == 8
    then "\\b"
    else if code c == 12
    then "\\f"
    else if code c == 10
    then "\\n"
    else if code c == 13
    then "\\r"
    else if code c == 9
    then "\\t"
    else if ltb (code c) 32
    then concat ("\\u00" ∷ hex_digit (code c / 16) ∷ hex_digit (code c % 16) ∷ [])
    else String.◌∷◌ c ""

abbrev pub pieces : String → String
pieces String.[] = ""
pieces (String.◌∷◌ c text) = append (piece c) (pieces text)

-- `_encode_string`
unfoldable pub encode_string : String → Outcome String
encode_string value =
    if any is_surrogate (codes value)
    then refused canonicalization_failed
    else done (append "\"" (append (pieces value) "\""))

-- the UTF-16 code units of a character
abbrev pub units : ℕ → List ℕ → List ℕ
units c rest =
    if ltb c 65536
    then c ∷ rest
    else (55296 + (c - 65536) / 1024) ∷ (56320 + (c - 65536) % 1024) ∷ rest

-- `_sort_key`: bytes in big-endian order compare as their units do
abbrev pub utf16 : List ℕ → List ℕ
utf16 [] = []
utf16 (c ∷ cs) = units c (utf16 cs)
