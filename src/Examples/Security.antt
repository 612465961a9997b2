-- ===== src/Examples/Security.antt =====
-- Summaries, redaction, canonical text and diffs.
use actionwitness.Paths.{ObservationPath, resolve, walk, child, found_value}
use actionwitness.Effects.Fragments.{Keeps, fragment_of, is_leaf, effect_context-Keeps}
use actionwitness.Effects.{effect_context, graft_all, graft}
use actionwitness.Prelude.{
  ℕ, ◌≡◌, ◌≢◌, ◌≤◌, ◌<◌, ◌↔◌, refl, String, Bool, true, false, ◌||◌, List, [], ◌∷◌, Option, none,
  some, if◌then◌else◌, ◌==◌, string_eq, eq_iff, arith, Bool-cases, inl, inr, sym, subst, ◌⊎◌,
}
use actionwitness.Prelude.Int.{ℤ, pos, int_eq}
use actionwitness.Json.{Json, str, obj, number, JsonDict, dict, lookup, deep_equal}
use actionwitness.Security.Limits.{TruncatedText, bounded_summary}
use actionwitness.Security.Limits.Bounds.{IsSummary, bounded_summary-IsSummary}
use actionwitness.Security.Redaction.{RedactionPolicy, match, redact_at, redact}
use actionwitness.Security.Redaction.Matching.{Selects, match_iff}
use actionwitness.Security.Redaction.Fixed.{IsRedacted, redact_at-IsRedacted_iff}
use actionwitness.Security.Canonical.{Doubles, encode, document_content_hash, done}
use actionwitness.Security.Canonical.Members.{encode-lookup}
use actionwitness.Security.Canonical.Hashes.{document_content_hash-lookup}
use actionwitness.Diff.{equal, diff_states, has_unrepresentable}
use actionwitness.Diff.Complete.{diff_states-equal}
use actionwitness.Diff.Spelling.{Denotes, equal-texts}
use actionwitness.Assertions.{Decimals}
use actionwitness.Examples.Data.{integers}

bounded_summary_example :
    (summary : TruncatedText) × (bounded_summary "a value of the cart" (pos 15) ≡ some summary)
    × IsSummary "a value of the cart" 15 summary
bounded_summary_example = bounded_summary-IsSummary "a value of the cart" 15

match_example :
    (match ("**" ∷ "email" ∷ []) ("customer" ∷ "email" ∷ []) ≡ true)
    ↔ Selects ("**" ∷ "email" ∷ []) ("customer" ∷ "email" ∷ [])
match_example = match_iff ("**" ∷ "email" ∷ []) ("customer" ∷ "email" ∷ [])

abbrev customer : Json
customer = obj (dict (("email", str "a@b.c") ∷ ("visits", number 2) ∷ []))

abbrev note_policy : RedactionPolicy
note_policy = record {
  patterns = record { segments = "*" ∷ "email" ∷ [] } ∷ [];
  apply_defaults = false;
}

redact_example :
    ((redact_at (λ s. s) note_policy ("customer" ∷ []) customer ≡ customer)
      ↔ IsRedacted (λ s. s) note_policy ("customer" ∷ []) customer)
    × IsRedacted
        (λ s. s)
        note_policy
        ("customer" ∷ [])
        (redact_at (λ s. s) note_policy ("customer" ∷ []) customer)
    × (redact_at
          (λ s. s)
          note_policy
          ("customer" ∷ [])
          (redact_at (λ s. s) note_policy ("customer" ∷ []) customer)
        ≡ redact_at (λ s. s) note_policy ("customer" ∷ []) customer)
redact_example = redact_at-IsRedacted_iff (λ s. s) note_policy ("customer" ∷ []) customer

-- the one test case for a redacted key
redact_customer :
    redact_at (λ s. s) note_policy ("customer" ∷ []) customer
    ≡ obj (dict (("email", str "[REDACTED]") ∷ ("visits", number 2) ∷ []))
unfolding redact_at actionwitness.Security.Redaction.selects actionwitness.Security.Redaction.match
    actionwitness.Prelude.any
redact_customer = refl

-- doubles that keep every integer, and have its value as their one digit
abbrev pub doubles : Doubles
doubles = record { keeps = λ i. some true; shortest = λ m e. (7 ∷ [], pos 0) }

abbrev here : JsonDict
here = dict (("total", number 7) ∷ ("currency", str "EUR") ∷ [])

abbrev there : JsonDict
there = dict (("currency", str "EUR") ∷ ("total", number 7) ∷ [])

same_members : (k : String) → lookup here k ≡ lookup there k
same_members k = elim (Bool-cases ("total" == k)) [
  | inl e ↦ subst (λ j. lookup here j ≡ lookup there j) ((string_eq.same_iff "total" k).0 e) refl
  | inr e ↦ rw e refl
]

encode-lookup_example : encode doubles 0 (obj here) ≡ encode doubles 0 (obj there)
encode-lookup_example =
    encode-lookup doubles 0 here there (refl, (refl, tt)) (refl, (refl, tt)) same_members

encode_here : encode doubles 0 (obj there) ≡ done "{\"currency\":\"EUR\",\"total\":7}"
unfolding actionwitness.Security.Canonical.encode_value
    actionwitness.Security.Canonical.encode_string actionwitness.Security.Canonical.encode_number
    actionwitness.Security.Canonical.place actionwitness.Security.Canonical.piece
    actionwitness.Security.Canonical.join_members actionwitness.Prelude.Sort.sort_by
    actionwitness.Prelude.Text.lex_leb actionwitness.Prelude.Text.concat
    actionwitness.Prelude.Text.show actionwitness.Prelude.any
encode_here = refl

abbrev stored : JsonDict
stored =
    dict (("total", number 7) ∷ ("content_hash", str "sha256:0") ∷ ("currency", str "EUR") ∷ [])

same_but_hash : (k : String) → k ≢ "content_hash" → lookup here k ≡ lookup stored k
same_but_hash k other =
    ground (arith, eq_iff "total" k, eq_iff "currency" k, eq_iff "content_hash" k)

document_content_hash_example :
    document_content_hash doubles (λ text. text) here
    ≡ document_content_hash doubles (λ text. text) stored
document_content_hash_example =
    document_content_hash-lookup doubles (λ text. text) here stored (refl, (refl, tt))
      (refl, (refl, (refl, tt))) same_but_hash

abbrev state : JsonDict
state = dict (("target", obj here) ∷ [])

abbrev later : JsonDict
later = dict (("target", obj (dict (("total", number 8) ∷ []))) ∷ [])

nameable : (has_unrepresentable state || has_unrepresentable later) ≡ false
unfolding has_unrepresentable actionwitness.Paths.is_valid_segment actionwitness.Paths.is_segment
    actionwitness.Prelude.all actionwitness.Paths.before_newline
nameable = refl

diff_states-equal_example :
    (diff_states integers (λ m e. m) doubles 120 state later ≡ done [])
    ↔ (equal integers (λ m e. m) (obj state) (obj later) ≡ true)
diff_states-equal_example = diff_states-equal integers (λ m e. m) doubles 120 state later nameable

state-nameable : has_unrepresentable state ≡ false
unfolding has_unrepresentable actionwitness.Paths.is_valid_segment actionwitness.Paths.is_segment
    actionwitness.Prelude.all actionwitness.Paths.before_newline
state-nameable = refl

-- decimals that read two spellings of the number 20
abbrev spellings : Decimals ℤ
spellings = record {
  of_int = λ i. i;
  of_text = λ s. if s == "20.00" || s == "20.0" then some (pos 20) else none;
  is_finite = λ i. true;
  minus = integers.minus;
  equals = integers.equals;
}

abbrev plain : String
plain = "20.00"

abbrev short : String
short = "20.0"

equal-texts_example :
    ((d e : ℤ)
      → Denotes spellings plain d
      → Denotes spellings short e
      → equal spellings (λ m e. m) (str plain) (str short) ≡ spellings.equals d e)
    × (((d : ℤ) → ¬ Denotes spellings plain d) ⊎ ((d : ℤ) → ¬ Denotes spellings short d)
        → (equal spellings (λ m e. m) (str plain) (str short) ≡ true) ↔ (plain ≡ short))
equal-texts_example = equal-texts spellings (λ m e. m) plain short

-- a padded spelling of the same number is another text
padded_differs : equal spellings (λ m e. m) (str "20.0") (str "020.0") ≡ false
unfolding equal deep_equal actionwitness.Prelude.all
padded_differs = refl

respelled_equal : equal spellings (λ m e. m) (str "20.0") (str "20.00") ≡ true
unfolding equal actionwitness.Prelude.all
respelled_equal = refl

abbrev order_total : ObservationPath
order_total = record { segments = "target" ∷ "total" ∷ [] }

abbrev whole_target : ObservationPath
whole_target = record { segments = "target" ∷ [] }

effect_context_example :
    let paths = order_total ∷ [] in
    let whole_paths = order_total ∷ whole_target ∷ [] in
    let fragment = fragment_of (λ s. s) none paths state in
    (effect_context (λ s. s) none paths (some state) ≡ some fragment)
    × ((resolve order_total state).found ≡ false → fragment ≡ fragment_of (λ s. s) none [] state)
    × ((resolve order_total state).found ≡ true
        → (path : List String) (leaf : Json) → is_leaf leaf ≡ true
        → walk path (redact (λ s. s) (resolve order_total state).value none) ≡ found_value leaf
        → walk ("target" ∷ "total" ∷ path) (obj fragment) ≡ found_value leaf)
    × Keeps fragment (fragment_of (λ s. s) none whole_paths state)
effect_context_example =
    effect_context-Keeps (λ s. s) none "target" ("total" ∷ []) [] (whole_target ∷ []) state

-- a deeper declared path keeps the rest of a shallower one out of the fragment
deeper_path_first :
    effect_context (λ s. s) none (order_total ∷ whole_target ∷ []) (some state)
    ≡ some (dict (("target", obj (dict (("total", number 7) ∷ []))) ∷ []))
unfolding graft_all graft walk child actionwitness.Security.Redaction.redact_at
deeper_path_first = refl
