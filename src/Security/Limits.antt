-- ===== src/Security/Limits.antt =====
-- packages/actionwitness_core/src/actionwitness_core/security/limits.py. A summary is absent where the
-- code raises a `ValueError`.
pub mod Bounds
use Prim.Native.String
use Prim.Native.String.{◌++◌ as append}
use actionwitness.Prelude.{
  ℕ, zero, suc, ◌-◌, String, Bool, true, false, Option, none, some, if◌then◌else◌, leb, ltb, length,
}
use actionwitness.Prelude.Int.{ℤ, pos, negsuc}
use actionwitness.Prelude.Text.{codes}

abbrev pub max_tool_result_chars : ℕ
max_tool_result_chars = 1500

abbrev pub max_findings_result_chars : ℕ
max_findings_result_chars = 4000

abbrev pub max_finding_value_chars : ℕ
max_finding_value_chars = 120

abbrev pub max_annotation_chars : ℕ
max_annotation_chars = 500

-- `TRUNCATION_MARKER`
abbrev pub truncation_marker : String
truncation_marker = "…[truncated]"

-- `TruncatedText`
pub record TruncatedText : Type 0 where
  pub text : String
  pub truncated : Bool
  pub original_length : ℕ

-- `len(text)`
abbrev pub text_length : String → ℕ
text_length text = length (codes text)

-- `text[:limit]`
unfoldable pub take_text : ℕ → String → String
take_text zero text = ""
take_text (suc n) String.[] = ""
take_text (suc n) (String.◌∷◌ c text) = String.◌∷◌ c (take_text n text)

abbrev summary_of : String → Bool → ℕ → TruncatedText
summary_of text truncated original_length = record {
  text = text;
  truncated = truncated;
  original_length = original_length;
}

abbrev cut : String → ℕ → TruncatedText
cut value limit =
    if leb (text_length value) limit
    then summary_of value false (text_length value)
    else if leb limit (text_length truncation_marker)
    then summary_of (take_text limit value) true (text_length value)
    else summary_of
        (append (take_text (limit - text_length truncation_marker) value) truncation_marker) true
        (text_length value)

-- `bounded_summary`
unfoldable pub bounded_summary : String → ℤ → Option TruncatedText
bounded_summary value (negsuc n) = none
bounded_summary value (pos limit) = some (cut value limit)

-- `ResourceLimits`
pub record ResourceLimits : Type 0 where
  pub tool_result_chars : ℕ
  pub findings_result_chars : ℕ
  pub finding_value_chars : ℕ
  pub annotation_chars : ℕ
  pub max_events_per_run : Option ℕ
  pub max_payload_bytes : Option ℕ

-- the limits that `ResourceLimits()` makes
abbrev pub default_limits : ResourceLimits
default_limits = record {
  tool_result_chars = max_tool_result_chars;
  findings_result_chars = max_findings_result_chars;
  finding_value_chars = max_finding_value_chars;
  annotation_chars = max_annotation_chars;
  max_events_per_run = none;
  max_payload_bytes = none;
}

abbrev is_over : Option ℕ → ℕ → Bool
is_over none n = false
is_over (some ceiling) n = ltb ceiling n

-- `ResourceLimits.exceeds_events`
abbrev pub exceeds_events : ResourceLimits → ℕ → Bool
exceeds_events limits count = is_over limits.max_events_per_run count

-- `ResourceLimits.exceeds_payload`
abbrev pub exceeds_payload : ResourceLimits → ℕ → Bool
exceeds_payload limits size_bytes = is_over limits.max_payload_bytes size_bytes
