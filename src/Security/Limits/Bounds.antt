-- ===== src/Security/Limits/Bounds.antt =====
-- What a bounded summary keeps to.
use Prim.Native.String.{◌++◌ as append}
use text.Mathlib.TextLemmas.{nil-append, cons-append}
use actionwitness.Prelude.{
  ℕ, zero, suc, ◌+◌, ◌-◌, ◌≤◌, ◌<◌, ◌≡◌, refl, String, true, false, some, leb, arith, ap,
  Bool-cases, inl, inr, ◌∙◌,
}
use actionwitness.Prelude.Int.{pos}
use actionwitness.Security.Limits.{
  TruncatedText, text_length, take_text, cut, bounded_summary, truncation_marker,
}

text_length-append : (s t : String) → text_length (append s t) ≡ text_length s + text_length t
text_length-append String.[] t = ap text_length (nil-append t) ∙ omega arith
text_length-append (String.◌∷◌ c s) t =
    ap text_length (cons-append c s t) ∙ ap suc (text_length-append s t) ∙ omega arith

text_length-take_text :
    (n : ℕ) (text : String) → n ≤ text_length text → text_length (take_text n text) ≡ n
unfolding take_text
text_length-take_text zero text h = refl
text_length-take_text (suc n) String.[] h = ground arith
text_length-take_text (suc n) (String.◌∷◌ c text) h =
    ap suc (text_length-take_text n text (omega arith))

-- what a summary of a text within a limit says
abbrev pub IsSummary : String → ℕ → TruncatedText → Type 0
IsSummary value limit summary =
    (text_length summary.text ≤ limit)
    × (summary.original_length ≡ text_length value)
    × (summary.truncated ≡ false → summary.text ≡ value)
    × (summary.truncated ≡ true → (limit < text_length value) × (text_length summary.text ≡ limit))

cut-IsSummary : (value : String) (limit : ℕ) → IsSummary value limit (cut value limit)
cut-IsSummary value limit = elim (Bool-cases (leb (text_length value) limit)) [
  | inl e ↦ rw e (ground arith, refl, λ _. refl, λ h. absurd (cc h))
  | inr e ↦ elim (Bool-cases (leb limit (text_length truncation_marker))) [
    | inl f ↦
        let kept = text_length-take_text limit value (ground arith) in
        rw (e, f) (ground arith, refl, λ h. absurd (cc h), λ _. (ground arith, kept))
    | inr f ↦
        let kept =
          text_length-take_text (limit - text_length truncation_marker) value (ground arith) in
        let full : text_length
              (append (take_text (limit - text_length truncation_marker) value) truncation_marker)
            ≡ limit =
          text_length-append _ truncation_marker ∙ ground arith in
        rw (e, f) (ground arith, refl, λ h. absurd (cc h), λ _. (ground arith, full))
  ]
]

-- A summary within a limit that is not negative is always made; it is never longer than the limit, keeps the original length, is the text itself if it says that nothing was cut, and otherwise uses the limit up for a text that is longer.
pub bounded_summary-IsSummary :
    (value : String) (limit : ℕ)
    → (summary : TruncatedText) × (bounded_summary value (pos limit) ≡ some summary)
      × IsSummary value limit summary
unfolding bounded_summary
bounded_summary-IsSummary value limit = (cut value limit, refl, cut-IsSummary value limit)
