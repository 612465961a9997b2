-- ===== src/Examples/Approvals.antt =====
-- A human's decision about two generated variants.
use actionwitness.Prelude.{
  ℕ, ◌≡◌, ◌↔◌, ◌+◌, true, refl, String, Bool, List, [], ◌∷◌, map, Option, none, some, length,
  get_elem?, filter,
}
use actionwitness.Prelude.Int.{pos}
use actionwitness.Evidence.{human}
use actionwitness.Json.{JsonDict, dict, str}
use actionwitness.Security.Outcome.{done, value_error}
use actionwitness.Intents.{
  Unicode, IntentVariant, VariantKind, CandidateVariants, validate_candidates,
}
use actionwitness.Approval.{
  VariantApproval, ApprovedVariants, FrozenVariantSet, fingerprint, approve, freeze,
  is_content_hash,
}
use actionwitness.Approval.Decisions.{IsDecision, approve_iff}
use actionwitness.Approval.Freezing.{IsSealedFrom, freeze-approve}
use actionwitness.Examples.Security.{doubles}

abbrev letters : Unicode
letters = record { category = λ c. "Ll"; strip = λ s. s; casefold = λ s. s }

abbrev digest : String → String
digest text = "0123456789abcdef0123456789abcdef0123456789abcdef0123456789abcdef"

abbrev generated : List JsonDict
generated =
    dict (("kind", str "paraphrased") ∷ ("text", str "cancel order seven") ∷ [])
    ∷ dict (("kind", str "ambiguous") ∷ ("text", str "undo my last order") ∷ [])
    ∷ []

abbrev candidates : CandidateVariants
candidates = record {
  canonical_intent = "cancel order 7";
  variants =
      record { kind = VariantKind.paraphrased; text = "cancel order seven" }
      ∷ record { kind = VariantKind.ambiguous; text = "undo my last order" }
      ∷ [];
}

abbrev decision : ApprovedVariants
decision = record {
  candidates = candidates;
  approval = record {
    candidates_fingerprint =
        "sha256:0123456789abcdef0123456789abcdef0123456789abcdef0123456789abcdef";
    approved_indices = 1 ∷ [];
    actor = human;
    reviewer = "r. lee";
    approved_at = 1000;
    note = "";
  };
}

generated-candidates : validate_candidates letters "cancel order 7" generated ≡ done candidates
unfolding validate_candidates actionwitness.Intents.read_variants actionwitness.Intents.read_variant
    actionwitness.Prelude.all actionwitness.Intents.is_plain_text actionwitness.Prelude.any
    actionwitness.Intents.is_candidate_set
generated-candidates = refl

candidates-decision :
    approve doubles digest candidates (pos 1 ∷ []) "r. lee" 1000 "" human ≡ done decision
unfolding approve actionwitness.Approval.bind_approval actionwitness.Security.Canonical.encode_value
    actionwitness.Security.Canonical.join_members actionwitness.Prelude.Sort.sort_by
    actionwitness.Prelude.Text.lex_leb actionwitness.Security.Canonical.encode_string
    actionwitness.Prelude.any actionwitness.Approval.natural_indices
    actionwitness.Approval.is_sound_approval actionwitness.Approval.is_content_hash
    actionwitness.Cases.Fixture.strip_prefix actionwitness.Prelude.all
    actionwitness.Approval.matches_set
candidates-decision = refl

freeze-approve_example :
    (frozen : FrozenVariantSet) × (freeze decision ≡ some (done frozen))
    × (human ≡ human)
    × (fingerprint doubles digest candidates ≡ done frozen.approval.candidates_fingerprint)
    × (map pos frozen.approval.approved_indices ≡ pos 1 ∷ [])
    × IsSealedFrom candidates decision frozen
freeze-approve_example =
    freeze-approve doubles digest letters "cancel order 7" generated (pos 1 ∷ []) "r. lee" 1000 ""
      human candidates decision generated-candidates candidates-decision

candidates-fingerprint :
    fingerprint doubles digest candidates
    ≡ done "sha256:0123456789abcdef0123456789abcdef0123456789abcdef0123456789abcdef"
unfolding actionwitness.Security.Canonical.encode_value
    actionwitness.Security.Canonical.join_members actionwitness.Prelude.Sort.sort_by
    actionwitness.Prelude.Text.lex_leb actionwitness.Security.Canonical.encode_string
    actionwitness.Prelude.any actionwitness.Prelude.all
candidates-fingerprint = refl

-- indices out of order are refused
unordered_indices :
    approve doubles digest candidates (pos 1 ∷ pos 0 ∷ []) "r. lee" 1000 "" human ≡ value_error
unfolding approve actionwitness.Approval.bind_approval actionwitness.Security.Canonical.encode_value
    actionwitness.Security.Canonical.join_members actionwitness.Prelude.Sort.sort_by
    actionwitness.Prelude.Text.lex_leb actionwitness.Security.Canonical.encode_string
    actionwitness.Prelude.any actionwitness.Approval.natural_indices
    actionwitness.Approval.is_sound_approval actionwitness.Approval.is_content_hash
    actionwitness.Cases.Fixture.strip_prefix actionwitness.Prelude.all
    actionwitness.Approval.matches_set
unordered_indices = refl

digest-IsContentHash :
    is_content_hash "sha256:0123456789abcdef0123456789abcdef0123456789abcdef0123456789abcdef" ≡ true
unfolding is_content_hash actionwitness.Cases.Fixture.strip_prefix actionwitness.Prelude.all
digest-IsContentHash = refl

approve_iff_example :
    ((set : ApprovedVariants) × (approve doubles digest candidates
          (pos 1 ∷ pos 0 ∷ [])
          "r. lee"
          1000
          ""
          human
        ≡ done set))
    ↔ IsDecision 2 (pos 1 ∷ pos 0 ∷ []) "r. lee" "" human
approve_iff_example =
    approve_iff doubles digest candidates
      "sha256:0123456789abcdef0123456789abcdef0123456789abcdef0123456789abcdef"
      candidates-fingerprint digest-IsContentHash (pos 1 ∷ pos 0 ∷ []) "r. lee" 1000 "" human
