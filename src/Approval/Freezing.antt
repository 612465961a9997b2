-- ===== src/Approval/Freezing.antt =====
-- What `approve` and `freeze` let into a manifest.
use actionwitness.Prelude.{
  ℕ, ◌+◌, ◌≡◌, refl, sym, ap, ◌∙◌, subst, String, Bool, true, List, map, some, ltb, length,
  get_elem?, filter, all, arith,
}
use actionwitness.Prelude.Int.{ℤ, pos}
use actionwitness.Evidence.{EventActor, human}
use actionwitness.Security.Outcome.{done, done-injective, >>=-done, validated}
use actionwitness.Security.Canonical.{Doubles}
use actionwitness.Json.{JsonDict}
use actionwitness.Intents.{
  Unicode, IntentVariant, CandidateVariants, read_variants, is_candidate_set, validate_candidates,
  has_length, min_intent_variant_chars, max_intent_variant_chars,
}
use actionwitness.Approval.{
  VariantApproval, is_sound_approval, ApprovedVariants, rejected, FrozenVariantSet, freeze_picked,
  freeze, fingerprint, approved, approve,
}
use actionwitness.Approval.Partition.{Increasing, pick-not_in_from, get_elem?-pick}
use actionwitness.Approval.Accepted.{is_sound_approval-Increasing, approve-IsApprovalOf}

-- The approval of a frozen set, the set's variants and the rejected ones, against the candidates.
abbrev pub IsSealedFrom : CandidateVariants → ApprovedVariants → FrozenVariantSet → Type 0
IsSealedFrom candidates set frozen =
    (frozen.canonical_intent ≡ candidates.canonical_intent)
    × (frozen.approval.actor ≡ human)
    × Increasing frozen.approval.approved_indices
    × (map some frozen.variants
        ≡ map (get_elem? candidates.variants) frozen.approval.approved_indices)
    × ((p : IntentVariant → Bool)
        → length (filter p frozen.variants) + length (filter p (rejected set))
          ≡ length (filter p candidates.variants))

freeze-picked :
    (set : ApprovedVariants) {variants : List IntentVariant}
    → approved set ≡ some variants
    → has_length min_intent_variant_chars max_intent_variant_chars set.candidates.canonical_intent
      ≡ true
    → freeze set
      ≡ some (
          done (record {
            canonical_intent = set.candidates.canonical_intent;
            variants = variants;
            approval = set.approval;
          }))
unfolding freeze
freeze-picked set picked sized =
    let wide : has_length 1 max_intent_variant_chars set.candidates.canonical_intent ≡ true =
      ground arith in
    ap (freeze_picked set) picked ∙ rw wide refl

freeze-bound :
    (set : ApprovedVariants)
    → has_length min_intent_variant_chars max_intent_variant_chars set.candidates.canonical_intent
      ≡ true
    → is_sound_approval set.approval ≡ true
    → all (λ index. ltb index (length set.candidates.variants)) set.approval.approved_indices ≡ true
    → (frozen : FrozenVariantSet) × (freeze set ≡ some (done frozen))
      × (frozen.approval ≡ set.approval)
      × IsSealedFrom set.candidates set frozen
freeze-bound set sized sound high =
    let (by_human, up) = is_sound_approval-Increasing set.approval sound in
    let (variants, picked, parts) =
      pick-not_in_from set.candidates.variants set.approval.approved_indices up high in
    (
      record {
        canonical_intent = set.candidates.canonical_intent;
        variants = variants;
        approval = set.approval;
      },
      freeze-picked set picked sized,
      refl,
      (
        refl,
        by_human,
        up,
        sym (get_elem?-pick set.candidates.variants set.approval.approved_indices picked),
        parts,
      ),
    )

validate_candidates-length :
    (unicode : Unicode) (intent : String) (documents : List JsonDict)
    {candidates : CandidateVariants}
    → validate_candidates unicode intent documents ≡ done candidates
    → has_length min_intent_variant_chars max_intent_variant_chars candidates.canonical_intent
      ≡ true
unfolding validate_candidates is_candidate_set
validate_candidates-length unicode intent documents h =
    let (variants, rest, e) = >>=-done _ (read_variants unicode documents) h in
    let given : CandidateVariants = record { canonical_intent = intent; variants = variants } in
    let (sound, same) = validated (is_candidate_set unicode given) (done given) rest in
    subst
      (λ c.
        has_length min_intent_variant_chars max_intent_variant_chars
          (CandidateVariants.canonical_intent c)
        ≡ true)
      (done-injective same) (ground arith)

module _ (doubles : Doubles) (sha256_hex : String → String) where
  -- What `approve` accepts of validated candidates can be frozen, without an `IndexError`: a human decided, the fingerprint is that of these candidates, and the indices are those given, in increasing order. The frozen variants are the candidates at those indices, and for every test the frozen and the rejected variants that pass it are together as many as the candidates that do.
  pub freeze-approve :
      (unicode : Unicode) (intent : String) (documents : List JsonDict) (indices : List ℤ)
      (reviewer : String) (approved_at : ℕ) (note : String) (actor : EventActor)
      (candidates : CandidateVariants) (set : ApprovedVariants)
      → validate_candidates unicode intent documents ≡ done candidates
      → approve doubles sha256_hex candidates indices reviewer approved_at note actor ≡ done set
      → (frozen : FrozenVariantSet) × (freeze set ≡ some (done frozen))
        × (actor ≡ human)
        × (fingerprint doubles sha256_hex candidates ≡ done frozen.approval.candidates_fingerprint)
        × (map pos frozen.approval.approved_indices ≡ indices)
        × IsSealedFrom candidates set frozen
  freeze-approve unicode intent documents indices reviewer approved_at note actor candidates set v
        h =
      let (same, sound, reviewed, noted, by, given, hashed, high) =
        approve-IsApprovalOf doubles sha256_hex candidates indices reviewer approved_at note actor
          h in
      let sized = validate_candidates-length unicode intent documents v in
      let (frozen, made, kept, sealed) =
        freeze-bound set
          (subst
            (λ c.
              has_length min_intent_variant_chars max_intent_variant_chars
                (CandidateVariants.canonical_intent c)
              ≡ true)
            (sym same) sized)
          sound
          (subst
            (λ c.
              all (λ index. ltb index (length (CandidateVariants.variants c)))
                set.approval.approved_indices
              ≡ true)
            (sym same) high) in
      (
        frozen,
        made,
        sym by ∙ (is_sound_approval-Increasing set.approval sound).0,
        hashed ∙ ap (λ a. done (VariantApproval.candidates_fingerprint a)) (sym kept),
        ap (λ a. map pos (VariantApproval.approved_indices a)) kept ∙ given,
        subst (λ c. IsSealedFrom c set frozen) same sealed,
      )
