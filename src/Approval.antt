-- ===== src/Approval.antt =====
-- packages/actionwitness_core/src/actionwitness_core/benchmarks/approval.py. The instant of an approval
-- is a number of ticks, already in UTC; the digest is a parameter.
pub mod Partition
pub mod Accepted
pub mod Freezing
pub mod Decisions
use actionwitness.Prelude.{
  ℕ, suc, String, string_eq, nat_eq, ◌==◌, Bool, true, false, not, ◌&&◌, ◌||◌, List, [], ◌∷◌,
  Option, none, some, leb, ltb, length, get_elem?, any, all, if◌then◌else◌,
}
use actionwitness.Prelude.Int.{ℤ, pos, negsuc}
use actionwitness.Prelude.Sort.{sort_by}
use actionwitness.Prelude.Text.{codes}
use actionwitness.Cases.Fixture.{strip_prefix}
use actionwitness.Evidence.{EventActor, human}
use actionwitness.Security.Outcome.{Outcome, done, value_error, ◌>>=◌}
use actionwitness.Security.Canonical.{Doubles, content_hash}
use actionwitness.Intents.{
  IntentVariant, CandidateVariants, candidates_document, has_length, max_intent_variant_chars,
}

abbrev is_hex_digit : ℕ → Bool
is_hex_digit c = (leb 48 c && leb c 57) || (leb 97 c && leb c 102)

is_digest : Option String → Bool
is_digest none = false
is_digest (some digits) = (length (codes digits) == 64) && all is_hex_digit (codes digits)

-- `ContentHash`
unfoldable pub is_content_hash : String → Bool
unfolding is_digest
is_content_hash text = is_digest (strip_prefix (codes "sha256:") text)

-- `VariantApproval`
pub record VariantApproval : Type 0 where
  pub candidates_fingerprint : String
  pub approved_indices : List ℕ
  pub actor : EventActor
  pub reviewer : String
  pub approved_at : ℕ
  pub note : String

abbrev is_human : EventActor → Bool
is_human human = true
is_human _ = false

-- `len(set(xs)) == len(xs)`
abbrev pub has_no_repeat : List ℕ → Bool
has_no_repeat [] = true
has_no_repeat (n ∷ ns) = not (any (λ m. m == n) ns) && has_no_repeat ns

-- `xs == ys`
abbrev pub same_numbers : List ℕ → List ℕ → Bool
same_numbers [] [] = true
same_numbers (n ∷ ns) (m ∷ ms) = (n == m) && same_numbers ns ms
same_numbers _ _ = false

-- the types of the fields, and `VariantApproval._a_human_approved_a_definite_set`
unfoldable pub is_sound_approval : VariantApproval → Bool
is_sound_approval approval =
    is_content_hash approval.candidates_fingerprint
    && has_length 1 128 approval.reviewer
    && has_length 0 500 approval.note
    && is_human approval.actor
    && has_no_repeat approval.approved_indices
    && same_numbers approval.approved_indices (sort_by leb approval.approved_indices)

-- `Annotated[int, Field(ge=0)]` of each index
unfoldable pub natural_indices : List ℤ → Outcome (List ℕ)
natural_indices [] = done []
natural_indices (negsuc n ∷ is) = value_error
natural_indices (pos n ∷ is) = do ns ← natural_indices is; done (n ∷ ns)

-- `ApprovedVariants`
pub record ApprovedVariants : Type 0 where
  pub candidates : CandidateVariants
  pub approval : VariantApproval

-- an element before those that follow it, if there are all of them
abbrev pub add_picked {ℓ} : {A : Type ℓ} → Option A → Option (List A) → Option (List A)
add_picked (some x) (some rest) = some (x ∷ rest)
add_picked (some x) none = none
add_picked none rest = none

-- `tuple(xs[index] for index in indices)`, with none for an `IndexError`
unfoldable pub pick {ℓ} : {A : Type ℓ} → List A → List ℕ → Option (List A)
pick xs [] = some []
pick xs (n ∷ ns) = add_picked (get_elem? xs n) (pick xs ns)

-- `index in indices`
abbrev pub is_index : List ℕ → ℕ → Bool
is_index indices index = any (λ n. n == index) indices

-- the elements of the list whose index, counted from the first argument, is not in the set
unfoldable pub not_in_from {ℓ} : {A : Type ℓ} → ℕ → List A → List ℕ → List A
not_in_from index [] indices = []
not_in_from index (x ∷ xs) indices =
    let rest = not_in_from (suc index) xs indices in
    if is_index indices index then rest else x ∷ rest

-- `ApprovedVariants.approved`
abbrev pub approved : ApprovedVariants → Option (List IntentVariant)
approved set = pick set.candidates.variants set.approval.approved_indices

-- `ApprovedVariants.rejected`
abbrev pub rejected : ApprovedVariants → List IntentVariant
rejected set = not_in_from 0 set.candidates.variants set.approval.approved_indices

-- `FrozenVariantSet`
pub record FrozenVariantSet : Type 0 where
  pub canonical_intent : String
  pub variants : List IntentVariant
  pub approval : VariantApproval

-- the frozen set of what was picked
abbrev pub freeze_picked :
    ApprovedVariants → Option (List IntentVariant) → Option (Outcome FrozenVariantSet)
freeze_picked set none = none
freeze_picked set (some variants) = some (
    if has_length 1 max_intent_variant_chars set.candidates.canonical_intent
    then done (record {
      canonical_intent = set.candidates.canonical_intent;
      variants = variants;
      approval = set.approval;
    })
    else value_error)

-- `freeze`, with none for an `IndexError`
unfoldable pub freeze : ApprovedVariants → Option (Outcome FrozenVariantSet)
freeze set = freeze_picked set (approved set)

module _ (doubles : Doubles) (sha256_hex : String → String) where
  -- `fingerprint`
  abbrev pub fingerprint : CandidateVariants → Outcome String
  fingerprint candidates = content_hash doubles sha256_hex (candidates_document candidates)

  -- `ApprovedVariants._the_approval_matches_this_set`, the fingerprint computed first
  unfoldable pub matches_set : String → ApprovedVariants → Bool
  matches_set expected set =
      (set.approval.candidates_fingerprint == expected)
      && all (λ index. ltb index (length set.candidates.variants)) set.approval.approved_indices

  -- `ApprovedVariants(…)`
  unfoldable pub bind_approval : CandidateVariants → VariantApproval → Outcome ApprovedVariants
  bind_approval candidates approval = do
    expected ← fingerprint candidates
    let set : ApprovedVariants = record { candidates = candidates; approval = approval } in
        if matches_set expected set then done set else value_error

  -- `approve`
  unfoldable pub approve :
      CandidateVariants → List ℤ → String → ℕ → String → EventActor → Outcome ApprovedVariants
  approve candidates indices reviewer approved_at note actor = do
    hash ← fingerprint candidates
    numbers ← natural_indices indices
    let approval : VariantApproval = record {
      candidates_fingerprint = hash;
      approved_indices = numbers;
      actor = actor;
      reviewer = reviewer;
      approved_at = approved_at;
      note = note;
    } in
        if is_sound_approval approval then bind_approval candidates approval else value_error
