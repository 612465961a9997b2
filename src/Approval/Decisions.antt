-- ===== src/Approval/Decisions.antt =====
-- Which decisions `approve` accepts.
use actionwitness.Prelude.{
  ℕ, ◌≡◌, ◌↔◌, refl, sym, beq_refl, string_eq, ◌∙◌, subst, String, true, false, List, [], ◌∷◌, map,
  leb, ltb, length, all, any, arith, nat_eq, ◌==◌,
}
use actionwitness.Prelude.Int.{ℤ, pos}
use actionwitness.Prelude.Sort.{sort_by, IsSorted, sort_by_of_IsSorted}
use actionwitness.Evidence.{EventActor, human}
use actionwitness.Security.Outcome.{done}
use actionwitness.Security.Canonical.{Doubles}
use actionwitness.Intents.{CandidateVariants, has_length}
use actionwitness.Approval.{
  VariantApproval, is_content_hash, is_sound_approval, natural_indices, ApprovedVariants,
  fingerprint, matches_set, bind_approval, approve, has_no_repeat, same_numbers,
}
use actionwitness.Approval.Partition.{Increasing}
use actionwitness.Approval.Accepted.{approve-IsApprovalOf, is_sound_approval-Increasing}

same_numbers_refl : (ns : List ℕ) → same_numbers ns ns ≡ true
same_numbers_refl [] = refl
same_numbers_refl (n ∷ ns) = ground (arith, same_numbers_refl ns)

weakly_above : (n : ℕ) (ns : List ℕ) → all (ltb n) ns ≡ true → all (leb n) ns ≡ true
unfolding all
weakly_above n [] h = refl
weakly_above n (m ∷ ns) h = ground (arith, weakly_above n ns (ground arith))

not_repeated : (n : ℕ) (ns : List ℕ) → all (ltb n) ns ≡ true → any (λ m. m == n) ns ≡ false
unfolding all any
not_repeated n [] h = refl
not_repeated n (m ∷ ns) h = ground (arith, not_repeated n ns (ground arith))

Increasing-IsSorted : (ns : List ℕ) → Increasing ns → IsSorted leb ns
Increasing-IsSorted [] up = tt
Increasing-IsSorted (n ∷ ns) (above, up) = (weakly_above n ns above, Increasing-IsSorted ns up)

Increasing-has_no_repeat : (ns : List ℕ) → Increasing ns → has_no_repeat ns ≡ true
Increasing-has_no_repeat [] up = refl
Increasing-has_no_repeat (n ∷ ns) (above, up) =
    rw (not_repeated n ns above) (Increasing-has_no_repeat ns up)

Increasing-same_numbers : (ns : List ℕ) → Increasing ns → same_numbers ns (sort_by leb ns) ≡ true
Increasing-same_numbers ns up =
    rw (sort_by_of_IsSorted leb ns (Increasing-IsSorted ns up)) (same_numbers_refl ns)

natural_indices-map : (ns : List ℕ) → natural_indices (map pos ns) ≡ done ns
unfolding natural_indices
natural_indices-map [] = refl
natural_indices-map (n ∷ ns) = rw (natural_indices-map ns) refl

-- A decision that a human may record about so many candidates.
abbrev pub IsDecision : ℕ → List ℤ → String → String → EventActor → Type 0
IsDecision count indices reviewer note actor =
    (has_length 1 128 reviewer ≡ true)
    × (has_length 0 500 note ≡ true)
    × (actor ≡ human)
    × ((ns : List ℕ) × (map pos ns ≡ indices) × Increasing ns × (all (λ n. ltb n count) ns ≡ true))

is_sound_approval-bounds :
    (approval : VariantApproval)
    → is_sound_approval approval ≡ true
    → (has_length 1 128 approval.reviewer ≡ true) × (has_length 0 500 approval.note ≡ true)
unfolding is_sound_approval
is_sound_approval-bounds approval sound = (ground arith, ground arith)

is_sound_approval-human :
    (approval : VariantApproval)
    → is_content_hash approval.candidates_fingerprint ≡ true
    → has_length 1 128 approval.reviewer ≡ true
    → has_length 0 500 approval.note ≡ true
    → approval.actor ≡ human
    → Increasing approval.approved_indices
    → is_sound_approval approval ≡ true
unfolding is_sound_approval
is_sound_approval-human approval hashed reviewed noted by up =
    rw
      (
        hashed,
        reviewed,
        noted,
        by,
        Increasing-has_no_repeat approval.approved_indices up,
        Increasing-same_numbers approval.approved_indices up,
      )
      refl

module _ (doubles : Doubles) (sha256_hex : String → String) where
  bind_approval-done :
      (candidates : CandidateVariants) (approval : VariantApproval)
      → fingerprint doubles sha256_hex candidates ≡ done approval.candidates_fingerprint
      → all (λ n. ltb n (length candidates.variants)) approval.approved_indices ≡ true
      → bind_approval doubles sha256_hex candidates approval
        ≡ done (record { candidates = candidates; approval = approval })
  unfolding bind_approval matches_set
  bind_approval-done candidates approval hashed high =
      rw (hashed, beq_refl approval.candidates_fingerprint, high) refl

  module _ (candidates : CandidateVariants) (hash : String) (ns : List ℕ) (reviewer : String)
      (approved_at : ℕ) (note : String) where
    -- the approval that `approve` builds
    abbrev recorded : VariantApproval
    recorded = record {
      candidates_fingerprint = hash;
      approved_indices = ns;
      actor = human;
      reviewer = reviewer;
      approved_at = approved_at;
      note = note;
    }

    approve-done :
        fingerprint doubles sha256_hex candidates ≡ done hash
        → is_sound_approval recorded ≡ true
        → all (λ n. ltb n (length candidates.variants)) ns ≡ true
        → approve doubles sha256_hex candidates (map pos ns) reviewer approved_at note human
          ≡ done (record { candidates = candidates; approval = recorded })
    unfolding approve
    approve-done hashed sound high =
        rw
          (
            hashed,
            natural_indices-map ns,
            sound,
            bind_approval-done candidates recorded hashed high,
          )
          refl

  -- Where the fingerprint of the candidates is a content hash, `approve` returns exactly on a decision: a reviewer of 1 to 128 characters, a note of at most 500, a human, and increasing indices below the number of the candidates.
  pub approve_iff :
      (candidates : CandidateVariants) (hash : String)
      → fingerprint doubles sha256_hex candidates ≡ done hash
      → is_content_hash hash ≡ true
      → (indices : List ℤ) (reviewer : String) (approved_at : ℕ) (note : String)
        (actor : EventActor)
      → ((set : ApprovedVariants) × (approve doubles sha256_hex candidates indices reviewer
              approved_at note actor
            ≡ done set))
        ↔ IsDecision (length candidates.variants) indices reviewer note actor
  approve_iff candidates hash hashed shaped indices reviewer approved_at note actor = (
    λ (set, returned).
        let (same, sound, reviewed, noted, by, given, bound, high) =
          approve-IsApprovalOf doubles sha256_hex candidates indices reviewer approved_at note actor
            returned in
        let (is_long, is_short) = is_sound_approval-bounds set.approval sound in
        let (by_human, up) = is_sound_approval-Increasing set.approval sound in
        (
          subst (λ r. has_length 1 128 r ≡ true) reviewed is_long,
          subst (λ n. has_length 0 500 n ≡ true) noted is_short,
          sym by ∙ by_human,
          (set.approval.approved_indices, given, up, high),
        ),
    λ (reviewed, noted, by, (ns, given, up, high)).
        let made =
          approve-done candidates hash ns reviewer approved_at note hashed
            (is_sound_approval-human (recorded candidates hash ns reviewer approved_at note) shaped
              reviewed noted refl up)
            high in
        (
          record {
            candidates = candidates;
            approval = recorded candidates hash ns reviewer approved_at note;
          },
          rw (by, ← given) made,
        ),
  )
