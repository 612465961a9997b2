-- ===== src/Approval/Accepted.antt =====
-- What a validated approval is, and what `approve` returns.
use actionwitness.Prelude.{
  ℕ, ◌≡◌, refl, sym, ap, ◌∙◌, subst, String, true, List, [], ◌∷◌, map, ltb, length, all, arith,
}
use actionwitness.Prelude.Int.{ℤ, pos, negsuc}
use actionwitness.Evidence.{EventActor, human, agent, harness, external, eval}
use actionwitness.Security.Outcome.{done, done-injective, >>=-done, validated}
use actionwitness.Security.Canonical.{Doubles}
use actionwitness.Intents.{CandidateVariants}
use actionwitness.Approval.{
  VariantApproval, is_sound_approval, is_human, natural_indices, ApprovedVariants, fingerprint,
  matches_set, bind_approval, approve,
}
use actionwitness.Approval.Partition.{Increasing, sort_by-Increasing}

pub natural_indices-pos :
    (indices : List ℤ) {ns : List ℕ} → natural_indices indices ≡ done ns → map pos ns ≡ indices
unfolding natural_indices
natural_indices-pos [] h = ap (map pos) (sym (done-injective h))
natural_indices-pos (negsuc n ∷ is) h = cc
natural_indices-pos (pos n ∷ is) h =
    let (ms, last, e) = >>=-done (λ ns. done (n ∷ ns)) (natural_indices is) h in
    ap (map pos) (sym (done-injective last)) ∙ ap (λ rest. pos n ∷ rest) (natural_indices-pos is e)

human_of : (actor : EventActor) → is_human actor ≡ true → actor ≡ human
human_of human h = refl
human_of agent h = cc
human_of harness h = cc
human_of external h = cc
human_of eval h = cc

pub is_sound_approval-Increasing :
    (approval : VariantApproval)
    → is_sound_approval approval ≡ true
    → (approval.actor ≡ human) × Increasing approval.approved_indices
unfolding is_sound_approval
is_sound_approval-Increasing approval sound = (
  human_of approval.actor (ground arith),
  sort_by-Increasing approval.approved_indices (ground arith) (ground arith),
)

module _ (doubles : Doubles) (sha256_hex : String → String) where
  -- What `approve` returns.
  abbrev pub IsApprovalOf :
      CandidateVariants → List ℤ → String → String → EventActor → ApprovedVariants → Type 0
  IsApprovalOf candidates indices reviewer note actor set =
      (set.candidates ≡ candidates)
      × (is_sound_approval set.approval ≡ true)
      × (set.approval.reviewer ≡ reviewer)
      × (set.approval.note ≡ note)
      × (set.approval.actor ≡ actor)
      × (map pos set.approval.approved_indices ≡ indices)
      × (fingerprint doubles sha256_hex candidates ≡ done set.approval.candidates_fingerprint)
      × (all (λ index. ltb index (length candidates.variants)) set.approval.approved_indices ≡ true)

  pub approve-IsApprovalOf :
      (candidates : CandidateVariants) (indices : List ℤ) (reviewer : String) (approved_at : ℕ)
      (note : String) (actor : EventActor) {set : ApprovedVariants}
      → approve doubles sha256_hex candidates indices reviewer approved_at note actor ≡ done set
      → IsApprovalOf candidates indices reviewer note actor set
  unfolding approve bind_approval matches_set
  approve-IsApprovalOf candidates indices reviewer approved_at note actor {set} h =
      let (hash, rest, e) = >>=-done _ (fingerprint doubles sha256_hex candidates) h in
      let (ns, next, f) = >>=-done _ (natural_indices indices) rest in
      let approval : VariantApproval = record {
        candidates_fingerprint = hash;
        approved_indices = ns;
        actor = actor;
        reviewer = reviewer;
        approved_at = approved_at;
        note = note;
      } in
      let given : ApprovedVariants = record { candidates = candidates; approval = approval } in
      let (sound, bound) =
        validated (is_sound_approval approval)
          (bind_approval doubles sha256_hex candidates approval) next in
      let (expected, last, g) = >>=-done _ (fingerprint doubles sha256_hex candidates) bound in
      let (matched, same) =
        validated (matches_set doubles sha256_hex expected given) (done given) last in
      subst (IsApprovalOf candidates indices reviewer note actor) (done-injective same)
        (refl, sound, refl, refl, refl, natural_indices-pos indices f, e, ground arith)
