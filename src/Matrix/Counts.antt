-- ===== src/Matrix/Counts.antt =====
-- What the counts of a tally say of its trials.
use actionwitness.Prelude.{
  ◌≤◌, refl, ◌+◌, ◌≡◌, ◌∙◌, Bool, true, false, not, ◌&&◌, List, [], ◌∷◌, length, filter, arith,
}
use actionwitness.Kernel.{ok}
use actionwitness.Matrix.{
  no_trials, tally, total_trials, eligible_trials, check_errors_are_a_subset, TrialEligibility,
  NormalizedTrial, is_outcome_pass, is_call_pass, classify, MatrixCounts, is_error_reason,
  add_trial, tally_from,
}

-- whether a trial counts in the two-by-two
abbrev pub counts : NormalizedTrial → Bool
counts trial = elim (classify trial).0 [
  | TrialEligibility.eligible ↦ true
  | TrialEligibility.excluded ↦ false
]

abbrev same : Bool → Bool → Bool
same true b = b
same false b = not b

-- a trial that counts, with these two answers
abbrev pub in_cell : Bool → Bool → NormalizedTrial → Bool
in_cell call outcome trial =
    counts trial
    && same call (is_call_pass trial.call_level_result)
    && same outcome (is_outcome_pass trial.outcome_result)

-- an excluded trial whose reason is an error
abbrev pub is_error_trial : NormalizedTrial → Bool
is_error_trial trial = not (counts trial) && is_error_reason (classify trial).1

-- the counts of a list of trials, added to counts
pub record IsTally (before : MatrixCounts) (trials : List NormalizedTrial) (after : MatrixCounts)
    : Type 0 where
  pub pass_pass :
      after.call_level_pass_outcome_pass
      ≡ before.call_level_pass_outcome_pass + length (filter (in_cell true true) trials)
  pub pass_fail :
      after.call_level_pass_outcome_fail
      ≡ before.call_level_pass_outcome_fail + length (filter (in_cell true false) trials)
  pub fail_pass :
      after.call_level_fail_outcome_pass
      ≡ before.call_level_fail_outcome_pass + length (filter (in_cell false true) trials)
  pub fail_fail :
      after.call_level_fail_outcome_fail
      ≡ before.call_level_fail_outcome_fail + length (filter (in_cell false false) trials)
  pub left_out :
      after.excluded_trials ≡ before.excluded_trials + length (filter (λ t. not (counts t)) trials)
  pub errors : after.error_trials ≡ before.error_trials + length (filter is_error_trial trials)

tally_from-IsTally :
    (c : MatrixCounts) (trials : List NormalizedTrial) → IsTally c trials (tally_from c trials)
unfolding tally_from filter
tally_from-IsTally c [] = record {
  pass_pass = ground arith;
  pass_fail = ground arith;
  fail_pass = ground arith;
  fail_fail = ground arith;
  left_out = ground arith;
  errors = ground arith;
}
tally_from-IsTally c (trial ∷ trials) =
    let rest = tally_from-IsTally (add_trial trial c) trials in
    record {
      pass_pass = rest.pass_pass ∙ ground arith;
      pass_fail = rest.pass_fail ∙ ground arith;
      fail_pass = rest.fail_pass ∙ ground arith;
      fail_fail = rest.fail_fail ∙ ground arith;
      left_out = rest.left_out ∙ ground arith;
      errors = rest.errors ∙ ground arith;
    }

-- `tally` counts in each cell the trials that count and have its two answers, and apart from them the excluded trials and, among these, the ones with an error for a reason.
pub tally-IsTally : (trials : List NormalizedTrial) → IsTally no_trials trials (tally trials)
unfolding tally
tally-IsTally trials = tally_from-IsTally no_trials trials

length-cells :
    (trials : List NormalizedTrial)
    → length (filter (in_cell true true) trials)
        + length (filter (in_cell true false) trials)
        + length (filter (in_cell false true) trials)
        + length (filter (in_cell false false) trials)
        + length (filter (λ t. not (counts t)) trials)
      ≡ length trials
unfolding filter
length-cells [] = refl
length-cells (t ∷ ts) = ground (arith, length-cells ts)

length-errors :
    (trials : List NormalizedTrial)
    → length (filter is_error_trial trials) ≤ length (filter (λ t. not (counts t)) trials)
unfolding filter
length-errors [] = omega arith
length-errors (t ∷ ts) = ground (arith, length-errors ts)

-- Every trial is counted exactly once, as eligible or as excluded, and the counts of a tally pass the validator of `MatrixCounts`: no more errors than exclusions.
pub total_trials-tally :
    (trials : List NormalizedTrial)
    → (total_trials (tally trials) ≡ length trials)
      × (check_errors_are_a_subset (tally trials) ≡ ok (tally trials))
unfolding total_trials check_errors_are_a_subset eligible_trials
total_trials-tally trials =
    let t = tally-IsTally trials in
    (
      ground (
        arith,
        t.pass_pass,
        t.pass_fail,
        t.fail_pass,
        t.fail_fail,
        t.left_out,
        length-cells trials,
      ),
      ground (arith, t.left_out, t.errors, length-errors trials),
    )
