-- ===== src/Assertions.antt =====
-- packages/actionwitness_core/src/actionwitness_core/engine/assertions.py, with the terms of
-- contracts/models.py that it evaluates. `Decimal` is a parameter: its constructors from an integer
-- and from a text, finiteness, subtraction and equality; that a subtraction of finite decimals may
-- overflow and raise is left out. A context is absent where no snapshot was observed.
pub mod Verdicts
use Prim.Native.String
use actionwitness.Prelude.{
  ℕ, String, string_eq, ◌==◌, nat_eq, Bool, true, false, not, ◌&&◌, ◌||◌, List, [], ◌∷◌, map,
  Option, none, some, any, length, if◌then◌else◌, nat_beq,
}
use actionwitness.Prelude.Int.{ℤ, pos, negsuc}
use actionwitness.Prelude.Text.{starts_with, codes}
use actionwitness.Json.{
  Json, null, bool, int, float, str, arr, obj, number, JsonDict, dict, items, keys, deep_equal,
}
use actionwitness.Paths.{ObservationPath, Resolution, missing, resolve, path_text}
use actionwitness.Vocabulary.{
  CheckType, CheckStatus, AssertionOperator, AssertionSeverity, FailureClassification,
}
use actionwitness.Findings.{Finding}

-- `Assertion`; the value is absent where the contract gives none
pub record Assertion : Type 0 where
  pub id : String
  pub path : ObservationPath
  pub operator : AssertionOperator
  pub value : Option Json
  pub severity : AssertionSeverity

-- `Precondition`
pub record Precondition : Type 0 where
  pub path : ObservationPath
  pub operator : AssertionOperator
  pub value : Option Json

-- what the code uses of `decimal`
pub record Decimals (D : Type 0) : Type 0 where
  pub of_int : ℤ → D
  pub of_text : String → Option D
  pub is_finite : D → Bool
  pub minus : D → D → D
  pub equals : D → D → Bool

-- `operator in TRANSITION_OPERATORS`
unfoldable pub is_transition : AssertionOperator → Bool
is_transition AssertionOperator.unchanged = true
is_transition AssertionOperator.changed_by = true
is_transition _ = false

-- `model.value`, and whether it was given
abbrev pub value_or_null : Option Json → Json
value_or_null none = null
value_or_null (some v) = v

abbrev pub is_supplied : Option Json → Bool
is_supplied none = false
is_supplied (some v) = true

-- what an operator answers: whether it held, the actual value for the report, and the reason
pub record Answer : Type 0 where
  pub held : Bool
  pub actual : Json
  pub reason : String

abbrev pub answer : Bool → Json → String → Answer
answer held actual reason = record { held = held; actual = actual; reason = reason }

-- `expected in actual`, for texts
unfoldable pub is_substring : List ℕ → List ℕ → Bool
is_substring part [] = starts_with [] part
is_substring part (c ∷ text) = starts_with (c ∷ text) part || is_substring part text

-- `final.value if final.found else None`
abbrev found_or_null : Resolution → Json
found_or_null r = if r.found then r.value else null

abbrev pub contains_answer : Json → Json → Answer
contains_answer (str actual) (str expected) =
    answer (is_substring (codes expected) (codes actual)) (str actual) "substring not found"
contains_answer (str actual) expected =
    answer false (str actual) "an observed string can only contain a string"
contains_answer (arr members) expected =
    answer (any (λ item. deep_equal item expected) (items members)) (arr members)
      "no member matched"
contains_answer actual expected =
    answer false actual "contains applies to an observed string or array"

abbrev count_matches : ℕ → Json → Answer
count_matches n (obj d) =
    answer (length (keys d) == n) (number (length (keys d))) "count did not match"
count_matches n (arr xs) =
    answer (length (items xs) == n) (number (length (items xs))) "count did not match"
count_matches n actual = answer false actual "count_equals applies to an observed object or array"

abbrev pub count_answer : Json → Json → Answer
count_answer actual (int (pos n)) = count_matches n actual
count_answer actual expected = answer false actual "count_equals expects a non-negative integer"

abbrev if_found : Resolution → Answer → Answer
if_found final found =
    if final.found then found else answer false null "path did not resolve in the final snapshot"

abbrev if_both_found : Resolution → Resolution → Answer → Answer
if_both_found initial final found =
    if initial.found && final.found
    then found
    else answer false (found_or_null final) "path did not resolve in both snapshots"

module _ {D : Type 0} (decimals : Decimals D) where
  -- `candidate if candidate.is_finite() else None`, for a text that is a decimal
  abbrev pub if_finite : Option D → Option D
  if_finite none = none
  if_finite (some d) = if decimals.is_finite d then some d else none

  -- `_as_exact`
  abbrev pub as_exact : Json → Option D
  as_exact (int i) = some (decimals.of_int i)
  as_exact (str s) = if_finite (decimals.of_text s)
  as_exact _ = none

  abbrev delta_answer : Option D → Option D → Option D → Json → Answer
  delta_answer (some before) (some after) (some delta) actual =
      answer (decimals.equals (decimals.minus after before) delta) actual "delta did not match"
  delta_answer (some before) (some after) none actual =
      answer false actual "the expected delta is not an integer or decimal"
  delta_answer before after delta actual =
      answer false actual "changed_by requires integer or decimal values"

  -- `evaluate_operator`
  unfoldable pub evaluate_operator :
      AssertionOperator → Json → Bool → Resolution → Resolution → Answer
  evaluate_operator AssertionOperator.equals expected supplied initial final =
      if_found final (answer (deep_equal final.value expected) final.value "value did not match")
  evaluate_operator AssertionOperator.not_equals expected supplied initial final =
      if_found final (answer (not (deep_equal final.value expected)) final.value "value matched")
  evaluate_operator AssertionOperator.exists expected supplied initial final =
      answer final.found (found_or_null final) "path is absent"
  evaluate_operator AssertionOperator.absent expected supplied initial final =
      answer (not final.found) (found_or_null final) "path is present"
  evaluate_operator AssertionOperator.contains expected supplied initial final =
      if_found final (contains_answer final.value expected)
  evaluate_operator AssertionOperator.unchanged expected supplied initial final =
      if_both_found initial final
        (answer (deep_equal initial.value final.value) final.value "value changed")
  evaluate_operator AssertionOperator.changed_by expected supplied initial final =
      if_both_found initial final (
        delta_answer (as_exact initial.value) (as_exact final.value)
          (if supplied then as_exact expected else none) final.value)
  evaluate_operator AssertionOperator.count_equals expected supplied initial final =
      if_found final (count_answer final.value expected)

  abbrev finding_of :
      String → CheckType → AssertionSeverity → ObservationPath → Option Json → Answer → Finding
  finding_of id check_type severity path value a = record {
    check_id = id;
    check_type = check_type;
    status = if a.held then CheckStatus.passed else CheckStatus.failed;
    severity = severity;
    classification = if a.held then none else some FailureClassification.assertion_mismatch;
    path = some path;
    paths = [];
    applied_exemptions = [];
    attributed_cause = none;
    expected = value_or_null value;
    actual = a.actual;
    causal_event_sequence = none;
    evidence = if a.held then dict [] else dict (("reason", str a.reason) ∷ []);
  }

  abbrev unavailable :
      String → CheckType → AssertionSeverity → ObservationPath → Option Json → String → Finding
  unavailable id check_type severity path value reason =
      record (finding_of id check_type severity path value (answer false null reason)) {
        status = CheckStatus.observation_unavailable;
        classification = some FailureClassification.observation_unavailable;
      }

  abbrev pub resolve_in : ObservationPath → Option JsonDict → Resolution
  resolve_in path none = missing
  resolve_in path (some context) = resolve path context

  abbrev pub is_observed : Option JsonDict → Bool
  is_observed none = false
  is_observed (some context) = true

  -- `evaluate_assertion`
  unfoldable pub evaluate_assertion : Assertion → Option JsonDict → Option JsonDict → Finding
  unfolding evaluate_operator
  evaluate_assertion assertion initial final =
      if not (is_observed final) || is_transition assertion.operator && not (is_observed initial)
      then unavailable assertion.id CheckType.assertion assertion.severity assertion.path
          assertion.value "the required authoritative observation was not available"
      else finding_of assertion.id CheckType.assertion assertion.severity assertion.path
          assertion.value
          (evaluate_operator assertion.operator (value_or_null assertion.value)
            (is_supplied assertion.value) (resolve_in assertion.path initial)
            (resolve_in assertion.path final))

  -- `evaluate_assertions`
  unfoldable pub evaluate_assertions :
      List Assertion → Option JsonDict → Option JsonDict → List Finding
  unfolding evaluate_assertion
  evaluate_assertions assertions initial final =
      map (λ assertion. evaluate_assertion assertion initial final) assertions

  -- `evaluate_precondition`
  unfoldable pub evaluate_precondition : Precondition → Option JsonDict → Finding
  unfolding evaluate_operator
  evaluate_precondition precondition initial =
      if not (is_observed initial)
      then unavailable (path_text precondition.path) CheckType.precondition
          AssertionSeverity.critical precondition.path precondition.value
          "the initial authoritative observation was not available"
      else finding_of (path_text precondition.path) CheckType.precondition
          AssertionSeverity.critical precondition.path precondition.value
          (evaluate_operator precondition.operator (value_or_null precondition.value)
            (is_supplied precondition.value) missing (resolve_in precondition.path initial))

  -- `evaluate_preconditions`
  unfoldable pub evaluate_preconditions : List Precondition → Option JsonDict → List Finding
  unfolding evaluate_precondition
  evaluate_preconditions preconditions initial =
      map (λ precondition. evaluate_precondition precondition initial) preconditions
