-- ===== src/Comparison.antt =====
-- packages/actionwitness_core/src/actionwitness_core/reports/comparison.py: whether two runs are a
-- matched pair. `repr` of a text and the hash of a text are parameters.
pub mod Matched
use actionwitness.Prelude.{
  ℕ, String, string_eq, Eq, ◌==◌, Bool, true, false, not, ◌&&◌, ◌||◌, List, [], ◌∷◌, ◌++◌, map,
  Option, none, some, if◌then◌else◌, any, filter,
}
use actionwitness.Prelude.Text.{concat}
use actionwitness.Json.{Json, null, bool, str, obj, array, JsonDict, dict}
use actionwitness.Kernel.{ok, raise}
use actionwitness.States.{RunState, run_state_value}
use actionwitness.Lifecycle.{is_terminal}
use actionwitness.Vocabulary.{
  FailureClassification, classification_eq, classification_value, LayerResult, layer_result_value,
}
use actionwitness.Policies.Attribution.{optional_text}
use actionwitness.Security.Canonical.{Outcome, done, ◌>>=◌, Doubles, content_hash}

-- `ComparableRun`
pub record ComparableRun : Type 0 where
  pub run_id : String
  pub status : RunState
  pub scenario_mode : String
  pub fault_active : Bool
  pub target_id : String
  pub adapter_id : String
  pub contract_content_hash : Option String
  pub fixture_content_hash : Option String
  pub intent_content_hash : Option String
  pub failure_profile : Option String
  pub implementation_version : String
  pub build_commit : Option String
  pub trajectory : List String
  pub overall_result : Option LayerResult
  pub critical_classifications : List FailureClassification

-- `COMPARISON_KEY_FIELDS` with the values that a run has for them
abbrev pub controlled_inputs : ComparableRun → List (String × Option String)
controlled_inputs run =
    ("target_id", some run.target_id)
    ∷ ("adapter_id", some run.adapter_id)
    ∷ ("contract_content_hash", run.contract_content_hash)
    ∷ ("fixture_content_hash", run.fixture_content_hash)
    ∷ ("intent_content_hash", run.intent_content_hash)
    ∷ ("failure_profile", run.failure_profile)
    ∷ ("implementation_version", some run.implementation_version)
    ∷ ("build_commit", run.build_commit)
    ∷ []

abbrev inputs_json : List (String × Option String) → List (String × Json)
inputs_json inputs = map (λ (field, value). (field, optional_text value)) inputs

-- `is_terminal(run.status)`; it knows every run state
abbrev pub has_terminated : ComparableRun → Bool
has_terminated run = elim (is_terminal (run_state_value run.status)) [ ok b ↦ b | raise c ↦ false ]

abbrev pub same_option : Option String → Option String → Bool
same_option none none = true
same_option (some a) (some b) = a == b
same_option _ _ = false

-- the fields of two lists of inputs whose values differ
abbrev pub differing_inputs :
    List (String × Option String) → List (String × Option String) → List String
differing_inputs ((field, a) ∷ rest) ((field', b) ∷ rest') =
    let others = differing_inputs rest rest' in if same_option a b then others else field ∷ others
differing_inputs _ _ = []

abbrev pub same_texts : List String → List String → Bool
same_texts [] [] = true
same_texts (s ∷ a) (t ∷ b) = s == t && same_texts a b
same_texts _ _ = false

abbrev pub is_classified : FailureClassification → List FailureClassification → Bool
is_classified c cs = any (λ d. d == c) cs

-- the values of the first that the second does not have
abbrev pub without :
    List FailureClassification → List FailureClassification → List FailureClassification
without cs ds = filter (λ c. not (is_classified c ds)) cs

abbrev only_if : Bool → String → List String
only_if true s = s ∷ []
only_if false s = []

-- the list `differing`, whose members are distinct
unfoldable pub differing : ComparableRun → ComparableRun → List String
differing source candidate =
    only_if (not (has_terminated source)) "source.status"
    ++ (only_if (not (has_terminated candidate)) "candidate.status"
        ++ (only_if (source.scenario_mode == candidate.scenario_mode) "scenario_mode"
            ++ (differing_inputs (controlled_inputs source) (controlled_inputs candidate)
                ++ only_if (not (same_texts source.trajectory candidate.trajectory)) "trajectory")))

abbrev is_none_differing : List String → Bool
is_none_differing [] = true
is_none_differing (s ∷ rest) = false

-- `ComparisonResult`
pub record ComparisonResult : Type 0 where
  pub comparable : Bool
  pub differing_fields : List String
  pub reason : String
  pub source : JsonDict
  pub candidate : JsonDict
  pub resolved_classifications : Option (List FailureClassification)
  pub introduced_classifications : Option (List FailureClassification)

-- `"; ".join(texts)`
abbrev join_reasons : List String → String
join_reasons [] = ""
join_reasons (s ∷ []) = s
join_reasons (s ∷ t ∷ rest) = concat (s ∷ "; " ∷ join_reasons (t ∷ rest) ∷ [])

-- the entries that `ComparableRun.summary` gives for a key
abbrev pub summary_entries : ComparableRun → String → JsonDict
summary_entries run key = dict (
    ("run_id", str run.run_id)
    ∷ ("status", str (run_state_value run.status))
    ∷ ("scenario_mode", str run.scenario_mode)
    ∷ ("fault_active", bool run.fault_active)
    ∷ ("implementation_version", str run.implementation_version)
    ∷ ("build_commit", optional_text run.build_commit)
    ∷ (
      "overall_result",
      elim run.overall_result [ none ↦ null | some r ↦ str (layer_result_value r) ],
    )
    ∷ (
      "critical_classifications",
      array (map (λ c. str (classification_value c)) run.critical_classifications),
    )
    ∷ ("comparison_key_hash", str key)
    ∷ [])

module _ (quoted : String → String) where
  -- the list `reasons`
  abbrev reasons : ComparableRun → ComparableRun → List String
  reasons source candidate =
      only_if (not (has_terminated source)) "the source run has not terminated"
      ++ (only_if (not (has_terminated candidate)) "the candidate run has not terminated"
          ++ (only_if (source.scenario_mode == candidate.scenario_mode) (
                concat (
                  "both runs used scenario mode "
                  ∷ quoted source.scenario_mode
                  ∷ ", so nothing was varied"
                  ∷ []))
              ++ (only_if
                    (not (
                      is_none_differing (
                        differing_inputs (controlled_inputs source) (controlled_inputs candidate))))
                    "a controlled input differs, so the two runs are different experiments"
                  ++ only_if (not (same_texts source.trajectory candidate.trajectory))
                      "the agent's observed tool calls differ, so the runs exercised different paths")))

  abbrev pub result_of : ComparableRun → ComparableRun → JsonDict → JsonDict → ComparisonResult
  result_of source candidate left right =
      if is_none_differing (differing source candidate)
      then record {
        comparable = true;
        differing_fields = [];
        reason = "";
        source = left;
        candidate = right;
        resolved_classifications =
            some (without source.critical_classifications candidate.critical_classifications);
        introduced_classifications =
            some (without candidate.critical_classifications source.critical_classifications);
      }
      else record {
        comparable = false;
        differing_fields = differing source candidate;
        reason = join_reasons (reasons source candidate);
        source = left;
        candidate = right;
        resolved_classifications = none;
        introduced_classifications = none;
      }

module _ (doubles : Doubles) (sha256_hex : String → String) where
  -- `ComparableRun.comparison_key`
  abbrev pub comparison_key : ComparableRun → Outcome String
  comparison_key run =
      content_hash doubles sha256_hex (obj (dict (inputs_json (controlled_inputs run))))

  -- `ComparableRun.summary`
  abbrev pub summary : ComparableRun → Outcome JsonDict
  summary run = do key ← comparison_key run; done (summary_entries run key)

  module _ (quoted : String → String) where
    -- `compare_runs`
    unfoldable pub compare_runs : ComparableRun → ComparableRun → Outcome ComparisonResult
    compare_runs source candidate = do
      left ← summary source
      right ← summary candidate
      done (result_of quoted source candidate left right)
