-- ===== src/Reports/Records.antt =====
-- The records of packages/actionwitness_core/src/actionwitness_core/reports/models.py.
use actionwitness.Prelude.{ℕ, String, Bool, List, Option}
use actionwitness.Paths.{ObservationPath}
use actionwitness.States.{RunState}
use actionwitness.Vocabulary.{FailureClassification, LayerResult, RunMode}

-- `TargetReference`
pub record TargetReference : Type 0 where
  pub id : String
  pub adapter_id : String

-- `ScenarioReference`
pub record ScenarioReference : Type 0 where
  pub mode : String
  pub fault_profile : Option String
  pub fault_active : Bool

-- `ContractReference`
pub record ContractReference : Type 0 where
  pub id : String
  pub schema_version : String
  pub content_hash : String

-- `ExternalCaptureReference`; an instant is a number of microseconds
pub record ExternalCaptureReference : Type 0 where
  pub path : String
  pub captured_at : ℕ
  pub content_hash : String

-- `ExternalTargetReference`
pub record ExternalTargetReference : Type 0 where
  pub target_type : String
  pub origin : String
  pub pairing_id : String
  pub bridge_version : String
  pub theme_build_id : Option String
  pub observation_provider : String
  pub provenance : String
  pub before : ExternalCaptureReference
  pub after : ExternalCaptureReference
  pub safe_scope_result : LayerResult

-- `GuidanceReference`, its actor by the string that it is
pub record GuidanceReference : Type 0 where
  pub actor : String
  pub action : String
  pub reason : String

-- `LayeredResult`
pub record LayeredResult : Type 0 where
  pub model_tool_selection : LayerResult
  pub observed_trajectory : LayerResult
  pub tool_execution : LayerResult
  pub business_outcome : LayerResult
  pub safety_policy : LayerResult

-- `CountsBlock`
pub record CountsBlock : Type 0 where
  pub critical_failures : ℕ
  pub warnings : ℕ
  pub tool_calls : ℕ
  pub human_confirmations : ℕ
  pub guidance_handoffs : ℕ

-- `UndeclaredChange`
pub record UndeclaredChange : Type 0 where
  pub path : ObservationPath
  pub before : Option String
  pub after : Option String
  pub attributed_cause : String

-- `UndeclaredChangesBlock`
pub record UndeclaredChangesBlock : Type 0 where
  pub changed_paths : ℕ
  pub declared : ℕ
  pub undeclared : ℕ
  pub effect_metadata_published : Bool
  pub paths : List UndeclaredChange
  pub applied_exemptions : List ObservationPath

-- `OutcomeReport`
pub record OutcomeReport : Type 0 where
  pub run_id : String
  pub status : RunState
  pub mode : RunMode
  pub target : TargetReference
  pub scenario : ScenarioReference
  pub contract : ContractReference
  pub external_target : Option ExternalTargetReference
  pub layers : LayeredResult
  pub counts : CountsBlock
  pub guidance_at_finalization : Option GuidanceReference
  pub undeclared_changes : Option UndeclaredChangesBlock
  pub primary_failure : Option FailureClassification
