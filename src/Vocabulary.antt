-- ===== src/Vocabulary.antt =====
-- The closed vocabularies of engine/enums.py, contracts/enums.py, reports/enums.py and
-- evidence/enums.py in packages/actionwitness_core/src/actionwitness_core, with the strings that
-- their members are.
use actionwitness.Prelude.{ℕ, ◌≡◌, refl, String, Eq, List, [], ◌∷◌, get_elem?, some}
use actionwitness.Kernel.{enum_eq}

-- `CheckType`
pub data CheckType : Type 0 where
  precondition assertion expected_tools policy : CheckType

-- `CheckStatus`
pub data CheckStatus : Type 0 where
  passed failed not_evaluated observation_unavailable : CheckStatus

-- `FailureClassification`
pub data FailureClassification : Type 0 where
  tool_execution_error false_success_or_state_mismatch idempotency_violation : FailureClassification
  missing_confirmation assertion_mismatch missing_expected_tool unexpected_tool :
      FailureClassification
  trajectory_order_violation observation_unavailable undeclared_state_change : FailureClassification
  tool_surface_mutation harness_error : FailureClassification

abbrev pub classification_rank : FailureClassification → ℕ
classification_rank FailureClassification.tool_execution_error = 0
classification_rank FailureClassification.false_success_or_state_mismatch = 1
classification_rank FailureClassification.idempotency_violation = 2
classification_rank FailureClassification.missing_confirmation = 3
classification_rank FailureClassification.assertion_mismatch = 4
classification_rank FailureClassification.missing_expected_tool = 5
classification_rank FailureClassification.unexpected_tool = 6
classification_rank FailureClassification.trajectory_order_violation = 7
classification_rank FailureClassification.observation_unavailable = 8
classification_rank FailureClassification.undeclared_state_change = 9
classification_rank FailureClassification.tool_surface_mutation = 10
classification_rank FailureClassification.harness_error = 11

abbrev pub classification_members : List FailureClassification
classification_members =
    FailureClassification.tool_execution_error
    ∷ FailureClassification.false_success_or_state_mismatch
    ∷ FailureClassification.idempotency_violation ∷ FailureClassification.missing_confirmation
    ∷ FailureClassification.assertion_mismatch ∷ FailureClassification.missing_expected_tool
    ∷ FailureClassification.unexpected_tool ∷ FailureClassification.trajectory_order_violation
    ∷ FailureClassification.observation_unavailable ∷ FailureClassification.undeclared_state_change
    ∷ FailureClassification.tool_surface_mutation ∷ FailureClassification.harness_error ∷ []

pub classification_position :
    (s : FailureClassification) → get_elem? classification_members (classification_rank s) ≡ some s
classification_position FailureClassification.tool_execution_error = refl
classification_position _ = refl

instance abbrev pub classification_eq : Eq FailureClassification
classification_eq = enum_eq classification_rank classification_members classification_position

unfoldable pub classification_value : FailureClassification → String
classification_value FailureClassification.tool_execution_error = "tool_execution_error"
classification_value FailureClassification.false_success_or_state_mismatch =
    "false_success_or_state_mismatch"
classification_value FailureClassification.idempotency_violation = "idempotency_violation"
classification_value FailureClassification.missing_confirmation = "missing_confirmation"
classification_value FailureClassification.assertion_mismatch = "assertion_mismatch"
classification_value FailureClassification.missing_expected_tool = "missing_expected_tool"
classification_value FailureClassification.unexpected_tool = "unexpected_tool"
classification_value FailureClassification.trajectory_order_violation = "trajectory_order_violation"
classification_value FailureClassification.observation_unavailable = "observation_unavailable"
classification_value FailureClassification.undeclared_state_change = "undeclared_state_change"
classification_value FailureClassification.tool_surface_mutation = "tool_surface_mutation"
classification_value FailureClassification.harness_error = "harness_error"

-- `AssertionOperator`
pub data AssertionOperator : Type 0 where
  equals not_equals exists absent contains unchanged changed_by count_equals : AssertionOperator

-- `AssertionSeverity`
pub data AssertionSeverity : Type 0 where
  info warning critical : AssertionSeverity

-- `PolicyType`
pub data PolicyType : Type 0 where
  requires_confirmation idempotent_by_request_id maximum_mutations forbidden_tool : PolicyType
  no_undeclared_changes stable_tool_surface : PolicyType

unfoldable pub policy_type_value : PolicyType → String
policy_type_value PolicyType.requires_confirmation = "requires_confirmation"
policy_type_value PolicyType.idempotent_by_request_id = "idempotent_by_request_id"
policy_type_value PolicyType.maximum_mutations = "maximum_mutations"
policy_type_value PolicyType.forbidden_tool = "forbidden_tool"
policy_type_value PolicyType.no_undeclared_changes = "no_undeclared_changes"
policy_type_value PolicyType.stable_tool_surface = "stable_tool_surface"

-- `SurfaceDeltaKind`
pub data SurfaceDeltaKind : Type 0 where
  added removed schema_change hint_change description_change : SurfaceDeltaKind

abbrev pub delta_kind_rank : SurfaceDeltaKind → ℕ
delta_kind_rank SurfaceDeltaKind.added = 0
delta_kind_rank SurfaceDeltaKind.removed = 1
delta_kind_rank SurfaceDeltaKind.schema_change = 2
delta_kind_rank SurfaceDeltaKind.hint_change = 3
delta_kind_rank SurfaceDeltaKind.description_change = 4

abbrev pub delta_kind_members : List SurfaceDeltaKind
delta_kind_members =
    SurfaceDeltaKind.added ∷ SurfaceDeltaKind.removed ∷ SurfaceDeltaKind.schema_change
    ∷ SurfaceDeltaKind.hint_change ∷ SurfaceDeltaKind.description_change ∷ []

pub delta_kind_position :
    (s : SurfaceDeltaKind) → get_elem? delta_kind_members (delta_kind_rank s) ≡ some s
delta_kind_position SurfaceDeltaKind.added = refl
delta_kind_position _ = refl

instance abbrev pub delta_kind_eq : Eq SurfaceDeltaKind
delta_kind_eq = enum_eq delta_kind_rank delta_kind_members delta_kind_position

unfoldable pub delta_kind_value : SurfaceDeltaKind → String
delta_kind_value SurfaceDeltaKind.added = "added"
delta_kind_value SurfaceDeltaKind.removed = "removed"
delta_kind_value SurfaceDeltaKind.schema_change = "schema_change"
delta_kind_value SurfaceDeltaKind.hint_change = "hint_change"
delta_kind_value SurfaceDeltaKind.description_change = "description_change"

-- `LayerResult`
pub data LayerResult : Type 0 where
  passed passed_with_warnings blocked_safely failed error not_evaluated : LayerResult

unfoldable pub layer_result_value : LayerResult → String
layer_result_value LayerResult.passed = "passed"
layer_result_value LayerResult.passed_with_warnings = "passed_with_warnings"
layer_result_value LayerResult.blocked_safely = "blocked_safely"
layer_result_value LayerResult.failed = "failed"
layer_result_value LayerResult.error = "error"
layer_result_value LayerResult.not_evaluated = "not_evaluated"

-- `RunMode`
pub data RunMode : Type 0 where
  verification proposal : RunMode

-- `ToolReportedStatus`
pub data ToolReportedStatus : Type 0 where
  success blocked_by_user blocked_by_expiry already_applied : ToolReportedStatus

unfoldable pub reported_status_value : ToolReportedStatus → String
reported_status_value ToolReportedStatus.success = "success"
reported_status_value ToolReportedStatus.blocked_by_user = "blocked_by_user"
reported_status_value ToolReportedStatus.blocked_by_expiry = "blocked_by_expiry"
reported_status_value ToolReportedStatus.already_applied = "already_applied"

-- `ToolNamespace`
pub data ToolNamespace : Type 0 where
  harness target : ToolNamespace

unfoldable pub namespace_value : ToolNamespace → String
namespace_value ToolNamespace.harness = "harness"
namespace_value ToolNamespace.target = "target"
