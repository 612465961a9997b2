-- ===== src/Evidence.antt =====
-- packages/actionwitness_core/src/actionwitness_core/evidence/models.py, with the event vocabulary
-- of journeys/enums.py: the recorded events of a run. An instant is a number of microseconds.
pub mod Order
pub mod Last
use actionwitness.Prelude.{
  ℕ, String, string_eq, ◌==◌, Bool, true, false, not, ◌&&◌, ◌||◌, List, Option, none, some, leb,
  if◌then◌else◌,
}
use actionwitness.Prelude.Sort.{sort_by}
use actionwitness.Kernel.{Result, ok, raise, ◌>>=◌, ◌>>◌, raise_if, evaluation_input_invalid}
use actionwitness.Json.{JsonDict}
use actionwitness.Vocabulary.{ToolReportedStatus}

-- `OutcomeEventType`
pub data OutcomeEventType : Type 0 where
  run_armed guidance_transitioned snapshot_captured external_observation_received : OutcomeEventType
  tool_invocation_started tool_invocation_completed tool_invocation_failed : OutcomeEventType
  tool_invocation_cancelled confirmation_requested confirmation_approved : OutcomeEventType
  confirmation_denied confirmation_expired confirmation_cancelled verification_started :
      OutcomeEventType
  assertion_evaluated policy_evaluated verification_completed run_cancelled : OutcomeEventType
  resource_limit_exceeded tool_surface_captured tool_surface_changed : OutcomeEventType
  assertions_proposed annotation_added tool_identity_mismatch : OutcomeEventType
  audit_authorization_asserted : OutcomeEventType

unfoldable pub event_type_value : OutcomeEventType → String
event_type_value run_armed = "run_armed"
event_type_value guidance_transitioned = "guidance_transitioned"
event_type_value snapshot_captured = "snapshot_captured"
event_type_value external_observation_received = "external_observation_received"
event_type_value tool_invocation_started = "tool_invocation_started"
event_type_value tool_invocation_completed = "tool_invocation_completed"
event_type_value tool_invocation_failed = "tool_invocation_failed"
event_type_value tool_invocation_cancelled = "tool_invocation_cancelled"
event_type_value confirmation_requested = "confirmation_requested"
event_type_value confirmation_approved = "confirmation_approved"
event_type_value confirmation_denied = "confirmation_denied"
event_type_value confirmation_expired = "confirmation_expired"
event_type_value confirmation_cancelled = "confirmation_cancelled"
event_type_value verification_started = "verification_started"
event_type_value assertion_evaluated = "assertion_evaluated"
event_type_value policy_evaluated = "policy_evaluated"
event_type_value verification_completed = "verification_completed"
event_type_value run_cancelled = "run_cancelled"
event_type_value resource_limit_exceeded = "resource_limit_exceeded"
event_type_value tool_surface_captured = "tool_surface_captured"
event_type_value tool_surface_changed = "tool_surface_changed"
event_type_value assertions_proposed = "assertions_proposed"
event_type_value annotation_added = "annotation_added"
event_type_value tool_identity_mismatch = "tool_identity_mismatch"
event_type_value audit_authorization_asserted = "audit_authorization_asserted"

-- `EventActor`
pub data EventActor : Type 0 where
  agent human harness external eval : EventActor

unfoldable pub actor_value : EventActor → String
actor_value agent = "agent"
actor_value human = "human"
actor_value harness = "harness"
actor_value external = "external"
actor_value eval = "eval"

-- `event_type in INVOCATION_START_EVENTS`
unfoldable pub is_start : OutcomeEventType → Bool
is_start tool_invocation_started = true
is_start _ = false

-- `event_type is OutcomeEventType.TOOL_INVOCATION_COMPLETED`
unfoldable pub is_completion : OutcomeEventType → Bool
is_completion tool_invocation_completed = true
is_completion _ = false

-- `event_type is OutcomeEventType.TOOL_INVOCATION_FAILED`
unfoldable pub is_failure : OutcomeEventType → Bool
is_failure tool_invocation_failed = true
is_failure _ = false

-- `event_type is OutcomeEventType.TOOL_INVOCATION_CANCELLED`
unfoldable pub is_cancellation : OutcomeEventType → Bool
is_cancellation tool_invocation_cancelled = true
is_cancellation _ = false

-- `event_type in TERMINAL_INVOCATION_EVENTS`
unfoldable pub is_terminal_invocation : OutcomeEventType → Bool
is_terminal_invocation tool_invocation_completed = true
is_terminal_invocation tool_invocation_failed = true
is_terminal_invocation tool_invocation_cancelled = true
is_terminal_invocation _ = false

-- `actor in {EventActor.AGENT, EventActor.EVAL}`
unfoldable pub is_acting : EventActor → Bool
is_acting agent = true
is_acting eval = true
is_acting _ = false

-- `RunEvent`
pub record RunEvent : Type 0 where
  pub sequence_number : ℕ
  pub event_type : OutcomeEventType
  pub actor : EventActor
  pub created_at : ℕ
  pub tool_name : Option String
  pub correlation_id : Option String
  pub request_id : Option String
  pub reported_status : Option ToolReportedStatus
  pub state_version_before : Option String
  pub state_version_after : Option String
  pub state_hash_before : Option String
  pub state_hash_after : Option String
  pub duration_ms : Option ℕ
  pub redacted_payload : JsonDict
  pub post_call_effect_state : Option JsonDict

-- `not text`, for an optional text
abbrev pub is_blank : Option String → Bool
is_blank none = true
is_blank (some s) = s == ""

abbrev pub is_present {ℓ} : {A : Type ℓ} → Option A → Bool
is_present none = false
is_present (some a) = true

-- `RunEvent._check_invocation_shape`
unfoldable pub check_invocation_shape : RunEvent → Result RunEvent
unfolding is_start is_terminal_invocation is_completion
check_invocation_shape event = do
  raise_if
      ((is_start event.event_type || is_terminal_invocation event.event_type)
        && is_blank event.tool_name)
      evaluation_input_invalid
  raise_if (not (is_completion event.event_type) && is_present event.reported_status)
      evaluation_input_invalid
  ok event

-- `RunEvent.is_invocation_start`
abbrev pub is_invocation_start : RunEvent → Bool
is_invocation_start event = is_start event.event_type

abbrev is_success : Option ToolReportedStatus → Bool
is_success (some ToolReportedStatus.success) = true
is_success _ = false

-- `RunEvent.reported_success`
unfoldable pub reported_success : RunEvent → Bool
reported_success event = is_success event.reported_status

abbrev hashes_differ : Option String → Option String → Option Bool
hashes_differ (some before) (some after) = some (not (before == after))
hashes_differ _ _ = none

-- `changed_state`
unfoldable pub changed_state : RunEvent → Option Bool
changed_state event = hashes_differ event.state_hash_before event.state_hash_after

-- `changed_state(event) is True`
abbrev pub is_true : Option Bool → Bool
is_true (some true) = true
is_true _ = false

abbrev pub sequence_leb : RunEvent → RunEvent → Bool
sequence_leb e f = leb e.sequence_number f.sequence_number

-- `ordered`
unfoldable pub ordered : List RunEvent → List RunEvent
ordered events = sort_by sequence_leb events
