-- ===== src/Examples/Data.antt =====
-- The runs and findings of the examples.
use actionwitness.Assertions.{Decimals}
use actionwitness.Prelude.Int.{ℤ, pos, negsuc, int_eq}
use actionwitness.Prelude.{
  ℕ, String, true, List, [], ◌∷◌, none, some, suc, ◌+◌, ◌-◌, ltb, if◌then◌else◌, ◌==◌,
}
use actionwitness.Json.{null, end}
use actionwitness.Paths.{ObservationPath}
use actionwitness.Vocabulary.{
  CheckType, CheckStatus, AssertionSeverity, FailureClassification, SurfaceDeltaKind, ToolNamespace,
}
use actionwitness.Evidence.{
  RunEvent, OutcomeEventType, agent, tool_invocation_started, tool_invocation_completed,
  confirmation_approved,
}
use actionwitness.Findings.{Finding}
use actionwitness.Policies.Inputs.{PolicyEvidence}

-- an event of `place_order` under the correlation and the request ID "c1"
abbrev pub event : ℕ → OutcomeEventType → String → String → RunEvent
event n type before after = record {
  sequence_number = n;
  event_type = type;
  actor = agent;
  created_at = n;
  tool_name = some "place_order";
  correlation_id = some "c1";
  request_id = some "r1";
  reported_status = none;
  state_version_before = none;
  state_version_after = none;
  state_hash_before = some before;
  state_hash_after = some after;
  duration_ms = none;
  redacted_payload = end;
  post_call_effect_state = none;
}

-- the call starts and changes the state, and the approval comes too late
abbrev pub late_approval : List RunEvent
late_approval =
    event 3 confirmation_approved "b" "b"
    ∷ event 1 tool_invocation_started "a" "a"
    ∷ event 2 tool_invocation_completed "a" "b"
    ∷ []

-- one request completed twice, the second time with no effect
abbrev pub repeated_request : List RunEvent
repeated_request =
    event 2 tool_invocation_completed "a" "b" ∷ event 4 tool_invocation_completed "b" "b" ∷ []

abbrev pub path : String → ObservationPath
path s = record { segments = "order" ∷ s ∷ [] }

abbrev pub evidence : PolicyEvidence
evidence = record {
  events = late_approval;
  effect_map = ("place_order", path "items" ∷ []) ∷ [];
  contract_paths = [];
  changed_paths = some (path "items" ∷ path "total" ∷ []);
  changes = none;
  surface_baseline_recorded = true;
  identity_mismatches = [];
  observed_surface_deltas =
      record {
        tool_name = "place_order";
        namespace = ToolNamespace.target;
        kind = SurfaceDeltaKind.schema_change;
        before = none;
        after = none;
      }
      ∷ [];
}

-- a failed assertion of a severity
abbrev pub failure : String → AssertionSeverity → Finding
failure id severity = record {
  check_id = id;
  check_type = CheckType.assertion;
  status = CheckStatus.failed;
  severity = severity;
  classification = some FailureClassification.assertion_mismatch;
  path = none;
  paths = [];
  applied_exemptions = [];
  attributed_cause = none;
  expected = null;
  actual = null;
  causal_event_sequence = none;
  evidence = end;
}

abbrev pub two_failures : List Finding
two_failures =
    failure "note" AssertionSeverity.warning ∷ failure "total" AssertionSeverity.critical ∷ []

abbrev int_minus : ℤ → ℤ → ℤ
int_minus (pos a) (pos b) = if ltb a b then negsuc (b - a - 1) else pos (a - b)
int_minus (pos a) (negsuc b) = pos (a + suc b)
int_minus (negsuc a) (pos b) = negsuc (a + b)
int_minus (negsuc a) (negsuc b) = if ltb b a then negsuc (a - b - 1) else pos (b - a)

-- decimals that are integers
abbrev pub integers : Decimals ℤ
integers = record {
  of_int = λ i. i;
  of_text = λ s. none;
  is_finite = λ i. true;
  minus = int_minus;
  equals = λ a b. a == b;
}
