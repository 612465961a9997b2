-- ===== src/Findings.antt =====
-- packages/actionwitness_core/src/actionwitness_core/engine/findings.py: findings, their order, the
-- primary failure, and the result of a layer.
pub mod Order
pub mod Layers
use actionwitness.Prelude.{
  ℕ, String, ◌==◌, nat_eq, Bool, true, false, ◌&&◌, ◌||◌, List, [], ◌∷◌, Option, none, some, ltb,
  if◌then◌else◌, filter, any, head?,
}
use actionwitness.Prelude.Sort.{sort_by}
use actionwitness.Prelude.Text.{text_leb}
use actionwitness.Json.{Json, JsonDict}
use actionwitness.Paths.{ObservationPath}
use actionwitness.Vocabulary.{
  CheckType, CheckStatus, AssertionSeverity, FailureClassification, classification_eq,
  classification_value, LayerResult,
}

-- `Finding`
pub record Finding : Type 0 where
  pub check_id : String
  pub check_type : CheckType
  pub status : CheckStatus
  pub severity : AssertionSeverity
  pub classification : Option FailureClassification
  pub path : Option ObservationPath
  pub paths : List ObservationPath
  pub applied_exemptions : List ObservationPath
  pub attributed_cause : Option JsonDict
  pub expected : Json
  pub actual : Json
  pub causal_event_sequence : Option ℕ
  pub evidence : JsonDict

-- `SEVERITY_RANK`
abbrev pub severity_rank : AssertionSeverity → ℕ
severity_rank AssertionSeverity.critical = 3
severity_rank AssertionSeverity.warning = 2
severity_rank AssertionSeverity.info = 1

-- `status in _FAILING_STATUSES`
abbrev pub is_failing : CheckStatus → Bool
is_failing CheckStatus.failed = true
is_failing CheckStatus.observation_unavailable = true
is_failing _ = false

-- `Finding.failed`
abbrev pub has_failed : Finding → Bool
has_failed finding = is_failing finding.status

-- `1 if self.causal_event_sequence is None else 0`
abbrev cause_flag : Option ℕ → ℕ
cause_flag none = 1
cause_flag (some n) = 0

abbrev cause_number : Option ℕ → ℕ
cause_number none = 0
cause_number (some n) = n

abbrev pub Key : Type 0
Key = ℕ × ℕ × ℕ × String

-- `Finding.sort_key`, whose first member the source negates: `key_leb` compares it downwards
abbrev pub sort_key : Finding → Key
sort_key finding = (
  severity_rank finding.severity,
  cause_flag finding.causal_event_sequence,
  cause_number finding.causal_event_sequence,
  finding.check_id,
)

-- `<=` on sort keys
abbrev pub key_leb : Key → Key → Bool
key_leb (rank, flag, sequence, id) (rank', flag', sequence', id') =
    ltb rank' rank
    || rank == rank'
      && (ltb flag flag'
          || flag == flag' && (ltb sequence sequence' || sequence == sequence' && text_leb id id'))

abbrev pub finding_leb : Finding → Finding → Bool
finding_leb a b = key_leb (sort_key a) (sort_key b)

-- `order_failures`
unfoldable pub order_failures : List Finding → List Finding
order_failures findings = sort_by finding_leb (filter has_failed findings)

-- `primary_failure`
unfoldable pub primary_failure : List Finding → Option Finding
unfolding order_failures
primary_failure findings = head? (order_failures findings)

abbrev pub is_critical : AssertionSeverity → Bool
is_critical AssertionSeverity.critical = true
is_critical _ = false

abbrev pub is_warning : AssertionSeverity → Bool
is_warning AssertionSeverity.warning = true
is_warning _ = false

-- put a member into a set
unfoldable pub add_classification :
    FailureClassification → List FailureClassification → List FailureClassification
add_classification c cs = if any (λ d. d == c) cs then cs else c ∷ cs

-- the classification that a finding puts into the set of `critical_classifications`
unfoldable pub critical_classification : Finding → Option FailureClassification
critical_classification finding =
    if has_failed finding && is_critical finding.severity then finding.classification else none

-- the set comprehension of `critical_classifications`
unfoldable pub critical_set : List Finding → List FailureClassification
critical_set [] = []
critical_set (finding ∷ rest) = elim (critical_classification finding) [
  | none ↦ critical_set rest
  | some c ↦ add_classification c (critical_set rest)
]

abbrev pub classification_leb : FailureClassification → FailureClassification → Bool
classification_leb c d = text_leb (classification_value c) (classification_value d)

-- `critical_classifications`
unfoldable pub critical_classifications : List Finding → List FailureClassification
unfolding critical_set
critical_classifications findings = sort_by classification_leb (critical_set findings)

-- `aggregate`
unfoldable pub aggregate : List Finding → LayerResult
aggregate findings =
    let failures = filter has_failed findings in
    if any (λ f. is_critical f.severity) failures
    then LayerResult.failed
    else if any (λ f. is_warning f.severity) failures
    then LayerResult.passed_with_warnings
    else LayerResult.passed
