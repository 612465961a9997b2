-- ===== src/Cases.antt =====
-- packages/actionwitness_core/src/actionwitness_core/evals/minimize.py: what an evaluation case keeps
-- of a fixture and of a trajectory; and what of contracts/models.py and engine/policies.py it asks of
-- a contract. Of a contract, the terms that checks read are kept; its texts and redaction globs are
-- left out.
pub mod Pruning
pub mod Fixture
pub mod Roots
pub mod Replay
use Prim.Native.Char.{code}
use Prim.Native.String
use actionwitness.Prelude.{
  ℕ, zero, suc, ◌+◌, String, string_eq, ◌==◌, nat_beq, Bool, true, false, not, ◌&&◌, ◌||◌, List, [],
  ◌∷◌, ◌++◌, map, Option, none, some, any, filter, if◌then◌else◌, ltb, length,
}
use actionwitness.Prelude.Text.{distinct}
use actionwitness.Json.{Json, JsonDict, end, entry, has_key, same_keys}
use actionwitness.Paths.{ObservationPath, path_text, split_dots}
use actionwitness.Trajectory.{ExpectedTools}
use actionwitness.Assertions.{Assertion, Precondition}
use actionwitness.Policies.Inputs.{
  Policy, requires_confirmation, idempotent_by_request_id, maximum_mutations, forbidden_tool,
  no_undeclared_changes, stable_tool_surface,
}

-- `OutcomeContract`
pub record OutcomeContract : Type 0 where
  pub preconditions : List Precondition
  pub expected_tools : Option ExpectedTools
  pub assertions : List Assertion
  pub policies : List Policy

-- the paths of the preconditions and of the assertions
abbrev contract_paths : OutcomeContract → List ObservationPath
contract_paths contract =
    map (λ p. p.path) contract.preconditions ++ map (λ a. a.path) contract.assertions

abbrev add_path : ObservationPath → List ObservationPath → List ObservationPath
add_path path seen =
    if any (λ p. path_text p == path_text path) seen then seen else seen ++ path ∷ []

abbrev add_paths : List ObservationPath → List ObservationPath → List ObservationPath
add_paths [] seen = seen
add_paths (path ∷ paths) seen = add_paths paths (add_path path seen)

-- `declared_contract_paths` of engine/policies.py
unfoldable pub declared_contract_paths : OutcomeContract → List ObservationPath
declared_contract_paths contract = add_paths (contract_paths contract) []

abbrev is_no_undeclared_changes : Policy → Bool
is_no_undeclared_changes (no_undeclared_changes allow_paths) = true
is_no_undeclared_changes _ = false

-- `requires_complete_state`
unfoldable pub requires_complete_state : OutcomeContract → Bool
requires_complete_state contract = any is_no_undeclared_changes contract.policies

-- the tool that a policy names, or the empty text: `getattr(policy, "tool", "")`
unfoldable pub policy_tool : Policy → String
policy_tool (requires_confirmation tool timeout) = tool
policy_tool (idempotent_by_request_id tool) = tool
policy_tool (forbidden_tool tool) = tool
policy_tool (maximum_mutations limit) = ""
policy_tool (no_undeclared_changes allow_paths) = ""
policy_tool (stable_tool_surface kinds) = ""

-- a step: its number, its tool and its arguments
abbrev pub Step : Type 0
Step = ℕ × String × JsonDict

-- `tool in names`, for a set
abbrev pub is_in : List String → String → Bool
is_in names tool = any (λ name. name == tool) names

abbrev expected_calls : Option ExpectedTools → List String
expected_calls none = []
expected_calls (some expected) = expected.calls

-- a tool whose call may go: read-only, not expected, and named by no policy
unfoldable pub is_idle : OutcomeContract → List String → String → Bool
is_idle contract read_only_tools tool =
    is_in read_only_tools tool
    && not (is_in (expected_calls contract.expected_tools) tool)
    && not (
        any (λ policy. policy_tool policy == tool && not (policy_tool policy == ""))
          contract.policies)

-- `max(mutation_positions) if mutation_positions else -1`, from a position on; none stands for -1
unfoldable pub last_mutation : List String → ℕ → List Step → Option ℕ
last_mutation read_only_tools index [] = none
last_mutation read_only_tools index ((number, tool, arguments) ∷ steps) =
    elim (last_mutation read_only_tools (suc index) steps) [
      | some later ↦ some later
      | none ↦ if is_in read_only_tools tool then none else some index
    ]

-- `index > last_mutation`
abbrev pub is_after : ℕ → Option ℕ → Bool
is_after index none = true
is_after index (some last) = ltb last index

-- the loop of `prune_trajectory`, from a position and a number of kept steps on
unfoldable pub keep_steps : (String → Bool) → Option ℕ → ℕ → ℕ → List Step → List Step
keep_steps idle last index kept [] = []
keep_steps idle last index kept ((number, tool, arguments) ∷ steps) =
    let without = keep_steps idle last (suc index) kept steps in
    let with_it = (suc kept, tool, arguments) ∷ keep_steps idle last (suc index) (suc kept) steps in
    if idle tool && is_after index last then without else with_it

-- `prune_trajectory`
unfoldable pub prune_trajectory : List Step → OutcomeContract → List String → List Step
unfolding last_mutation keep_steps
prune_trajectory steps contract read_only_tools =
    keep_steps (is_idle contract read_only_tools) (last_mutation read_only_tools 0 steps) 0 0 steps
