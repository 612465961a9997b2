-- ===== src/Lib.antt =====
-- ActionWitness judges what an agent did to a web application by the state that it observed. The
-- core library, packages/actionwitness_core/src/actionwitness_core, takes a contract, the events of
-- a run and the snapshots of its state, and derives findings: each check of the contract has a
-- status, a severity and a classification, and the findings of a layer make its result. The service
-- around it stores runs and moves them through their states. This library models the core. Paths
-- below are within that directory.
--
-- Kernel     kernel.py: the error codes, as the error of a `Result`. A message and its details are
--            left out.
-- States     the states of runs, evaluation runs and suites of journeys/enums.py and
--            benchmarks/enums.py.
-- Lifecycle  journeys/transitions.py and benchmarks/states.py: the tables and their checks. Histories
--            and Suites are about sequences of accepted moves.
-- Json       kernel.py `JsonValue`, and `deep_equal` of engine/assertions.py. A finite float is an
--            exact binary fraction.
-- Paths      contracts/paths.py: paths, parsing, overlap and `resolve`.
-- Vocabulary the enumerations of contracts/enums.py, engine/enums.py, evidence/enums.py and
--            reports/enums.py that the checks use.
-- Evidence   evidence/models.py: run events and their order. An instant is a number.
-- Findings   engine/findings.py: the order of failures, the primary failure, the critical
--            classifications and the result of a layer.
-- Trajectory engine/trajectory.py: the expected tools against the recorded calls.
-- Policies   engine/policies.py: Inputs has what the evaluators read, Consent, Retries, Changes and
--            Surface the six evaluators, Attribution the cause of a change, and Shape what their findings
--            have in common.
-- Assertions engine/assertions.py: the operators, assertions and preconditions.
-- Classification  engine/classification.py: what a failed assertion is attributed to, and the tool
--            execution layer.
-- Security   security/: Limits the bounded summaries, Redaction the patterns and what is replaced, and
--            Canonical the canonical text of a value and its hashes, which end in an `Outcome`.
-- Diff       engine/diff.py: the comparison of two documents and their changes. Their excerpts are
--            bounded canonical texts.
-- Guidance   journeys/guidance.py: the phase of a workspace and what it is told to do.
-- Effects    evidence/effects.py: the bounding of values, and the fragment of an observation that an
--            event keeps.
-- Reports    reports/models.py: Reports composes findings and events into a report and checks its
--            shape, and Undeclared has the block of undeclared changes.
-- Comparison reports/comparison.py: the comparison of two runs.
-- Cases      evals/minimize.py: the fixture and the trajectory that an evaluation case keeps.
-- Matrix     benchmarks/matrix.py and its counts: which trials count, and the tally.
-- Intents    benchmarks/intents.py: the generated variants of an intent, and their validation.
-- Approval   benchmarks/approval.py: the human decision about them, and the frozen set.
-- Prelude    Boolean tests, lists, stable sorting, and text by code points.
-- Examples   the theorems at concrete runs, states and documents.
--
-- The checks of a run are pure functions of its evidence, so they are functions here; a raised error
-- is a `Result`. A Python set that the code sorts is a sorted list without duplicates, and a mapping
-- that it reads by key is an association list. All loops run over lists and are structural; only
-- `str(n)` of a number is on fuel, one more than the number, which bounds its digits.
--
-- A text is a list of Unicode scalar values: a Python string with a lone surrogate has no counterpart,
-- so the refusal of one is written down in Canonical and never met.
--
-- Not modelled: the service, the user interface, the integrations and the demonstration store, which
-- are storage, transport and presentation; and of the core, the contract validator, the evidence of declared effects,
-- the diff of tool surfaces, the canonical documents of reports, the models of evaluation
-- cases, and the rates and the screening of a benchmark. Parameters stand for what Python's
-- library does: `Decimal` in Assertions and Diff, `str.lower` in Redaction, the digits of a double and
-- SHA-256 in Canonical, `str` of a JSON value in Reports, `repr` of a text in Comparison, and the
-- tables of Unicode in Intents. That a subtraction of decimals may overflow and raise is left out.
mod Prelude
pub mod Kernel
pub mod States
pub mod Lifecycle
pub mod Json
pub mod Paths
pub mod Vocabulary
pub mod Evidence
pub mod Findings
pub mod Trajectory
pub mod Assertions
pub mod Policies
pub mod Classification
pub mod Security
pub mod Diff
pub mod Effects
pub mod Guidance
pub mod Reports
pub mod Comparison
pub mod Cases
pub mod Matrix
pub mod Intents
pub mod Approval
mod Examples
