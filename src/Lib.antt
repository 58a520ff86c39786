-- ===== src/Lib.antt =====
-- RESTScope explores a REST API with Agents. This library models the deterministic parts that the
-- Agents cannot bypass, and proves what they promise.
--
-- The parts and how they meet. An Orchestrator proposes decisions; `OrchestrationRuntime.run` applies
-- each to the `TaskLedger`, which refuses what does not fit, and runs a Task Executor for a dispatched
-- Task. Every Agent is a member of an Agent tree with a token budget, which owns slots, parentage and
-- cancellation. The inputs of a request are indexed from the parsed operation. A bandit selects a
-- Generator for each input, and the constraint sets that still apply; these are validated against the
-- inputs, and the solver evaluates them while only some inputs are assigned. Responses go to the Bug
-- Oracle, which asks for one Replay and gives the verdict.
--
-- Files, by the Python module they model (paths from the repository's root):
--   Prelude            shared names, list and text helpers, the decimal print of f-strings
--   Orchestration/Models     restscope/orchestration/models.py: the records, as records
--   Orchestration/Ledger     restscope/orchestration/ledger.py: `TaskLedger` is a record, a method is a
--       function into `Result`; Ledger/Execution has the methods on Tasks; Ledger/Invariant what a valid
--       Ledger is; Ledger/Replans and Ledger/Dispatches what a replan and a dispatch ask for and leave, in
--       words of their own; the other files below Ledger what each method does
--   Orchestration/Runtime    restscope/orchestration/runtime.py: `_build_goal` and the loop of `run`
--   Orchestration/Contracts  restscope/orchestration/contracts.py: the validator of Task results;
--       Contracts/Decisions is that of Orchestrator decisions, on the aliases of `_run_orchestrator`
--   Constraints        restscope/request_generation/constraints.py: Values and Expressions are the data,
--       Evaluation the two evaluators, Evaluation/Soundness and Collecting relate them; Association is
--       `associated_constraint_ids`, Normalization is `normalize_constraint_set`, Classification
--       `classify_constraint`, Validation `validate_constraint_set`; Validation/Meeting and Outcomes
--       carry what holds through its steps, Accepted and Indexed say what it accepts and refuses
--   Selection          restscope/request_generation/selection.py: the bandit that picks Generators;
--       Choosing is `choose_case_generators`; Members, Bandit, Exempting, Grouping, Purposes and Slots are
--       its properties
--   Inputs             restscope/request_generation/models.py: the inputs of an operation, and forests
--   InputNodes         restscope/openapi_parser/input_nodes.py: Schemas is what it reads of ir.py, Segments
--       the names in paths, Building `build_operation_input_nodes`; Reach says which inputs an operation has;
--       Encoding, Closure, Growing and Forest are its properties
--   ConstraintSolver   restscope/request_generation/constraint_solver.py: Candidates are
--       `_partial_candidate` and `_complete_candidate`, Search is the search of `solve_input_overrides`,
--       Records the test on resource identifiers; Lineage and Pruning say what the loops over parents
--       compute, Choices is the brute force, Exactness compares the search with it, Reading instantiates
--       that, Solving and Satisfying state what the solver returns; Units is `_build_search_units`, with
--       Counting, Groups, Filling, Building and Solved on the inputs of its units
--   AgentTree          restscope/harness/agent_control.py: Budget is `RolloutBudget`, Control is
--       `AgentTreeControl`; Control/Steps is the relation of its critical sections
--   AgentPlan          restscope/tools/plan/runtime.py: the Plan of an Agent session and its Tools
--   BugOracle          restscope/api_behavior_monitor/oracle.py and the Oracle's part of catalog.py
--
-- How state and environment are modelled. Mutable objects are records that a function takes and returns.
-- A `ValueError`, a `ToolFailure` or a refusal by pydantic is a value. What Agents, providers and threads
-- do is an argument: the answers in a run, whether a submission fails, the order of the critical
-- sections. Python's numbers, other JSON values and `re.search` are the record `Host`, the storage of
-- the Catalog the record `ApiBehaviorCatalog`, the reference values of a run the record
-- `ReferenceValueProvider`, `json.dumps` of an expression the record `CanonicalKey`, the SHA-256 and
-- the case of texts the record `TextHost`, and floats with what `SeededRandom` draws for a scope the record
-- `SelectionHost`; whether `re.compile` accepts a pattern is a function. The budget counts weighted
-- tokens exactly, in tenths, where the source adds floats. Python's mappings are functions or lists in
-- insertion order, and its sets lists that are read by membership. Texts are compared and clipped by
-- characters.
--
-- Loops are structural: the run loop on the list of answers, which may end before the loop does, the
-- rest on the lists they go through. `associated_constraint_ids` has fuel for one round per constraint
-- and a last one, which is enough, since every other round adds a constraint; `decimal` has fuel of one
-- more than the number, which its digits never use up. The loops over the parents of an input have
-- fuel for as many parents as there are inputs, which is enough for the forests that a specification
-- gives.
--
-- What is assumed of the inputs is written at each result. The identities of inputs are cut from a
-- SHA-256, so that they are apart is assumed of the inputs of one operation only. That a candidate gives
-- no value to an input that has children is assumed by the results on the solver: `_candidate_domain`
-- does not see to it, and ConstraintSolver/Tests has a run without it.
--
-- Not modelled: prompts and projections, observer callbacks, schemas, the limits on the length of
-- text fields, `close_descendants`, the execution limiter, `executor.shutdown`, how the solver
-- builds the domains of its search and counts references, how a snapshot selects among the inputs,
-- and every part of the repository that is input and output, storage, parsing of OpenAPI documents
-- or user interface.
pub mod Prelude
pub mod Orchestration
pub mod Selection
pub mod Inputs
pub mod Constraints
pub mod ConstraintSolver
pub mod AgentTree
pub mod InputNodes
pub mod BugOracle
pub mod AgentPlan
