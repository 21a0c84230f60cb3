-- ===== src/Lib.antt =====
-- The core of the trusted-CEO-agent plugin: the workflow of a run, its completion, the grading of its issues, and the
-- scheduling of its analysis work. Paths are relative to plugin/trusted-ceo-agent/trusted_ceo_agent/.
--
-- A run is a document whose status the state machine (workflow/state_machine.py) moves on events; the
-- events' contexts carry what the other components have checked. Issues that the analysis has found are
-- reduced (grading/reducer.py) to a grading input, and graded (grading/grader.py). The analysis work
-- itself is a graph of work items (orchestration/graph.py) under a budget policy
-- (orchestration/budget.py), which the scheduler (orchestration/scheduler.py) leases to workers; a
-- checkpoint (orchestration/checkpoint.py) saves the work and restores it. The cases that the signals
-- raise stand in a queue (analysis/signal_queue.py), of which one at a time is investigated. Packs state
-- their rules as conditions (contracts/condition_dsl.py).
--
-- Prelude: tests, lists, texts and `Outcome`, what a function that may raise returns.
-- Workflow.States, Workflow.Rules, Workflow.Transition: workflow/state_machine.py. `Status` is
--   STATUSES, `table` is TABLE with its guards in order, `transition` is the function of that name, and
--   `run` gives it a list of events, keeping the document where it raises. A `Context` has a field for
--   each key that a guard reads.
-- Workflow.Completion: workflow/completion.py, in Findings (`_finding_valid`) and Assessing
--   (`assess_completion` with its verification); a key that is compared with one value only is a Boolean.
-- Grading.Inputs, Grading.Grader: grading/grader.py; `grade` is the function of that name.
-- Grading.Reducer: grading/reducer.py; missing keys are `none` and get the source's defaults.
-- Orchestration.Items: the documents of work items and graphs, and the sets of statuses.
-- Orchestration.Graph: orchestration/graph.py, in Fields (the field checks), Order (the topological
--   order), Validation and Compilation.
-- Orchestration.Budget: orchestration/budget.py.
-- Orchestration.Refresh: WorkScheduler._refresh.
-- Orchestration.Scheduler: WorkScheduler. `Scheduler` in State is the object's four attributes; Leasing,
--   Reporting, Sweeping and Building hold the methods, each giving what it returns or raises beside the
--   scheduler that it leaves, so that what was written before a raise stays written. Calls has a step
--   for each method that changes state. The other modules there hold proofs.
-- Orchestration.Checkpoint: orchestration/checkpoint.py, in States and Verification.
-- Analysis.Cases: the documents of analysis/signal_queue.py with `_verify_priority` and `_verify_case`.
-- Analysis.Queue: SignalCaseQueue. `Queue` in State is the object's attributes; Starting has the
--   constructor and the accessors, Methods the methods, each of which gives what it returns or raises
--   beside the queue that it leaves. `call` gives a request to its method, and `run` makes calls in turn.
--   The other modules there hold proofs.
-- Analysis.Materialize: materialize_signal_cases of the same file, in Specs (the checks), Merging (the
--   loops over the specifications) and Building (the documents). Analysis.Pipeline: both together.
-- Conditions: contracts/condition_dsl.py up to `validate_condition`, in Syntax and Validation. A text that
--   is split into tokens is the list of its code points.
-- Orchestration.Easing, Orchestration.Evolving: how calls may change an item, for the proofs.
--
-- Types stand for the source's checks of kinds, of enumerations and of the keys of a document; a record
-- has exactly the document's keys. Numbers are natural numbers where the source demands one that is not
-- negative. Parameters stand for SHA-256 over canonical JSON bytes, for the schema store's validation,
-- for Decimal and for date and datetime.fromisoformat; no theorem assumes anything of them.
--
-- Fuel: the loop of _refresh runs on one more than the number of pending items, since each pass that
-- changes anything takes one out of `pending`. The loop of cancel runs on the number of items, since
-- each pass but the last adds one. The loop of the topological order runs on the number of items, and an
-- order that is not complete is refused. All other loops are recursions on lists or on expressions.
--
-- Not modelled: the other parts of the workflow (approvals, responses, revisions), the rest of the
-- analysis, the evaluation of conditions, the evidence, routing and knowledge, which come after these;
-- intake, outputs, the service and the command line, which read and write files, pages and requests.
pub mod Prelude
pub mod Workflow
pub mod Grading
pub mod Orchestration
pub mod Analysis
pub mod Conditions
