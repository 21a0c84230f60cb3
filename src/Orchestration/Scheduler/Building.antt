-- ===== src/Orchestration/Scheduler/Building.antt =====
-- orchestration/scheduler.py: `__init__`, `from_checkpoint`, `work_items`, `checkpoint` and
-- `semantic_result_manifest`. The hashes, the schemas and `datetime.fromisoformat` are parameters.
use trusted_ceo_agent.Prelude.{
  ℕ, String, Bool, not, Option, none, List, [], map, any, ltb, sort, Outcome, ok, ◌>>=◌, ◌>>◌,
  check, under,
}
use trusted_ceo_agent.Orchestration.Items.{
  Status, FailureCode, WorkItem, WorkGraph, Items, same_profile,
}
use trusted_ceo_agent.Orchestration.Budget.{
  Policy, PolicyBody, BudgetError, verify_work_budget_policy, by_task_id,
}
use trusted_ceo_agent.Orchestration.Graph.Fields.{GraphError}
use trusted_ceo_agent.Orchestration.Graph.Validation.{validate_work_graph}
use trusted_ceo_agent.Orchestration.Checkpoint.States.{
  CheckpointError, Body, Checkpoint, build_work_checkpoint,
}
use trusted_ceo_agent.Orchestration.Checkpoint.Verification.{restore_work_items}
use trusted_ceo_agent.Orchestration.Scheduler.State.{Scheduler, refresh}
use trusted_ceo_agent.Orchestration.Scheduler.Reporting.{Payload}

-- One constructor for each message of `ContractError`, and those of the functions called.
pub data BuildError : Type 0 where
  profile_not_approved timeout_too_long : BuildError
  in_policy : BudgetError → BuildError
  in_graph : GraphError → BuildError
  in_checkpoint : CheckpointError → BuildError

-- `work_items`, sorted by id.
abbrev pub work_items : Scheduler → Items
work_items s = sort by_task_id s.items

-- `checkpoint`.
abbrev pub checkpoint :
    (String → String → String)
    → (Body → String)
    → (Checkpoint → Bool)
    → ℕ
    → Option String
    → Scheduler
    → Outcome CheckpointError Checkpoint
checkpoint edge_digest digest schema_ok sequence previous s =
    build_work_checkpoint edge_digest digest schema_ok s.graph (work_items s) sequence previous
      s.lease_started_at

-- One of the `task_results`.
pub record TaskResult : Type 0 where
  pub task_id : String
  pub status : Status
  pub result_ref : Option String
  pub result_hash : Option String
  pub failure_code : Option FailureCode

pub record Manifest : Type 0 where
  pub created_from_hash : String
  pub policy_release_id : String
  pub task_results : List TaskResult

abbrev task_result : WorkItem → TaskResult
task_result x = record {
  task_id = x.task_id;
  status = x.status;
  result_ref = x.result_ref;
  result_hash = x.result_hash;
  failure_code = x.failure_code;
}

-- `semantic_result_manifest`.
pub semantic_result_manifest : Scheduler → Manifest
semantic_result_manifest s = record {
  created_from_hash = s.graph.created_from_hash;
  policy_release_id = s.graph.policy_release_id;
  task_results = map task_result (work_items s);
}

module _ (edge_digest : String → String → String) (fromisoformat : String → Option Bool)
    (policy_digest : PolicyBody → String) (policy_ok : Policy → Bool) where
  -- `__init__`.
  unfoldable pub create : WorkGraph → Items → Policy → Outcome BuildError Scheduler
  create g items policy = do
    under in_policy (verify_work_budget_policy fromisoformat policy_digest policy_ok policy)
    under in_graph (validate_work_graph edge_digest g items none)
    check (same_profile policy.approved_concurrency_profile_id g.concurrency_profile_id)
        profile_not_approved
    check (not (any (λ x. ltb policy.task_timeout x.timeout_policy.timeout_seconds) items))
        timeout_too_long
    ok (refresh (record { graph = g; items = items; policy = policy; lease_started_at = [] }))

  module _ (digest : Body → String) (schema_ok : Checkpoint → Bool)
      (sha256 : Payload → String) where
    unfoldable pub from_checkpoint :
        WorkGraph
        → Items
        → Policy
        → Checkpoint
        → String
        → (String → Option Payload)
        → Outcome BuildError Scheduler
    from_checkpoint g items policy c active_hash payloads = do
      restored ← under in_checkpoint (
          restore_work_items edge_digest digest schema_ok sha256 fromisoformat policy_digest
            policy_ok c g items policy active_hash payloads)
      create g restored policy
