-- ===== src/Orchestration/Checkpoint/Verification.antt =====
-- orchestration/checkpoint.py: `verify_work_checkpoint` and `restore_work_items`.
use Prim.Native.String.{slice, ◌++◌ as append}
use trusted_ceo_agent.Prelude.{
  ℕ, ◌==◌, String, Bool, true, false, ◌&&◌, not, Option, none, some, List, [], ◌∷◌, ◌++◌, find, all,
  is_nil, ltb, sort, str_eq, contains, has_duplicates, if◌then◌else◌, Outcome, ok, raise, ◌>>=◌,
  ◌>>◌, check, under,
}
use trusted_ceo_agent.Orchestration.Items.{
  WorkItem, WorkGraph, Items, get, is_active, is_succeeded, ready, deep_review_pending, failed,
  source_unavailable, model_timeout,
}
use trusted_ceo_agent.Orchestration.Budget.{
  Policy, PolicyBody, verify_work_budget_policy, by_task_id,
}
use trusted_ceo_agent.Orchestration.Graph.Validation.{validate_work_graph, item_ids, same_texts}
use trusted_ceo_agent.Orchestration.Checkpoint.States.{
  CheckpointError, TaskState, ResultRecord, Partitions, Body, Checkpoint, partitions_of,
  sorted_records, state_ids, schema_violation, stale_anchor, hash_mismatch, id_mismatch,
  no_task_states, duplicate_states, other_tasks, packet_mismatch, partition_mismatch,
  results_mismatch, lacks_result, payload_unavailable, result_mismatch, unknown_task, in_graph,
  in_policy,
}
use trusted_ceo_agent.Orchestration.Scheduler.Reporting.{Payload}

-- `set(a) == set(b)`.
abbrev same_set : List String → List String → Bool
same_set a b = all (contains b) a && all (contains a) b

-- The loop over `state_by_id`, whose ids are the items'.
unfoldable pub check_packets : Items → List TaskState → Outcome CheckpointError (Unit {0})
check_packets items [] = ok tt
check_packets items (s ∷ ss) =
    let rest = check_packets items ss in
    elim (get s.task_id items) [
      | none ↦ raise unknown_task
      | some x ↦ (do check (str_eq s.packet_hash x.packet_hash) packet_mismatch; rest)
    ]

abbrev same_option : Option String → Option String → Bool
same_option none none = true
same_option (some a) (some b) = str_eq a b
same_option _ _ = false

abbrev same_records : List ResultRecord → List ResultRecord → Bool
same_records [] [] = true
same_records (a ∷ as_) (b ∷ bs) =
    (str_eq a.task_id b.task_id
      && (str_eq a.result_ref b.result_ref && same_option a.result_hash b.result_hash))
    && same_records as_ bs
same_records _ _ = false

abbrev same_partitions : Partitions → Partitions → Bool
same_partitions p q =
    same_texts p.pending_task_ids q.pending_task_ids
    && (same_texts p.ready_task_ids q.ready_task_ids
        && (same_texts p.running_task_ids q.running_task_ids
            && same_texts p.terminal_task_ids q.terminal_task_ids))

abbrev covered : Partitions → List String
covered p = p.pending_task_ids ++ p.ready_task_ids ++ p.running_task_ids ++ p.terminal_task_ids

-- The result of a succeeded task: its payload is there and has its hash.
unfoldable pub check_result :
    (String → Option Payload)
    → (Payload → String)
    → Option String
    → Option String
    → Outcome CheckpointError (Unit {0})
check_result payloads sha256 (some r) (some h) = elim (payloads r) [
  | none ↦ raise payload_unavailable
  | some p ↦ check (str_eq (sha256 p) h) result_mismatch
]
check_result payloads sha256 _ _ = raise lacks_result

-- The last loop over the task states.
unfoldable pub check_results :
    (String → Option Payload)
    → (Payload → String)
    → List TaskState
    → Outcome CheckpointError (Unit {0})
check_results payloads sha256 [] = ok tt
check_results payloads sha256 (s ∷ ss) =
    let rest = check_results payloads sha256 ss in
    if is_succeeded s.status
    then check_result payloads sha256 s.result_ref s.result_hash >> rest
    else rest

-- The anchors of a checkpoint in its graph.
abbrev check_anchors : Body → WorkGraph → Outcome CheckpointError (Unit {0})
check_anchors b g = do
  check (str_eq b.graph_id g.graph_id) stale_anchor
  check (str_eq b.run_id g.run_id) stale_anchor
  check (b.base_revision == g.base_revision) stale_anchor
  check (str_eq b.created_from_hash g.created_from_hash) stale_anchor
  check (str_eq b.policy_release_id g.policy_release_id) stale_anchor

-- The item that a state restores; one that was leased or running starts over, or has timed out.
unfoldable pub restored_item : ℕ → WorkItem → TaskState → WorkItem
restored_item max_attempts original s =
    let x : WorkItem = record original {
      status = s.status;
      attempt = s.attempt;
      lease_owner = s.lease_owner;
      result_ref = s.result_ref;
      result_hash = s.result_hash;
      failure_code = s.failure_code;
    } in
    let idle : WorkItem = record x { lease_owner = none; result_ref = none; result_hash = none } in
    if not (is_active s.status)
    then x
    else if ltb s.attempt max_attempts
    then record idle { status = ready; failure_code = some source_unavailable }
    else if original.required
    then record idle { status = deep_review_pending; failure_code = some model_timeout }
    else record idle { status = failed; failure_code = some model_timeout }

-- The loop over the items.
unfoldable pub restore_each : ℕ → List TaskState → Items → Outcome CheckpointError Items
restore_each max_attempts states [] = ok []
restore_each max_attempts states (x ∷ xs) =
    let rest = restore_each max_attempts states xs in
    elim (find (λ s. str_eq s.task_id x.task_id) states) [
      | none ↦ raise unknown_task
      | some s ↦ (do ys ← rest; ok (restored_item max_attempts x s ∷ ys))
    ]

module _ (edge_digest : String → String → String) (digest : Body → String)
    (schema_ok : Checkpoint → Bool) (sha256 : Payload → String) where
  unfoldable pub verify_work_checkpoint :
      Checkpoint
      → WorkGraph
      → Items
      → String
      → (String → Option Payload)
      → Outcome CheckpointError (Unit {0})
  verify_work_checkpoint c g items active_hash payloads = do
    under in_graph (validate_work_graph edge_digest g items (some active_hash))
    check_anchors c.body g
    check (str_eq c.content_hash (digest c.body)) hash_mismatch
    check (str_eq c.checkpoint_id (append "checkpoint_" (slice (digest c.body) 0 24))) id_mismatch
    check (not (is_nil c.body.task_states)) no_task_states
    check (not (has_duplicates (state_ids c.body.task_states))) duplicate_states
    check (same_set (state_ids c.body.task_states) (item_ids items)) other_tasks
    check_packets items c.body.task_states
    expected ← partitions_of c.body.task_states
    check (same_partitions c.body.partitions expected) partition_mismatch
    check (same_set (covered expected) (state_ids c.body.task_states)) partition_mismatch
    check (same_records c.body.result_records (sorted_records c.body.task_states)) results_mismatch
    check_results payloads sha256 c.body.task_states
    check (schema_ok c) schema_violation

  module _ (fromisoformat : String → Option Bool) (policy_digest : PolicyBody → String)
      (policy_ok : Policy → Bool) where
    unfoldable pub restore_work_items :
        Checkpoint
        → WorkGraph
        → Items
        → Policy
        → String
        → (String → Option Payload)
        → Outcome CheckpointError Items
    restore_work_items c g items policy active_hash payloads = do
      under in_policy (verify_work_budget_policy fromisoformat policy_digest policy_ok policy)
      verify_work_checkpoint c g items active_hash payloads
      restore_each policy.max_model_attempts_per_task c.body.task_states (sort by_task_id items)
