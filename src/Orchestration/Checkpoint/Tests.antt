-- ===== src/Orchestration/Checkpoint/Tests.antt =====
-- A checkpoint of two work items that can be followed in orchestration/, and the theorems at it.
use trusted_ceo_agent.Prelude.{
  String, Bool, true, Option, none, some, List, [], ◌∷◌, ◌≡◌, refl, ok, All, count,
}
use trusted_ceo_agent.Orchestration.Items.{
  Status, GraphStatus, FailureCode, WorkItem, WorkGraph, Items, FailureCode-discrete,
}
use trusted_ceo_agent.Orchestration.Refresh.{
  settled, settle, pass, advance_at, advance, graph_status,
}
use trusted_ceo_agent.Orchestration.Easing.{held_by}
use trusted_ceo_agent.Orchestration.Graph.Fields.{
  string_set, timeout_policy, texts, non_empty_set, repeats_code,
}
use trusted_ceo_agent.Orchestration.Graph.Order.{
  stable_topological_order, check_ids, check_each, check_dependencies, decrement, release, kahn,
}
use trusted_ceo_agent.Orchestration.Graph.Validation.{
  validate_work_graph, check_items, check_dependency_sets,
}
use trusted_ceo_agent.Orchestration.Checkpoint.States.{
  TaskState, Body, Checkpoint, checkpoint_of, partitions_of, records_of,
}
use trusted_ceo_agent.Orchestration.Checkpoint.Verification.{
  restore_work_items, restore_each, restored_item, verify_work_checkpoint, check_packets,
  check_results, check_result,
}
use trusted_ceo_agent.Orchestration.Checkpoint.Restoration.{
  IsRestored, restore_work_items-IsRestored,
}
use trusted_ceo_agent.Orchestration.Scheduler.Building.{create, from_checkpoint}
use trusted_ceo_agent.Orchestration.Scheduler.Resuming.{from_checkpoint_idle}
use trusted_ceo_agent.Orchestration.Budget.{
  verify_work_budget_policy, validate_body, check_limits, texts as limit_texts,
  string_set as limit_string_set, normalized_datetime, check_effective_from,
}
use trusted_ceo_agent.Orchestration.Scheduler.State.{Scheduler, refresh}
use trusted_ceo_agent.Orchestration.Scheduler.Reporting.{Payload}
use trusted_ceo_agent.Orchestration.Tests.{
  item, graph, policy, digit_text, digest, zoned, policy_digest, any_policy,
}

-- A graph of two items whose ids and hashes are well formed, and a checkpoint of it: the first item
-- has succeeded, and the second one was running when the work stopped.
abbrev edge_digest : String → String → String
edge_digest a b = digit_text

abbrev node : String → List String → WorkItem
node id deps = record (item id deps) { graph_id = "graph_0123456789abcdef01234567" }

abbrev two : Items
two = node "a" [] ∷ node "b" ("a" ∷ []) ∷ []

abbrev resumed_graph : WorkGraph
resumed_graph = record graph {
  graph_id = "graph_0123456789abcdef01234567";
  run_id = "run_1";
  node_ids = "a" ∷ "b" ∷ [];
  required_node_ids = "a" ∷ "b" ∷ [];
  edge_ids = "edge_0123456789abcdef01234567" ∷ [];
  created_from_hash = digit_text;
}

abbrev won : TaskState
won = record {
  task_id = "a";
  status = Status.succeeded;
  attempt = 1;
  packet_hash = digit_text;
  lease_owner = none;
  lease_started_at = none;
  result_ref = some "ref1";
  result_hash = some "something";
  failure_code = none;
}

abbrev interrupted : TaskState
interrupted = record {
  task_id = "b";
  status = Status.running;
  attempt = 1;
  packet_hash = digit_text;
  lease_owner = some "w1";
  lease_started_at = some 9;
  result_ref = none;
  result_hash = none;
  failure_code = none;
}

abbrev saved : Body
saved = record {
  graph_id = "graph_0123456789abcdef01234567";
  run_id = "run_1";
  base_revision = 1;
  created_from_hash = digit_text;
  policy_release_id = "policy";
  sequence = 0;
  previous_checkpoint_ref = none;
  task_states = won ∷ interrupted ∷ [];
  partitions = record {
    pending_task_ids = [];
    ready_task_ids = [];
    running_task_ids = "b" ∷ [];
    terminal_task_ids = "a" ∷ [];
  };
  result_records =
      record { task_id = "a"; result_ref = "ref1"; result_hash = some "something" } ∷ [];
}

abbrev body_digest : Body → String
body_digest b = digit_text

abbrev any_checkpoint : Checkpoint → Bool
any_checkpoint c = true

abbrev store_of : String → Option Payload
store_of ref = some (1 ∷ [])

abbrev restored_two : Items
restored_two =
    record (node "a" []) {
      status = Status.succeeded;
      attempt = 1;
      result_ref = some "ref1";
      result_hash = some "something";
    }
    ∷ record (node "b" ("a" ∷ [])) {
      status = Status.ready;
      attempt = 1;
      failure_code = some FailureCode.source_unavailable;
    }
    ∷ []

two-restored :
    restore_work_items edge_digest body_digest any_checkpoint digest zoned policy_digest any_policy
      (checkpoint_of body_digest saved)
      resumed_graph
      two
      policy
      digit_text
      store_of
    ≡ ok restored_two
unfolding restore_work_items restore_each restored_item verify_work_checkpoint check_packets
    check_results check_result partitions_of validate_work_graph check_items check_dependency_sets
    stable_topological_order check_ids check_each check_dependencies decrement release kahn
    verify_work_budget_policy validate_body string_set timeout_policy texts non_empty_set
    repeats_code FailureCode-discrete check_limits limit_texts limit_string_set normalized_datetime
    check_effective_from records_of
two-restored = refl

restore_work_items-IsRestored_example : All (IsRestored store_of digest) restored_two
restore_work_items-IsRestored_example =
    restore_work_items-IsRestored edge_digest body_digest any_checkpoint digest zoned policy_digest
      any_policy (checkpoint_of body_digest saved) resumed_graph two policy digit_text store_of
      two-restored

abbrev resumed : Scheduler
resumed = record {
  graph = record resumed_graph { status = GraphStatus.running };
  items = restored_two;
  policy = policy;
  lease_started_at = [];
}

two-resumed :
    from_checkpoint edge_digest zoned policy_digest any_policy body_digest any_checkpoint digest
      resumed_graph two policy
      (checkpoint_of body_digest saved)
      digit_text
      store_of
    ≡ ok resumed
unfolding from_checkpoint create refresh graph_status settled settle pass advance_at advance
    validate_work_graph check_items check_dependency_sets stable_topological_order check_ids
    check_each check_dependencies decrement release kahn verify_work_budget_policy validate_body
    string_set timeout_policy texts non_empty_set repeats_code FailureCode-discrete check_limits
    limit_texts limit_string_set normalized_datetime check_effective_from records_of
two-resumed = rw two-restored refl

from_checkpoint_idle_example :
    (count (held_by (λ _. true)) restored_two ≡ 0) × (resumed.lease_started_at ≡ [])
from_checkpoint_idle_example =
    from_checkpoint_idle edge_digest zoned policy_digest any_policy body_digest any_checkpoint
      digest resumed_graph two policy (checkpoint_of body_digest saved) digit_text store_of
      two-resumed
