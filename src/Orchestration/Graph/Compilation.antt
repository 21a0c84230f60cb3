-- ===== src/Orchestration/Graph/Compilation.antt =====
-- orchestration/graph.py: `_normalize_spec`, `compile_work_graph` and `work_idempotency_key`. The
-- canonical hashes and the schema store are parameters.
use Prim.Native.String.{slice, ◌++◌ as append}
use trusted_ceo_agent.Prelude.{
  ℕ, String, Bool, not, none, List, [], ◌∷◌, map, all, filter, is_nil, sort, str_le, starts_with,
  contains, has_duplicates, Outcome, ok, ◌>>=◌, ◌>>◌, check,
}
use trusted_ceo_agent.Orchestration.Items.{
  Profile, TimeoutPolicy, WorkItem, WorkGraph, Items, GraphStatus, pending,
}
use trusted_ceo_agent.Orchestration.Graph.Fields.{
  GraphError, text, hash, string_set, non_empty_set, timeout_policy, invalid_run_id, no_items,
  duplicate_key, unknown_case, dangling_key, schema_violation,
}
use trusted_ceo_agent.Orchestration.Graph.Validation.{validate_work_graph, all_edges, item_ids}

-- `SPEC_FIELDS`.
pub record Spec : Type 0 where
  pub local_key : String
  pub signal_case_id : String
  pub event_id : String
  pub domain : String
  pub issue_family : String
  pub procedure_refs : List String
  pub dependency_keys : List String
  pub required : Bool
  pub packet_ref : String
  pub packet_hash : String
  pub pack_release_id : String
  pub timeout_policy : TimeoutPolicy

-- `_normalize_spec`.
pub normalize_spec : Spec → Outcome GraphError Spec
normalize_spec s = do
  text s.local_key
  text s.signal_case_id
  text s.event_id
  text s.domain
  text s.issue_family
  procedures ← string_set s.procedure_refs
  keys ← string_set s.dependency_keys
  text s.packet_ref
  hash s.packet_hash
  text s.pack_release_id
  timeouts ← timeout_policy s.timeout_policy
  ok (record s { procedure_refs = procedures; dependency_keys = keys; timeout_policy = timeouts })

pub normalize_specs : List Spec → Outcome GraphError (List Spec)
normalize_specs [] = ok []
normalize_specs (s ∷ ss) =
    let rest = normalize_specs ss in do t ← normalize_spec s; ts ← rest; ok (t ∷ ts)

-- `source`, what the generation is hashed from.
pub record Source : Type 0 where
  pub run_id : String
  pub base_revision : ℕ
  pub signal_case_ids : List String
  pub work_item_specs : List Spec
  pub policy_release_id : String
  pub concurrency_profile_id : Profile

pub check_specs : List String → List String → List Spec → Outcome GraphError (Unit {0})
check_specs cases known [] = ok tt
check_specs cases known (s ∷ ss) =
    let rest = check_specs cases known ss in
    do
      check (contains cases s.signal_case_id) unknown_case
      check (all (contains known) s.dependency_keys) dangling_key
      rest

abbrev by_key : Spec → Spec → Bool
by_key s t = str_le s.local_key t.local_key

abbrev by_id : WorkItem → WorkItem → Bool
by_id x y = str_le x.task_id y.task_id

module _ (source_digest : Source → String) (task_digest : String → String → String)
    (edge_digest : String → String → String) (schema_ok : WorkGraph → Items → Bool) where
  abbrev task_id : String → String → String
  task_id graph_id key = append "task_" (slice (task_digest graph_id key) 0 24)

  pub item_of : String → String → Spec → WorkItem
  item_of graph_id policy s = record {
    task_id = task_id graph_id s.local_key;
    graph_id = graph_id;
    signal_case_id = s.signal_case_id;
    event_id = s.event_id;
    domain = s.domain;
    issue_family = s.issue_family;
    procedure_refs = s.procedure_refs;
    dependency_ids = sort str_le (map (task_id graph_id) s.dependency_keys);
    required = s.required;
    packet_ref = s.packet_ref;
    packet_hash = s.packet_hash;
    pack_release_id = s.pack_release_id;
    policy_release_id = policy;
    attempt = 0;
    timeout_policy = s.timeout_policy;
    status = pending;
    lease_owner = none;
    result_ref = none;
    result_hash = none;
    failure_code = none;
  }

  pub graph_of : Source → Items → WorkGraph
  graph_of src items = record {
    graph_id = append "graph_" (slice (source_digest src) 0 24);
    run_id = src.run_id;
    base_revision = src.base_revision;
    signal_case_ids = src.signal_case_ids;
    node_ids = item_ids items;
    edge_ids = sort str_le (all_edges edge_digest items);
    required_node_ids = sort str_le (item_ids (filter (λ x. x.required) items));
    policy_release_id = src.policy_release_id;
    concurrency_profile_id = src.concurrency_profile_id;
    created_from_hash = source_digest src;
    status = GraphStatus.pending;
    checkpoint_ref = none;
  }

  pub compile_work_graph :
      String
      → ℕ
      → List String
      → List Spec
      → String
      → Profile
      → Outcome GraphError (WorkGraph × Items)
  compile_work_graph run_id base_revision case_ids raw_specs policy profile = do
    text run_id
    check (starts_with run_id "run_") invalid_run_id
    cases ← non_empty_set case_ids
    text policy
    check (not (is_nil raw_specs)) no_items
    unsorted ← normalize_specs raw_specs
    let specs = sort by_key unsorted
    let keys : List String = map (λ s. s.local_key) specs
    check (not (has_duplicates keys)) duplicate_key
    check_specs cases keys specs
    let src : Source = record {
      run_id = run_id;
      base_revision = base_revision;
      signal_case_ids = cases;
      work_item_specs = specs;
      policy_release_id = policy;
      concurrency_profile_id = profile;
    }
    let graph_id = append "graph_" (slice (source_digest src) 0 24)
    let items = sort by_id (map (item_of graph_id policy) specs)
    let graph = graph_of src items
    validate_work_graph edge_digest graph items none
    check (schema_ok graph items) schema_violation
    ok (graph, items)

-- `work_idempotency_key`.
pub work_idempotency_key :
    (String → String → String → String) → WorkItem → Outcome GraphError String
work_idempotency_key digest x = do
  text x.task_id
  hash x.packet_hash
  text x.policy_release_id
  ok (append "idem_" (digest x.task_id x.packet_hash x.policy_release_id))
