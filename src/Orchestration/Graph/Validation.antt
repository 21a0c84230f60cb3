-- ===== src/Orchestration/Graph/Validation.antt =====
-- orchestration/graph.py: `validate_work_graph`. The canonical hash of an edge is a parameter.
use Prim.Native.String.{slice, ◌++◌ as append}
use trusted_ceo_agent.Prelude.{
  String, Bool, true, false, ◌&&◌, not, Option, none, some, List, [], ◌∷◌, ◌++◌, map, all, filter,
  leb, sort, str_le, str_eq, starts_with, contains, has_duplicates, Outcome, ok, ◌>>=◌, ◌>>◌, check,
}
use trusted_ceo_agent.Orchestration.Items.{WorkItem, WorkGraph, Items}
use trusted_ceo_agent.Orchestration.Graph.Fields.{
  GraphError, text, hash, string_set, non_empty_set, timeout_policy, graph_id_mismatch,
  stale_generation, invalid_run_id, required_not_subset, node_ids_mismatch, other_graph,
  other_policy, unknown_case, too_many_attempts, required_mismatch, edges_mismatch,
}
use trusted_ceo_agent.Orchestration.Graph.Order.{stable_topological_order}

-- `==` on lists of texts.
abbrev pub same_texts : List String → List String → Bool
same_texts [] [] = true
same_texts (x ∷ xs) (y ∷ ys) = str_eq x y && same_texts xs ys
same_texts _ _ = false

abbrev pub item_ids : Items → List String
item_ids = map (λ x. x.task_id)

abbrev optional_text : Option String → Outcome GraphError (Unit {0})
optional_text none = ok tt
optional_text (some s) = text s

-- `active_created_from_hash`, where one is given.
abbrev check_active : WorkGraph → Option String → Outcome GraphError (Unit {0})
check_active g none = ok tt
check_active g (some active) = do
  hash active
  check (str_eq g.created_from_hash active) stale_generation

-- The loop over the items.
unfoldable pub check_items : WorkGraph → List String → Items → Outcome GraphError (Unit {0})
check_items g cases [] = ok tt
check_items g cases (x ∷ xs) =
    let rest = check_items g cases xs in
    do
      check (str_eq x.graph_id g.graph_id) other_graph
      check (str_eq x.policy_release_id g.policy_release_id) other_policy
      check (contains cases x.signal_case_id) unknown_case
      hash x.packet_hash
      timeout_policy x.timeout_policy
      check (leb x.attempt 2) too_many_attempts
      rest

-- `"edge_"` and 24 digits of the edge's hash.
abbrev pub edge_id : (String → String → String) → String → String → String
edge_id digest predecessor successor = append "edge_" (slice (digest predecessor successor) 0 24)

abbrev pub edges_of : (String → String → String) → WorkItem → List String
edges_of digest x = map (λ d. edge_id digest d x.task_id) (sort str_le x.dependency_ids)

abbrev pub all_edges : (String → String → String) → Items → List String
all_edges digest [] = []
all_edges digest (x ∷ xs) = edges_of digest x ++ all_edges digest xs

-- `{_string_set(item["dependency_ids"]) for item in items}` raises before the edges are compared.
unfoldable pub check_dependency_sets : Items → Outcome GraphError (Unit {0})
check_dependency_sets [] = ok tt
check_dependency_sets (x ∷ xs) =
    let rest = check_dependency_sets xs in do string_set x.dependency_ids; rest

unfoldable pub validate_work_graph :
    (String → String → String) → WorkGraph → Items → Option String → Outcome GraphError (Unit {0})
validate_work_graph edge_digest g items active = do
  hash g.created_from_hash
  check (str_eq g.graph_id (append "graph_" (slice g.created_from_hash 0 24))) graph_id_mismatch
  check_active g active
  check (starts_with g.run_id "run_") invalid_run_id
  cases ← non_empty_set g.signal_case_ids
  node_ids ← non_empty_set g.node_ids
  required ← string_set g.required_node_ids
  check (all (contains node_ids) required) required_not_subset
  text g.policy_release_id
  optional_text g.checkpoint_ref
  check
      (not (has_duplicates (item_ids items)) && same_texts (sort str_le (item_ids items)) node_ids)
      node_ids_mismatch
  check_items g cases items
  check (same_texts (sort str_le (item_ids (filter (λ x. x.required) items))) required)
      required_mismatch
  check_dependency_sets items
  edges ← string_set g.edge_ids
  check (same_texts (sort str_le (all_edges edge_digest items)) edges) edges_mismatch
  stable_topological_order items
  ok tt
