-- ===== src/Orchestration/Graph/Order.antt =====
-- orchestration/graph.py: `stable_topological_order`, Kahn's algorithm with a heap of ids. The heap
-- is a sorted list: `heappop` takes its least text, its head.
use trusted_ceo_agent.Prelude.{
  ℕ, zero, suc, ◌-◌, ◌==◌, String, Bool, false, not, List, [], ◌∷◌, ◌++◌, map, if◌then◌else◌,
  filter, is_nil, length, insert_sorted, sort, str_le, str_eq, contains, Outcome, ok, ◌>>=◌, ◌>>◌,
  check,
}
use trusted_ceo_agent.Orchestration.Items.{Items}
use trusted_ceo_agent.Orchestration.Graph.Fields.{
  GraphError, text, string_set, duplicate_item, no_items, dangling_dependency, self_dependency,
  cyclic,
}

-- `by_id`: the ids, checked in the order of the items.
unfoldable pub check_ids : List String → Items → Outcome GraphError (List String)
check_ids seen [] = ok seen
check_ids seen (x ∷ xs) =
    let rest = check_ids (seen ++ x.task_id ∷ []) xs in
    do text x.task_id; check (not (contains seen x.task_id)) duplicate_item; rest

unfoldable pub check_each : List String → String → List String → Outcome GraphError (Unit {0})
check_each known task_id [] = ok tt
check_each known task_id (d ∷ ds) =
    let rest = check_each known task_id ds in
    do
      check (contains known d) dangling_dependency
      check (not (str_eq d task_id)) self_dependency
      rest

-- The dependencies of every item are sets of texts that name other items.
unfoldable pub check_dependencies : List String → Items → Outcome GraphError (Unit {0})
check_dependencies known [] = ok tt
check_dependencies known (x ∷ xs) =
    let rest = check_dependencies known xs in
    do dependencies ← string_set x.dependency_ids; check_each known x.task_id dependencies; rest

-- `indegree`.
abbrev pub Degrees : Type 0
Degrees = List (String × ℕ)

abbrev pub degrees : Items → Degrees
degrees = map (λ x. (x.task_id, length x.dependency_ids))

-- `sorted(successors[task_id])`.
abbrev pub successors : String → Items → List String
successors id items =
    sort str_le (map (λ x. x.task_id) (filter (λ x. contains x.dependency_ids id) items))

-- `indegree[id] -= 1`, beside the test that it is 0 now.
unfoldable pub decrement : String → Degrees → Degrees × Bool
decrement id [] = ([], false)
decrement id ((j, n) ∷ ds) =
    let (rest, zeroed) = decrement id ds in
    if str_eq j id then ((j, n - 1) ∷ ds, (n - 1) == 0) else ((j, n) ∷ rest, zeroed)

-- The `for` loop over a popped item's successors.
unfoldable pub release : List String → Degrees → List String → Degrees × List String
release [] ds ready = (ds, ready)
release (id ∷ ids) ds ready =
    let (after, zeroed) = decrement id ds in
    release ids after (if zeroed then insert_sorted str_le id ready else ready)

-- The `while ready` loop, on as much fuel as there are items: each round appends an id, and the
-- order is refused below unless it has one id for each item.
unfoldable pub kahn : ℕ → Items → Degrees → List String → List String → List String
kahn zero items ds ready order = order
kahn (suc fuel) items ds [] order = order
kahn (suc fuel) items ds (id ∷ ready) order =
    let (after, next) = release (successors id items) ds ready in
    kahn fuel items after next (order ++ id ∷ [])

abbrev pub sources : Items → List String
sources items = sort str_le (map (λ x. x.task_id) (filter (λ x. is_nil x.dependency_ids) items))

unfoldable pub stable_topological_order : Items → Outcome GraphError (List String)
stable_topological_order items = do
  known ← check_ids [] items
  check (not (is_nil known)) no_items
  check_dependencies known items
  let order = kahn (length items) items (degrees items) (sources items) []
  check (length order == length known) cyclic
  ok order
