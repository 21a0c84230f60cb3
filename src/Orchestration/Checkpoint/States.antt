-- ===== src/Orchestration/Checkpoint/States.antt =====
-- orchestration/checkpoint.py: `_task_state`, `_partitions` and `build_work_checkpoint`. The canonical
-- hash of a body and the schema's validation are parameters.
use Prim.Native.String.{slice, ◌++◌ as append}
use trusted_ceo_agent.Prelude.{
  ℕ, ◌+◌, ◌==◌, String, Bool, true, false, ◌&&◌, not, Option, none, some, List, [], ◌∷◌, map,
  filter, all, length, leb, sort, str_le, contains, is_some, is_none, is_empty_text, if◌then◌else◌,
  Outcome, ok, raise, ◌>>=◌, ◌>>◌, check, under,
}
use trusted_ceo_agent.Orchestration.Items.{
  Status, FailureCode, WorkItem, WorkGraph, Items, LeaseTimes, time_of, is_active, is_pending,
  is_ready, is_terminal, is_succeeded,
}
use trusted_ceo_agent.Orchestration.Budget.{BudgetError}
use trusted_ceo_agent.Orchestration.Graph.Fields.{GraphError}
use trusted_ceo_agent.Orchestration.Graph.Validation.{validate_work_graph, item_ids}

-- One constructor for each message of `ContractError`, and those of the functions called.
pub data CheckpointError : Type 0 where
  empty_text not_an_integer too_many_attempts stray_lease_time unpaired_result lacks_result :
      CheckpointError
  not_exhaustive unknown_lease schema_violation stale_anchor hash_mismatch id_mismatch :
      CheckpointError
  no_task_states duplicate_states other_tasks packet_mismatch partition_mismatch : CheckpointError
  results_mismatch payload_unavailable result_mismatch unknown_task : CheckpointError
  in_graph : GraphError → CheckpointError
  in_policy : BudgetError → CheckpointError

-- `TASK_STATE_FIELDS`.
pub record TaskState : Type 0 where
  pub task_id : String
  pub status : Status
  pub attempt : ℕ
  pub packet_hash : String
  pub lease_owner : Option String
  pub lease_started_at : Option ℕ
  pub result_ref : Option String
  pub result_hash : Option String
  pub failure_code : Option FailureCode

pub record ResultRecord : Type 0 where
  pub task_id : String
  pub result_ref : String
  pub result_hash : Option String

-- What `_partitions` returns.
pub record Partitions : Type 0 where
  pub pending_task_ids : List String
  pub ready_task_ids : List String
  pub running_task_ids : List String
  pub terminal_task_ids : List String

-- `CHECKPOINT_FIELDS`, but for `checkpoint_id` and `content_hash`.
pub record Body : Type 0 where
  pub graph_id : String
  pub run_id : String
  pub base_revision : ℕ
  pub created_from_hash : String
  pub policy_release_id : String
  pub sequence : ℕ
  pub previous_checkpoint_ref : Option String
  pub task_states : List TaskState
  pub partitions : Partitions
  pub result_records : List ResultRecord

pub record Checkpoint : Type 0 where
  pub checkpoint_id : String
  pub body : Body
  pub content_hash : String

abbrev pub text : String → Outcome CheckpointError (Unit {0})
text s = check (not (is_empty_text s)) empty_text

-- `_text` of a value that may be `None`.
abbrev some_text : Option String → Outcome CheckpointError (Unit {0})
some_text none = raise empty_text
some_text (some s) = text s

-- The tests on the lease: an active item has an owner and a time, any other has no time.
abbrev check_lease : WorkItem → Option ℕ → Outcome CheckpointError (Unit {0})
check_lease x time =
    if is_active x.status
    then (do some_text x.lease_owner; check (is_some time) not_an_integer)
    else check (is_none time) stray_lease_time

abbrev same_presence : Option String → Option String → Bool
same_presence none none = true
same_presence (some a) (some b) = true
same_presence _ _ = false

-- `_task_state`.
pub task_state : LeaseTimes → WorkItem → Outcome CheckpointError TaskState
task_state times x = do
  text x.task_id
  check (leb x.attempt 2) too_many_attempts
  check_lease x (time_of x.task_id times)
  check (same_presence x.result_ref x.result_hash) unpaired_result
  check (not (is_succeeded x.status && is_none x.result_ref)) lacks_result
  text x.packet_hash
  ok (record {
    task_id = x.task_id;
    status = x.status;
    attempt = x.attempt;
    packet_hash = x.packet_hash;
    lease_owner = x.lease_owner;
    lease_started_at = time_of x.task_id times;
    result_ref = x.result_ref;
    result_hash = x.result_hash;
    failure_code = x.failure_code;
  })

pub task_states : LeaseTimes → Items → Outcome CheckpointError (List TaskState)
task_states times [] = ok []
task_states times (x ∷ xs) =
    let rest = task_states times xs in do s ← task_state times x; ss ← rest; ok (s ∷ ss)

abbrev pub state_ids : List TaskState → List String
state_ids = map (λ s. s.task_id)

abbrev ids_of : (Status → Bool) → List TaskState → List String
ids_of p states = sort str_le (state_ids (filter (λ s. p s.status) states))

abbrev total : Partitions → ℕ
total p =
    length p.pending_task_ids
    + (length p.ready_task_ids + (length p.running_task_ids + length p.terminal_task_ids))

-- `_partitions`.
unfoldable pub partitions_of : List TaskState → Outcome CheckpointError Partitions
partitions_of states =
    let p : Partitions = record {
      pending_task_ids = ids_of is_pending states;
      ready_task_ids = ids_of is_ready states;
      running_task_ids = ids_of is_active states;
      terminal_task_ids = ids_of is_terminal states;
    } in
    do check (total p == length states) not_exhaustive; ok p

abbrev pub by_state_id : TaskState → TaskState → Bool
by_state_id a b = str_le a.task_id b.task_id

-- The records of the states that have a result, in the states' order.
unfoldable pub records_of : List TaskState → List ResultRecord
records_of [] = []
records_of (s ∷ ss) =
    let rest = records_of ss in
    elim s.result_ref [
      | none ↦ rest
      | some r ↦ record { task_id = s.task_id; result_ref = r; result_hash = s.result_hash } ∷ rest
    ]

-- `result_records`, sorted.
abbrev pub sorted_records : List TaskState → List ResultRecord
sorted_records states = records_of (sort by_state_id states)

abbrev optional_text : Option String → Outcome CheckpointError (Unit {0})
optional_text none = ok tt
optional_text (some s) = text s

abbrev pub checkpoint_of : (Body → String) → Body → Checkpoint
checkpoint_of digest b = record {
  checkpoint_id = append "checkpoint_" (slice (digest b) 0 24);
  body = b;
  content_hash = digest b;
}

unfoldable pub build_work_checkpoint :
    (String → String → String)
    → (Body → String)
    → (Checkpoint → Bool)
    → WorkGraph
    → Items
    → ℕ
    → Option String
    → LeaseTimes
    → Outcome CheckpointError Checkpoint
build_work_checkpoint edge_digest digest schema_ok g items sequence previous times = do
  under in_graph (validate_work_graph edge_digest g items none)
  optional_text previous
  check (all (contains (item_ids items)) (map (λ t. t.0) times)) unknown_lease
  unsorted ← task_states times items
  let states = sort by_state_id unsorted
  p ← partitions_of states
  let b : Body = record {
    graph_id = g.graph_id;
    run_id = g.run_id;
    base_revision = g.base_revision;
    created_from_hash = g.created_from_hash;
    policy_release_id = g.policy_release_id;
    sequence = sequence;
    previous_checkpoint_ref = previous;
    task_states = states;
    partitions = p;
    result_records = sorted_records states;
  }
  check (schema_ok (checkpoint_of digest b)) schema_violation
  ok (checkpoint_of digest b)
