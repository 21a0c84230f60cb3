-- ===== src/Orchestration/Items.antt =====
-- orchestration/graph.py, budget.py and checkpoint.py: the documents that the scheduler works on,
-- and the sets of statuses that it tests.
use mathlib.Core.Bool.{decide}
use trusted_ceo_agent.Prelude.{
  ℕ, String, Bool, true, false, Option, none, some, List, [], ◌∷◌, str_eq, find, if◌then◌else◌, any,
}

-- `WORK_ITEM_STATUSES`.
pub data Status : Type 0 where
  pending ready leased running succeeded needs_input deep_review_pending failed : Status
  cancelled superseded : Status

-- `GRAPH_STATUSES`.
pub data GraphStatus : Type 0 where
  pending running needs_prioritization needs_input deep_review_pending succeeded : GraphStatus
  failed cancelled superseded : GraphStatus

-- `FAILURE_CODES`.
pub data FailureCode : Type 0 where
  contract_invalid packet_hash_mismatch source_unavailable model_timeout : FailureCode
  model_contract_failure procedure_failed required_evidence_missing stale_revision : FailureCode
  cancelled_by_human resource_exhausted unsupported_pack : FailureCode

unfoldable pub FailureCode-discrete : Discrete FailureCode
FailureCode-discrete = hlevel

-- `CONCURRENCY_PROFILES`, with `PROFILE_WORKER_LIMITS`.
pub data Profile : Type 0 where
  sequential parallel_2 parallel_3 parallel_4 : Profile

abbrev pub worker_limit : Profile → ℕ
worker_limit sequential = 1
worker_limit parallel_2 = 2
worker_limit parallel_3 = 3
worker_limit parallel_4 = 4

abbrev pub same_profile : Profile → Profile → Bool
same_profile sequential sequential = true
same_profile parallel_2 parallel_2 = true
same_profile parallel_3 parallel_3 = true
same_profile parallel_4 parallel_4 = true
same_profile _ _ = false

pub record TimeoutPolicy : Type 0 where
  pub timeout_seconds : ℕ
  pub retryable_failure_codes : List FailureCode

-- `WORK_ITEM_FIELDS`.
pub record WorkItem : Type 0 where
  pub task_id : String
  pub graph_id : String
  pub signal_case_id : String
  pub event_id : String
  pub domain : String
  pub issue_family : String
  pub procedure_refs : List String
  pub dependency_ids : List String
  pub required : Bool
  pub packet_ref : String
  pub packet_hash : String
  pub pack_release_id : String
  pub policy_release_id : String
  pub attempt : ℕ
  pub timeout_policy : TimeoutPolicy
  pub status : Status
  pub lease_owner : Option String
  pub result_ref : Option String
  pub result_hash : Option String
  pub failure_code : Option FailureCode

-- `GRAPH_FIELDS`.
pub record WorkGraph : Type 0 where
  pub graph_id : String
  pub run_id : String
  pub base_revision : ℕ
  pub signal_case_ids : List String
  pub node_ids : List String
  pub edge_ids : List String
  pub required_node_ids : List String
  pub policy_release_id : String
  pub concurrency_profile_id : Profile
  pub created_from_hash : String
  pub status : GraphStatus
  pub checkpoint_ref : Option String

-- `ACTIVE_STATUSES`.
abbrev pub is_active : Status → Bool
is_active leased = true
is_active running = true
is_active _ = false

-- `NONTERMINAL_STATUSES`.
abbrev pub is_live : Status → Bool
is_live pending = true
is_live ready = true
is_live leased = true
is_live running = true
is_live _ = false

-- `TERMINAL_WORK_ITEM_STATUSES`.
abbrev pub is_terminal : Status → Bool
is_terminal succeeded = true
is_terminal needs_input = true
is_terminal deep_review_pending = true
is_terminal failed = true
is_terminal cancelled = true
is_terminal superseded = true
is_terminal _ = false

abbrev pub is_pending : Status → Bool
is_pending pending = true
is_pending _ = false

abbrev pub is_ready : Status → Bool
is_ready ready = true
is_ready _ = false

abbrev pub is_leased : Status → Bool
is_leased leased = true
is_leased _ = false

abbrev pub is_running : Status → Bool
is_running running = true
is_running _ = false

abbrev pub is_succeeded : Status → Bool
is_succeeded succeeded = true
is_succeeded _ = false

abbrev pub awaits_human : Status → Bool
awaits_human needs_input = true
awaits_human deep_review_pending = true
awaits_human _ = false

abbrev pub is_superseded : Status → Bool
is_superseded superseded = true
is_superseded _ = false

abbrev pub is_cancelled : Status → Bool
is_cancelled cancelled = true
is_cancelled _ = false

-- `owner == worker_id`, where the owner may be `None`.
abbrev pub owned_by : String → Option String → Bool
owned_by w none = false
owned_by w (some o) = str_eq o w

-- The scheduler's `_items`: a dictionary by `task_id`, kept in its order of insertion.
abbrev pub Items : Type 0
Items = List WorkItem

-- `self._items.get(task_id)`.
abbrev pub get : String → Items → Option WorkItem
get id items = find (λ x. str_eq x.task_id id) items

-- `self._items[item["task_id"]]` after the item has been written to.
abbrev pub put : WorkItem → Items → Items
put y [] = []
put y (x ∷ xs) = let rest = put y xs in if str_eq x.task_id y.task_id then y ∷ xs else x ∷ rest

-- `self._lease_started_at`, a dictionary of clock readings.
abbrev pub LeaseTimes : Type 0
LeaseTimes = List (String × ℕ)

abbrev pub time_of : String → LeaseTimes → Option ℕ
time_of id [] = none
time_of id ((j, t) ∷ ts) = let rest = time_of id ts in if str_eq j id then some t else rest

abbrev pub drop_time : String → LeaseTimes → LeaseTimes
drop_time id [] = []
drop_time id ((j, t) ∷ ts) =
    let rest = drop_time id ts in if str_eq j id then rest else (j, t) ∷ rest

abbrev pub set_time : String → ℕ → LeaseTimes → LeaseTimes
set_time id t ts = (id, t) ∷ drop_time id ts

-- `failure_code in set(item["timeout_policy"]["retryable_failure_codes"])`.
unfoldable pub is_retryable : WorkItem → FailureCode → Bool
unfolding FailureCode-discrete
is_retryable x code = any (λ c. decide (FailureCode-discrete c code)) codes
  where
    codes : List FailureCode
    codes = x.timeout_policy.retryable_failure_codes
