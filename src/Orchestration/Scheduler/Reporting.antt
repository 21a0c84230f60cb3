-- ===== src/Orchestration/Scheduler/Reporting.antt =====
-- orchestration/scheduler.py: `_assert_active_generation`, `complete` and `fail`.
use trusted_ceo_agent.Prelude.{
  ℕ, String, Bool, false, ◌&&◌, ◌||◌, not, Option, none, some, List, [], ◌∷◌, map, if◌then◌else◌,
  ltb, str_eq, is_empty_text, is_sha256_text, ok, raise,
}
use trusted_ceo_agent.Orchestration.Items.{
  Status, GraphStatus, FailureCode, WorkItem, Items, get, put, LeaseTimes, drop_time, is_active,
  is_live, is_running, is_succeeded, owned_by, is_retryable, ready, succeeded, needs_input,
  deep_review_pending, failed, cancelled, superseded, required_evidence_missing, stale_revision,
  cancelled_by_human,
}
use trusted_ceo_agent.Orchestration.Scheduler.State.{
  Scheduler, Answer, refresh, set_status, empty_text, unknown_item, not_lease_owner,
  stale_generation, result_conflict, not_active, invalid_identity,
}

abbrev pub superseded_item : WorkItem → WorkItem
superseded_item x =
    if is_live x.status
    then record x {
      status = superseded;
      lease_owner = none;
      result_ref = none;
      result_hash = none;
      failure_code = some stale_revision;
    }
    else x

abbrev pub keep_times : Items → LeaseTimes → LeaseTimes
keep_times [] ts = ts
keep_times (x ∷ xs) ts =
    let rest = keep_times xs ts in if is_live x.status then drop_time x.task_id rest else rest

-- `_assert_active_generation`, where the hashes differ.
unfoldable pub supersede_all : Scheduler → Scheduler
supersede_all s = set_status GraphStatus.superseded (record s {
  items = map superseded_item s.items;
  lease_started_at = keep_times s.items s.lease_started_at;
})

-- `work_idempotency_key` raises unless the item's identity is well formed; its value is unused.
abbrev pub has_identity : WorkItem → Bool
has_identity x =
    not (is_empty_text x.task_id)
    && (is_sha256_text x.packet_hash && not (is_empty_text x.policy_release_id))

abbrev pub same_text : String → Option String → Bool
same_text t none = false
same_text t (some u) = str_eq u t

abbrev pub completed : WorkItem → String → String → WorkItem
completed x result_ref result_hash = record x {
  status = succeeded;
  lease_owner = none;
  result_ref = some result_ref;
  result_hash = some result_hash;
  failure_code = none;
}

unfoldable pub complete_item : WorkItem → String → String → String → Scheduler → Answer WorkItem
complete_item x worker result_ref result_hash s =
    if is_succeeded x.status
    then (if same_text result_ref x.result_ref && same_text result_hash x.result_hash
        then (ok x, s)
        else (raise result_conflict, s))
    else if not (is_running x.status) || not (owned_by worker x.lease_owner)
    then (raise not_lease_owner, s)
    else if not (has_identity x)
    then (raise invalid_identity, s)
    else (
      ok (completed x result_ref result_hash),
      refresh (record s {
        items = put (completed x result_ref result_hash) s.items;
        lease_started_at = drop_time x.task_id s.lease_started_at;
      }),
    )

-- The bytes of a result, and `hashlib.sha256(payload).hexdigest()`, a parameter.
abbrev pub Payload : Type 0
Payload = List ℕ

unfoldable pub complete :
    (Payload → String) → String → String → String → Payload → String → Scheduler → Answer WorkItem
complete sha256 task_id worker result_ref payload active_hash s =
    if is_empty_text task_id || (is_empty_text worker || is_empty_text result_ref)
    then (raise empty_text, s)
    else if not (str_eq active_hash s.graph.created_from_hash)
    then (raise stale_generation, supersede_all s)
    else elim (get task_id s.items) [
      | none ↦ (raise unknown_item, s)
      | some x ↦ complete_item x worker result_ref (sha256 payload) s
    ]

-- The status after a failure, in the order of `_apply_failure`'s tests.
unfoldable pub failure_status : ℕ → WorkItem → FailureCode → Status
failure_status max_attempts x code =
    if is_retryable x code && ltb x.attempt max_attempts then ready else elim code [
      | required_evidence_missing ↦ needs_input
      | stale_revision ↦ superseded
      | cancelled_by_human ↦ cancelled
      | _ ↦ if x.required then deep_review_pending else failed
    ]

abbrev pub failed_item : ℕ → WorkItem → FailureCode → WorkItem
failed_item max_attempts x code = record x {
  status = failure_status max_attempts x code;
  lease_owner = none;
  result_ref = none;
  result_hash = none;
  failure_code = some code;
}

-- `_apply_failure`.
unfoldable pub apply_failure : WorkItem → FailureCode → Scheduler → Answer WorkItem
apply_failure x code s = if not (is_active x.status) then (raise not_active, s) else (
  ok (failed_item s.policy.max_model_attempts_per_task x code),
  record s {
    items = put (failed_item s.policy.max_model_attempts_per_task x code) s.items;
    lease_started_at = drop_time x.task_id s.lease_started_at;
  },
)

-- `_refresh` at the end of a method; a raise has left the method before it.
abbrev pub then_refresh : {A : Type 0} → Answer A → Answer A
then_refresh (ok a, s) = (ok a, refresh s)
then_refresh (raise e, s) = (raise e, s)

abbrev pub fail_item : WorkItem → String → FailureCode → Scheduler → Answer WorkItem
fail_item x worker code s =
    if not (owned_by worker x.lease_owner)
    then (raise not_lease_owner, s)
    else then_refresh (apply_failure x code s)

unfoldable pub fail : String → String → FailureCode → String → Scheduler → Answer WorkItem
fail task_id worker code active_hash s =
    if is_empty_text task_id || is_empty_text worker
    then (raise empty_text, s)
    else if not (str_eq active_hash s.graph.created_from_hash)
    then (raise stale_generation, supersede_all s)
    else elim (get task_id s.items) [
      | none ↦ (raise unknown_item, s)
      | some x ↦ fail_item x worker code s
    ]
