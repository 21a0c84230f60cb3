-- ===== src/Orchestration/Scheduler/Sweeping.antt =====
-- orchestration/scheduler.py: `expire`, `cancel` and `assess_budget`.
use trusted_ceo_agent.Prelude.{
  ℕ, zero, suc, ◌+◌, ◌==◌, String, Bool, ◌&&◌, not, Option, none, some, List, [], ◌∷◌,
  if◌then◌else◌, ltb, any, sort, length, str_le, contains, is_empty_text, Outcome, ok, raise,
}
use trusted_ceo_agent.Orchestration.Items.{
  GraphStatus, WorkItem, Items, get, put, time_of, drop_time, is_active, is_live, cancelled,
  model_timeout, cancelled_by_human,
}
use trusted_ceo_agent.Orchestration.Refresh.{sorted_ids}
use trusted_ceo_agent.Orchestration.Budget.{
  Policy, Assessment, AssessmentStatus, overflowed, OverflowAction,
}
use trusted_ceo_agent.Orchestration.Scheduler.State.{
  Scheduler, Answer, refresh, set_status, empty_text, unknown_item, lease_time_missing,
}
use trusted_ceo_agent.Orchestration.Scheduler.Reporting.{apply_failure, then_refresh}

-- Not `now - started_at < timeout_seconds`, without a difference that could be negative.
abbrev pub is_overdue : WorkItem → ℕ → ℕ → Bool
is_overdue x now started = not (ltb now (started + x.timeout_policy.timeout_seconds))

abbrev pub prepend : String → Answer (List String) → Answer (List String)
prepend id (ok l, s) = (ok (id ∷ l), s)
prepend id (raise e, s) = (raise e, s)

-- The item of this id, if it is active, beside the time at which its lease began, if there is one.
unfoldable pub active_lease : String → Scheduler → Option (WorkItem × Option ℕ)
active_lease id s = elim (get id s.items) [
  | none ↦ none
  | some x ↦ if is_active x.status then some (x, time_of id s.lease_started_at) else none
]

-- The loop of `expire`.
unfoldable pub expire_each : List String → ℕ → Scheduler → Answer (List String)
expire_each [] now s = (ok [], s)
expire_each (id ∷ ids) now s = elim (active_lease id s) [
  | none ↦ expire_each ids now s
  | some (x, none) ↦ (raise lease_time_missing, s)
  | some (x, some started) ↦
      let skipped = expire_each ids now s in
      let failed_one = prepend id (expire_each ids now (apply_failure x model_timeout s).1) in
      if is_overdue x now started then failed_one else skipped
]

unfoldable pub expire : ℕ → Scheduler → Answer (List String)
expire now s = then_refresh (expire_each (sorted_ids s.items) now s)

-- One pass of `cancel`'s loop over the items: those that depend on a target become targets.
unfoldable pub grow : Items → List String → List String
grow [] targets = targets
grow (x ∷ xs) targets = grow xs (
    if not (contains targets x.task_id) && any (contains targets) x.dependency_ids
    then x.task_id ∷ targets
    else targets)

-- The `while changed` loop. Each pass but the last adds an item.
unfoldable pub dependents : ℕ → Items → List String → List String
dependents zero items targets = targets
dependents (suc fuel) items targets =
    let next = grow items targets in
    if length next == length targets then targets else dependents fuel items next

abbrev pub cancelled_item : WorkItem → WorkItem
cancelled_item x = record x {
  status = cancelled;
  lease_owner = none;
  result_ref = none;
  result_hash = none;
  failure_code = some cancelled_by_human;
}

-- The loop over the sorted targets.
unfoldable pub cancel_each : List String → Scheduler → List String × Scheduler
cancel_each [] s = ([], s)
cancel_each (id ∷ ids) s = elim (get id s.items) [
  | none ↦ cancel_each ids s
  | some x ↦
      let skipped = cancel_each ids s in
      let rest = cancel_each ids (record s {
        items = put (cancelled_item x) s.items;
        lease_started_at = drop_time id s.lease_started_at;
      }) in
      if is_live x.status then (id ∷ rest.0, rest.1) else skipped
]

-- `cancel()`.
unfoldable pub cancel_all : Scheduler → Answer (List String)
cancel_all s =
    let (gone, after) = cancel_each (sorted_ids s.items) s in
    (ok gone, refresh (set_status GraphStatus.cancelled after))

-- `cancel(task_id)`.
unfoldable pub cancel : String → Scheduler → Answer (List String)
cancel task_id s =
    if is_empty_text task_id then (raise empty_text, s) else elim (get task_id s.items) [
      | none ↦ (raise unknown_item, s)
      | some x ↦
          let targets = dependents (length s.items) s.items (task_id ∷ []) in
          let (gone, after) = cancel_each (sort str_le targets) s in (ok gone, refresh after)
    ]

-- The graph's status after an overflow.
abbrev overflow_status : OverflowAction → GraphStatus
overflow_status OverflowAction.needs_prioritization = GraphStatus.needs_prioritization
overflow_status OverflowAction.needs_input = GraphStatus.needs_input
overflow_status OverflowAction.deep_review_pending = GraphStatus.deep_review_pending

abbrev pub note_overflow : AssessmentStatus → Scheduler → Scheduler
note_overflow AssessmentStatus.ready s = s
note_overflow (overflowed action) s = set_status (overflow_status action) s

-- `assess_budget`, with `assess_work_budget` as an argument.
unfoldable pub assess_budget :
    {E : Type 0}
    → (Policy → Items → ℕ → Outcome E Assessment)
    → ℕ
    → Scheduler
    → Outcome E Assessment × Scheduler
assess_budget assess elapsed s = elim (assess s.policy s.items elapsed) [
  | raise e ↦ (raise e, s)
  | ok a ↦ (ok a, note_overflow a.status s)
]
