-- ===== src/Orchestration/Scheduler/Leasing.antt =====
-- orchestration/scheduler.py: `lease` and `start`.
use trusted_ceo_agent.Prelude.{
  ℕ, suc, String, Bool, ◌&&◌, ◌||◌, not, Option, none, some, List, [], ◌∷◌, map, if◌then◌else◌, ltb,
  leb, any, filter, is_nil, sort, length, str_le, str_eq, contains, dedupe, is_empty_text, ok,
  raise,
}
use trusted_ceo_agent.Orchestration.Items.{
  GraphStatus, WorkItem, Items, get, put, set_time, is_active, is_ready, is_leased, owned_by,
  leased, running, deep_review_pending, failed, resource_exhausted,
}
use trusted_ceo_agent.Orchestration.Scheduler.State.{
  Scheduler, Answer, refresh, store, set_status, empty_text, worker_busy, unknown_item,
  not_lease_owner,
}

abbrev pub active_items : Items → Items
active_items = filter (λ x. is_active x.status)

-- `any(item["lease_owner"] == worker_id for item in active)`.
abbrev pub owns_active : String → Items → Bool
owns_active w items = any (λ x. is_active x.status && owned_by w x.lease_owner) items

-- The sort key `(signal_case_id, task_id)`.
abbrev pub by_case : WorkItem → WorkItem → Bool
by_case x y =
    if str_eq x.signal_case_id y.signal_case_id
    then str_le x.task_id y.task_id
    else str_le x.signal_case_id y.signal_case_id

abbrev pub head? : Items → Option WorkItem
head? [] = none
head? (x ∷ xs) = some x

-- The candidates' first, from the sorted ready items and the active ones' signal cases.
unfoldable pub choose : ℕ → List String → Items → Option WorkItem
choose max_cases cases [] = none
choose max_cases [] (x ∷ xs) =
    head? (filter (λ y. str_eq y.signal_case_id x.signal_case_id) (x ∷ xs))
choose max_cases (c ∷ cases) (x ∷ xs) =
    let same = filter (λ y. contains (c ∷ cases) y.signal_case_id) (x ∷ xs) in
    if is_nil same && ltb (length (dedupe (c ∷ cases))) max_cases then some x else head? same

unfoldable pub candidate : Scheduler → Option WorkItem
candidate s =
    choose s.policy.max_active_signal_cases (map (λ x. x.signal_case_id) (active_items s.items))
      (sort by_case (filter (λ x. is_ready x.status) s.items))

-- The item that a worker takes.
abbrev pub taken : WorkItem → String → WorkItem
taken x worker = record x { attempt = suc x.attempt; status = leased; lease_owner = some worker }

-- The item whose attempts are used up.
abbrev pub exhausted : WorkItem → WorkItem
exhausted x = record x {
  status = if x.required then deep_review_pending else failed;
  failure_code = some resource_exhausted;
}

-- The end of `lease`, for the chosen item.
unfoldable pub grant : WorkItem → String → ℕ → Scheduler → Answer (Option WorkItem)
grant x worker now s =
    if leb s.policy.max_model_attempts_per_task x.attempt
    then (ok none, refresh (store (exhausted x) s))
    else (
      ok (some (taken x worker)),
      set_status GraphStatus.running (record s {
        items = put (taken x worker) s.items;
        lease_started_at = set_time x.task_id now s.lease_started_at;
      }),
    )

unfoldable pub lease : String → ℕ → Scheduler → Answer (Option WorkItem)
lease worker now s =
    if is_empty_text worker
    then (raise empty_text, s)
    else if owns_active worker s.items
    then (raise worker_busy, s)
    else if leb s.policy.max_parallel_workers (length (active_items s.items))
    then (ok none, s)
    else elim (candidate s) [ none ↦ (ok none, s) | some x ↦ grant x worker now s ]

abbrev pub start_item : WorkItem → String → Scheduler → Answer WorkItem
start_item x worker s =
    if not (is_leased x.status) || not (owned_by worker x.lease_owner)
    then (raise not_lease_owner, s)
    else (ok (record x { status = running }), store (record x { status = running }) s)

unfoldable pub start : String → String → Scheduler → Answer WorkItem
start task_id worker s =
    if is_empty_text task_id || is_empty_text worker
    then (raise empty_text, s)
    else elim (get task_id s.items) [
      | none ↦ (raise unknown_item, s)
      | some x ↦ start_item x worker s
    ]
