-- ===== src/Orchestration/Refresh.antt =====
-- orchestration/scheduler.py: `_refresh`. The constructor has checked that each dependency names an
-- item, and no item is ever removed, so `self._items[dependency_id]` finds one.
pub mod Steps
pub mod Settling
use trusted_ceo_agent.Prelude.{
  ℕ, zero, suc, String, Bool, true, false, ◌&&◌, ◌||◌, not, Option, none, some, List, [], ◌∷◌, map,
  if◌then◌else◌, any, all, filter, is_nil, count, sort, str_le,
}
use trusted_ceo_agent.Orchestration.Items.{
  Status, GraphStatus, WorkItem, Items, get, put, ready, failed, cancelled, superseded,
  stale_revision, cancelled_by_human, procedure_failed, is_pending, is_terminal, is_succeeded,
  is_superseded, is_cancelled, is_active, awaits_human,
}

abbrev add_found : Option WorkItem → Items → Items
add_found none xs = xs
add_found (some x) xs = x ∷ xs

-- `[self._items[dependency_id] for dependency_id in item["dependency_ids"]]`. An id without an item, at
-- which the source raises KeyError, is left out: the constructor refuses a graph that has one.
unfoldable pub dependencies : List String → Items → Items
dependencies [] items = []
dependencies (id ∷ ids) items = add_found (get id items) (dependencies ids items)

abbrev is_blocker : WorkItem → Bool
is_blocker d = d.required && not (is_succeeded d.status)

-- A pending item with blockers, none of which waits for a human: the failure it inherits.
unfoldable pub inherit_failure : WorkItem → Items → WorkItem
inherit_failure x blockers =
    if any (λ b. is_superseded b.status) blockers
    then record x { status = superseded; failure_code = some stale_revision }
    else if any (λ b. is_cancelled b.status) blockers
    then record x { status = cancelled; failure_code = some cancelled_by_human }
    else record x { status = failed; failure_code = some procedure_failed }

-- What the loop's body makes of an item with these dependencies; `none` where it changes nothing.
unfoldable pub advance : WorkItem → Items → Option WorkItem
advance x deps =
    if not (is_pending x.status)
    then none
    else if is_nil deps
    then some (record x { status = ready })
    else if any (λ d. not (is_terminal d.status)) deps
    then none
    else if is_nil (filter is_blocker deps)
    then some (record x { status = ready })
    else if any (λ b. awaits_human b.status) (filter is_blocker deps)
    then none
    else some (inherit_failure x (filter is_blocker deps))

-- The item of this id after one round of the loop, if the round changes it.
unfoldable pub advance_at : String → Items → Option WorkItem
advance_at id items = elim (get id items) [
  | none ↦ none
  | some x ↦ advance x (dependencies x.dependency_ids items)
]

-- One pass of the `for` loop; the Boolean is `changed`.
unfoldable pub pass : List String → Items → Bool → Items × Bool
pass [] items changed = (items, changed)
pass (id ∷ ids) items changed = elim (advance_at id items) [
  | none ↦ pass ids items changed
  | some y ↦ pass ids (put y items) true
]

-- The `while changed` loop.
unfoldable pub settle : ℕ → List String → Items → Items
settle zero ids items = items
settle (suc fuel) ids items =
    let (after, changed) = pass ids items false in
    elim changed [ true ↦ settle fuel ids after | false ↦ after ]

abbrev pub pending_count : Items → ℕ
pending_count = count (λ x. is_pending x.status)

-- `sorted(self._items)`.
abbrev pub sorted_ids : Items → List String
sorted_ids items = sort str_le (map (λ x. x.task_id) items)

-- Each pass but the last takes an item out of `pending`.
unfoldable pub settled : Items → Items
settled items = settle (suc (pending_count items)) (sorted_ids items) items

abbrev is_failed : Status → Bool
is_failed failed = true
is_failed _ = false

abbrev is_needs_input : Status → Bool
is_needs_input Status.needs_input = true
is_needs_input _ = false

abbrev is_deep_review : Status → Bool
is_deep_review Status.deep_review_pending = true
is_deep_review _ = false

abbrev is_closed : GraphStatus → Bool
is_closed GraphStatus.cancelled = true
is_closed GraphStatus.superseded = true
is_closed _ = false

-- The status of the graph, from the items'.
unfoldable pub graph_status : GraphStatus → Items → GraphStatus
graph_status current items =
    if is_closed current
    then current
    else if any (λ x. is_needs_input x.status) items
    then GraphStatus.needs_input
    else if any (λ x. is_deep_review x.status) items
    then GraphStatus.deep_review_pending
    else if any (λ x. x.required && is_failed x.status) items
    then GraphStatus.failed
    else if any (λ x. x.required && is_cancelled x.status) items
    then GraphStatus.cancelled
    else if all (λ x. is_terminal x.status) items
        && all (λ x. not x.required || is_succeeded x.status) items
    then GraphStatus.succeeded
    else if any (λ x. is_active x.status || is_succeeded x.status) items
    then GraphStatus.running
    else GraphStatus.pending
