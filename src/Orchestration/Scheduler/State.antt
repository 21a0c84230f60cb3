-- ===== src/Orchestration/Scheduler/State.antt =====
-- orchestration/scheduler.py: the state of `WorkScheduler`. A method gives what it returns or raises,
-- beside the scheduler that it leaves: what was written before a raise stays written.
use trusted_ceo_agent.Prelude.{Outcome}
use trusted_ceo_agent.Orchestration.Items.{GraphStatus, WorkItem, WorkGraph, Items, put, LeaseTimes}
use trusted_ceo_agent.Orchestration.Refresh.{settled, graph_status}
use trusted_ceo_agent.Orchestration.Budget.{Policy}

pub record Scheduler : Type 0 where
  pub graph : WorkGraph
  pub items : Items
  pub policy : Policy
  pub lease_started_at : LeaseTimes

-- One constructor for each message of `ContractError`.
pub data SchedulerError : Type 0 where
  empty_text worker_busy unknown_item not_lease_owner stale_generation : SchedulerError
  result_conflict not_active lease_time_missing invalid_identity budget_refused : SchedulerError

-- What a method that returns an `A` does.
abbrev pub Answer : Type 0 → Type 0
Answer A = Outcome SchedulerError A × Scheduler

-- `_refresh`.
unfoldable pub refresh : Scheduler → Scheduler
refresh s = record s {
  items = after;
  graph = record s.graph { status = graph_status s.graph.status after };
}
  where
    after : Items
    after = settled s.items

-- An item written back into `_items`.
abbrev pub store : WorkItem → Scheduler → Scheduler
store x s = record s { items = put x s.items }

abbrev pub set_status : GraphStatus → Scheduler → Scheduler
set_status g s = record s { graph = record s.graph { status = g } }
