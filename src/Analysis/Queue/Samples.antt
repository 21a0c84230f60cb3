-- ===== src/Analysis/Queue/Samples.antt =====
-- A queue of two cases, what a lease of the better one leaves, and queues with cases that have ended.
use trusted_ceo_agent.Prelude.{ℕ, String, Bool, true, none, some, List, [], ◌∷◌, if◌then◌else◌}
use trusted_ceo_agent.Analysis.Cases.{
  Dimensions, SignalCase, PriorityRecord, is_investigating, queued, terminal, deferred,
  sort_vector_of,
}
use trusted_ceo_agent.Analysis.Queue.State.{
  Queue, Request, leases, cancels, remember, stamped, written,
}
use trusted_ceo_agent.Analysis.Queue.Methods.{leased}

-- Functions in place of the canonical hashes and of the schema store.
abbrev pub digest : Request → String
digest (leases worker expected) = "lease"
digest (cancels id reason expected) = "cancel"
digest _ = "other"

abbrev pub hash : SignalCase → String
hash c = if is_investigating c.status then "h1" else "h0"

abbrev pub schema_ok : SignalCase → Bool
schema_ok c = true

abbrev pub priority_hash : PriorityRecord → String
priority_hash p = "p"

abbrev pub priority_ok : PriorityRecord → Bool
priority_ok p = true

abbrev pub risk : ℕ → Dimensions
risk n = record {
  deterministic_risk = n;
  amount_cash_impact = 10;
  legal_human_impact = 5;
  control_failure = 0;
  urgency = 50;
  data_sufficiency = 80;
  ceo_question_relevance = 20;
}

abbrev pub priority_of : String → String → ℕ → PriorityRecord
priority_of id case n = record {
  priority_record_id = id;
  case_id = case;
  policy_ref = "policy";
  dimensions = risk n;
  sort_vector = sort_vector_of (risk n);
  created_from_hash = "000000000000000000000000";
  content_hash = "p";
}

abbrev pub case_of : String → String → String → SignalCase
case_of id priority source = record {
  case_id = id;
  run_id = "run_1";
  base_revision = 3;
  case_revision = 0;
  signal_ids = "s" ∷ [];
  event_id = "event";
  priority_record_ref = priority;
  required_domain_routes = "tax" ∷ [];
  optional_domain_routes = "legal" ∷ [];
  current_stage = 1;
  status = queued;
  disposition = none;
  finding_ref = none;
  related_case_ids = [];
  checkpoint_ref = none;
  lease_owner = none;
  pause_reason = none;
  terminal_reason = none;
  created_from_hash = source;
  previous_content_hash = none;
  content_hash = "h0";
}

abbrev pub low : SignalCase
low =
    case_of "case_aaaaaaaaaaaaaaaaaaaaaaaa" "priority_000000000000000000000000"
      "aaaaaaaaaaaaaaaaaaaaaaaaaaaa"

abbrev pub high : SignalCase
high =
    case_of "case_bbbbbbbbbbbbbbbbbbbbbbbb" "priority_111111111111111111111111"
      "bbbbbbbbbbbbbbbbbbbbbbbbbbbb"

abbrev pub low_priority : PriorityRecord
low_priority = priority_of "priority_000000000000000000000000" "case_aaaaaaaaaaaaaaaaaaaaaaaa" 40

abbrev pub high_priority : PriorityRecord
high_priority =
    record (priority_of "priority_111111111111111111111111" "case_bbbbbbbbbbbbbbbbbbbbbbbb" 90) {
      created_from_hash = "111111111111111111111111";
    }

abbrev pub start : Queue
start = record {
  cases = low ∷ high ∷ [];
  history = (low.case_id, low ∷ []) ∷ (high.case_id, high ∷ []) ∷ [];
  priorities = low_priority ∷ high_priority ∷ [];
  revision = 3;
  receipts = [];
}

-- The queue after the lease, which takes the second case.
abbrev pub taken : SignalCase
taken = stamped hash schema_ok high (leased high "worker")

abbrev pub after : Queue
after = remember digest "k1" (leases "worker" 3) (some taken) (written hash schema_ok taken start)

abbrev pub calls : List (Request × String)
calls =
    (leases "worker" 3, "k1")
    ∷ (leases "other" 4, "k2")
    ∷ (cancels low.case_id "closed" 4, "k3")
    ∷ []

-- The queue after a case has been deferred.
abbrev pub deferred_low : SignalCase
deferred_low = record low {
  status = terminal;
  disposition = some deferred;
  terminal_reason = some "later";
}

abbrev pub half_done : Queue
half_done = record start { cases = deferred_low ∷ high ∷ [] }

-- The queue after both cases have been deferred.
abbrev pub all_done : Queue
all_done = record start {
  cases =
      deferred_low
      ∷ record high {
        status = terminal;
        disposition = some deferred;
        terminal_reason = some "later";
      }
      ∷ [];
}
