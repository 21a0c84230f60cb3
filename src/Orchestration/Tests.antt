-- ===== src/Orchestration/Tests.antt =====
-- A scheduler over three work items that can be followed in orchestration/, and the theorems at it.
use trusted_ceo_agent.Prelude.{
  ℕ, String, Bool, true, Option, none, some, List, [], ◌∷◌, ◌≡◌, refl, arith, Outcome, ok, raise,
}
use trusted_ceo_agent.Orchestration.Items.{
  Status, GraphStatus, Profile, WorkItem, WorkGraph, TimeoutPolicy, Items, get, model_timeout,
}
use trusted_ceo_agent.Orchestration.Refresh.{
  settled, settle, pass, advance_at, advance, inherit_failure, dependencies,
}
use trusted_ceo_agent.Orchestration.Refresh.Steps.{Waits}
use trusted_ceo_agent.Orchestration.Refresh.Settling.{settled-Waits}
use trusted_ceo_agent.Orchestration.Easing.{Pointwise}
use trusted_ceo_agent.Orchestration.Evolving.{Evolves, HasUniqueIds}
use trusted_ceo_agent.Orchestration.Budget.{
  Policy, PolicyBody, Assessment, baseline, OverflowAction,
}
use trusted_ceo_agent.Orchestration.Scheduler.State.{Scheduler, result_conflict}
use trusted_ceo_agent.Orchestration.Scheduler.Reporting.{
  Payload, complete, complete_item, completed,
}
use trusted_ceo_agent.Orchestration.Scheduler.Calls.{
  step, Call, leases, starts, completes, expires, run,
}
use trusted_ceo_agent.Orchestration.Scheduler.Soundness.{IsSound, run-IsSound}
use trusted_ceo_agent.Orchestration.Scheduler.Permanence.{run-Evolves}
use trusted_ceo_agent.Orchestration.Scheduler.Freezing.{HasEnded, stale_report_freezes}
use trusted_ceo_agent.Orchestration.Scheduler.Idempotence.{complete_twice, complete_conflict}

abbrev timeouts : TimeoutPolicy
timeouts = record { timeout_seconds = 120; retryable_failure_codes = model_timeout ∷ [] }

abbrev pub digit_text : String
digit_text = "0123456789abcdef0123456789abcdef0123456789abcdef0123456789abcdef"

abbrev pub item : String → List String → WorkItem
item id deps = record {
  task_id = id;
  graph_id = "g";
  signal_case_id = "case_1";
  event_id = "e1";
  domain = "d";
  issue_family = "f";
  procedure_refs = "p" ∷ [];
  dependency_ids = deps;
  required = true;
  packet_ref = "packet";
  packet_hash = digit_text;
  pack_release_id = "pack";
  policy_release_id = "policy";
  attempt = 0;
  timeout_policy = timeouts;
  status = Status.pending;
  lease_owner = none;
  result_ref = none;
  result_hash = none;
  failure_code = none;
}

abbrev pub policy : Policy
policy = record {
  body = record {
    policy_id = "policy";
    workload_class = "w";
    max_active_signal_cases = 2;
    max_parallel_workers = 2;
    max_model_attempts_per_task = 2;
    task_timeout = 120;
    case_timeout = 600;
    max_optional_issue_families = 1;
    evidence_packet_limits = baseline;
    overflow_action = OverflowAction.needs_input;
    benchmark_refs = "b" ∷ [];
    approved_concurrency_profile_id = Profile.parallel_2;
    effective_from = "2026-01-01T00:00:00Z";
  };
  content_hash = digit_text;
}

abbrev pub graph : WorkGraph
graph = record {
  graph_id = "g";
  run_id = "r";
  base_revision = 1;
  signal_case_ids = "case_1" ∷ [];
  node_ids = "a" ∷ "b" ∷ "c" ∷ [];
  edge_ids = [];
  required_node_ids = "a" ∷ "b" ∷ "c" ∷ [];
  policy_release_id = "policy";
  concurrency_profile_id = Profile.parallel_2;
  created_from_hash = "origin";
  status = GraphStatus.pending;
  checkpoint_ref = none;
}

abbrev three : Items
three = item "a" [] ∷ item "b" [] ∷ item "c" ("a" ∷ []) ∷ []

abbrev new_scheduler : Scheduler
new_scheduler = record { graph = graph; items = three; policy = policy; lease_started_at = [] }

-- What the constructor's `_refresh` makes of the items: the third one waits for the first.
waiting-settled : get "c" (settled three) ≡ some (item "c" ("a" ∷ []))
unfolding settled settle pass advance_at advance dependencies inherit_failure
waiting-settled = refl

settled-Waits_example : Waits (item "c" ("a" ∷ [])) (settled three)
settled-Waits_example = settled-Waits three "c" waiting-settled refl

-- What the policy's checks ask of `datetime.fromisoformat`, the hash and the schema.
abbrev pub zoned : String → Option Bool
zoned t = some true

abbrev pub policy_digest : PolicyBody → String
policy_digest b = digit_text

abbrev pub any_policy : Policy → Bool
any_policy p = true

-- A digest and a budget assessment that the calls below do not depend on.
abbrev pub digest : Payload → String
digest [] = "nothing"
digest (x ∷ xs) = "something"

abbrev no_assessment : Policy → Items → ℕ → Outcome Bool Assessment
no_assessment p items elapsed = raise true

-- Two workers take the first two items, the first one completes its own, and the other is too late.
abbrev calls : List Call
calls =
    leases "w1" 0
    ∷ leases "w2" 1
    ∷ leases "w3" 2
    ∷ starts "a" "w1"
    ∷ completes "a" "w1" "ref1" (1 ∷ []) "origin"
    ∷ expires 500
    ∷ []

new_scheduler-IsSound : IsSound new_scheduler
new_scheduler-IsSound = record {
  workers = omega arith;
  exclusive = λ worker. omega arith;
  attempts = (omega arith, (omega arith, (omega arith, tt)));
}

new_scheduler-HasUniqueIds : HasUniqueIds new_scheduler.items
new_scheduler-HasUniqueIds = ((refl, (refl, tt)), ((refl, tt), (tt, tt)))

run-IsSound_example : IsSound (run digest no_assessment new_scheduler calls)
run-IsSound_example = run-IsSound digest no_assessment new_scheduler calls new_scheduler-IsSound

run-Evolves_example : Pointwise Evolves three (run digest no_assessment new_scheduler calls).items
run-Evolves_example =
    run-Evolves digest no_assessment new_scheduler calls new_scheduler-HasUniqueIds

-- The first item is running, the others wait.
abbrev begun : WorkItem
begun = record (item "a" []) { status = Status.running; attempt = 1; lease_owner = some "w1" }

abbrev at_work : Scheduler
at_work = record new_scheduler {
  items = begun ∷ item "b" [] ∷ item "c" ("a" ∷ []) ∷ [];
  lease_started_at = ("a", 7) ∷ [];
}

abbrev reported : Scheduler
reported = (complete digest "a" "w1" "ref1" (1 ∷ []) "origin" at_work).1

first_report :
    complete digest "a" "w1" "ref1" (1 ∷ []) "origin" at_work
    ≡ (ok (completed begun "ref1" "something"), reported)
unfolding complete complete_item
first_report = refl

complete_twice_example :
    complete digest "a" "w1" "ref1" (1 ∷ []) "origin" reported
    ≡ (ok (completed begun "ref1" "something"), reported)
complete_twice_example =
    complete_twice digest "a" "w1" "ref1" (1 ∷ []) "origin" at_work first_report

complete_conflict_example :
    complete digest "a" "w1" "ref2" [] "origin" reported ≡ (raise result_conflict, reported)
complete_conflict_example =
    complete_conflict digest "a" "w1" "ref1" "ref2" (1 ∷ []) [] "origin" at_work first_report refl
      refl

-- A report about another generation.
stale_report_freezes_example :
    HasEnded
      (step digest no_assessment new_scheduler
        (completes "a" "w1" "ref1" (1 ∷ []) "elsewhere")).items
    × ((run digest no_assessment
          (step digest no_assessment new_scheduler (completes "a" "w1" "ref1" (1 ∷ []) "elsewhere"))
          calls).items
        ≡ (step digest no_assessment new_scheduler
            (completes "a" "w1" "ref1" (1 ∷ []) "elsewhere")).items)
stale_report_freezes_example =
    stale_report_freezes digest no_assessment new_scheduler
      (completes "a" "w1" "ref1" (1 ∷ []) "elsewhere") calls new_scheduler-HasUniqueIds (refl, refl)
