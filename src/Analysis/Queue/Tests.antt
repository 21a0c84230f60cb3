-- ===== src/Analysis/Queue/Tests.antt =====
-- Runs of the queue on the samples, and the theorems at them.
use trusted_ceo_agent.Prelude.{
  String, ◌≤◌, true, false, none, some, List, [], ◌∷◌, ◌≡◌, refl, arith, All, any, is_some, ◌+◌, ok,
  raise,
}
use trusted_ceo_agent.Prelude.Keyed.{HasUniqueKeys, total}
use trusted_ceo_agent.Analysis.Cases.{
  SignalCase, is_investigating, verify_case, verify_priority, queued, key_reused, stale_revision,
  is_blank,
}
use trusted_ceo_agent.Analysis.Queue.State.{
  Request, case_key, get, history_of, leases, cancels, begin, replace,
}
use trusted_ceo_agent.Analysis.Queue.Methods.{
  precedes, ranked, first_of, lease_best, lease_fresh, lease, call, run,
}
use trusted_ceo_agent.Analysis.Queue.Refinement.{Move, call-Move}
use trusted_ceo_agent.Analysis.Queue.Steps.{IsProper, active, revisions}
use trusted_ceo_agent.Analysis.Queue.Invariants.{
  run_one_active, run-IsProper, terminal_stays, run-revision,
}
use trusted_ceo_agent.Analysis.Queue.Replay.{call_again}
use trusted_ceo_agent.Analysis.Queue.Conflicts.{second_writer_refused}
use trusted_ceo_agent.Analysis.Queue.Keys.{reused_key_refused}
use trusted_ceo_agent.Analysis.Queue.History.{IsLogged, IsPrefix, run-IsLogged, history_grows}
use trusted_ceo_agent.Analysis.Queue.Choice.{IsBest, IsStandard, queued_cases, lease-IsBest}
use trusted_ceo_agent.Analysis.Queue.Starting.{add_cases, add_priorities, create}
use trusted_ceo_agent.Analysis.Queue.Created.{IsSound, create-IsSound}
use trusted_ceo_agent.Analysis.Queue.Closing.{all_terminal_stays}
use trusted_ceo_agent.Analysis.Queue.Methods.{assert_all_terminal}
use trusted_ceo_agent.Analysis.Queue.Life.{created_run}
use trusted_ceo_agent.Analysis.Queue.Samples.{
  digest, hash, schema_ok, priority_hash, priority_ok, low, high, low_priority, high_priority,
  start, taken, after, calls, deferred_low, half_done, all_done,
}

test_create :
    create hash schema_ok priority_hash priority_ok
      (low ∷ high ∷ [])
      (low_priority ∷ high_priority ∷ [])
    ≡ ok start
unfolding create add_cases add_priorities verify_case verify_priority
test_create = refl

test_lease : call digest hash schema_ok (leases "worker" 3) "k1" start ≡ (ok (some taken), after)
unfolding call lease lease_fresh lease_best begin ranked first_of precedes replace verify_case
    is_blank
test_lease = refl

start_unique : HasUniqueKeys case_key start.cases
start_unique = ((refl, tt), (tt, tt))

call-Move_example :
    Move digest hash schema_ok start (call digest hash schema_ok (leases "worker" 3) "k1" start).1
call-Move_example = call-Move digest hash schema_ok (leases "worker" 3) "k1" start start_unique

run_one_active_example : total case_key active (run digest hash schema_ok start calls).cases ≤ 1
run_one_active_example = run_one_active digest hash schema_ok start calls start_unique (omega arith)

queued-IsProper :
    (c : SignalCase)
    → c.status ≡ queued
    → c.lease_owner ≡ none
    → c.disposition ≡ none
    → c.finding_ref ≡ none
    → IsProper c
queued-IsProper c at free undecided none_found = record {
  owned = rw (at, free) refl;
  disposed = rw (at, undecided) refl;
  found = λ d e. absurd (ground arith);
  unfound = λ e. none_found;
}

run-IsProper_example : All IsProper (run digest hash schema_ok start calls).cases
run-IsProper_example =
    run-IsProper digest hash schema_ok start calls start_unique
      (queued-IsProper low refl refl refl refl, (queued-IsProper high refl refl refl refl, tt))

terminal_stays_example :
    get low.case_id (run digest hash schema_ok half_done calls).cases ≡ some deferred_low
terminal_stays_example =
    terminal_stays digest hash schema_ok half_done calls low.case_id deferred_low
      ((refl, tt), (tt, tt)) refl refl

run-revision_example :
    ((run digest hash schema_ok start calls).revision + revisions start
      ≡ 3 + revisions (run digest hash schema_ok start calls))
    × (3 ≤ (run digest hash schema_ok start calls).revision)
run-revision_example = run-revision digest hash schema_ok start calls start_unique

call_again_example :
    call digest hash schema_ok (leases "worker" 3) "k1" after ≡ (ok (some taken), after)
call_again_example =
    call_again digest hash schema_ok (leases "worker" 3) "k1" start {r = some taken} {t = after}
      test_lease

blank_new : is_blank "k2" ≡ false
unfolding is_blank
blank_new = refl

-- A second lease, which finds a case under investigation already.
abbrev later : List (Request × String)
later = (leases "other" 4, "k2") ∷ []

reused_key_refused_example :
    call digest hash schema_ok
      (cancels low.case_id "closed" 4)
      "k1"
      (run digest hash schema_ok after later)
    ≡ (raise key_reused, run digest hash schema_ok after later)
reused_key_refused_example =
    reused_key_refused digest hash schema_ok (leases "worker" 3) (cancels low.case_id "closed" 4)
      "k1" start {r = some taken} {t = after} later test_lease refl tt

second_writer_refused_example :
    call digest hash schema_ok (cancels low.case_id "closed" 3) "k2" after
    ≡ (raise stale_revision, after)
second_writer_refused_example =
    second_writer_refused digest hash schema_ok (leases "worker" 3) (cancels low.case_id "closed" 3)
      "k1" "k2" start {u = taken} {t = after} refl test_lease refl tt blank_new refl

start-IsSound : IsSound hash schema_ok priority_hash priority_ok (low ∷ high ∷ []) start
start-IsSound =
    create-IsSound hash schema_ok priority_hash priority_ok (low ∷ high ∷ [])
      (low_priority ∷ high_priority ∷ []) {q = start} test_create

create-IsSound_example : IsSound hash schema_ok priority_hash priority_ok (low ∷ high ∷ []) start
create-IsSound_example =
    create-IsSound hash schema_ok priority_hash priority_ok (low ∷ high ∷ [])
      (low_priority ∷ high_priority ∷ []) {q = start} test_create

run-IsLogged_example : IsLogged hash (run digest hash schema_ok start calls)
run-IsLogged_example =
    run-IsLogged digest hash schema_ok start calls start_unique start-IsSound.logged

history_grows_example :
    (ks : List SignalCase) × (history_of low.case_id (run digest hash schema_ok start calls).history
      ≡ some ks)
    × IsPrefix (low ∷ []) ks
history_grows_example =
    history_grows digest hash schema_ok start calls low.case_id (low ∷ []) start_unique refl

lease-IsBest_example :
    (taken.lease_owner ≡ some "worker")
    × (is_investigating taken.status ≡ true)
    × (any (λ c. is_investigating c.status) start.cases ≡ false)
    × IsBest start taken
lease-IsBest_example =
    lease-IsBest digest hash schema_ok "worker" 3 "k1" start {u = taken} {t = after}
      (refl, (refl, tt)) refl test_lease

created_run_example :
    (total case_key active (run digest hash schema_ok start calls).cases ≤ 1)
    × IsLogged hash (run digest hash schema_ok start calls)
    × All IsStandard (run digest hash schema_ok start calls).priorities
    × (is_some (
          ranked
            (run digest hash schema_ok start calls).priorities
            (queued_cases (run digest hash schema_ok start calls)))
        ≡ true)
created_run_example =
    created_run digest hash schema_ok priority_hash priority_ok (low ∷ high ∷ [])
      (low_priority ∷ high_priority ∷ []) {q = start} calls test_create (omega arith)

test_done : assert_all_terminal all_done ≡ ok tt
unfolding assert_all_terminal
test_done = refl

all_terminal_stays_example :
    ((run digest hash schema_ok all_done calls).cases ≡ all_done.cases)
    × ((run digest hash schema_ok all_done calls).revision ≡ 3)
all_terminal_stays_example =
    all_terminal_stays digest hash schema_ok all_done calls ((refl, tt), (tt, tt)) test_done
