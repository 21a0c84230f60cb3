-- ===== src/Orchestration/Scheduler/Quiet.antt =====
-- Every method but `lease` only eases the items, and none changes the policy or the graph's origin.
use trusted_ceo_agent.Prelude.{
  ℕ, String, Bool, true, false, ◌&&◌, ◌||◌, not, Option, none, some, [], ◌∷◌, ◌≡◌, refl, sym, ◌∙◌,
  subst, inl, inr, arith, map, str_eq, Bool-cases, is_empty_text, ok, raise, if◌then◌else◌,
}
use trusted_ceo_agent.Orchestration.Items.{
  FailureCode, WorkItem, Items, get, put, is_active, is_live, is_leased, is_succeeded, is_running,
  owned_by, running, superseded, stale_revision, LeaseTimes, drop_time,
}
use trusted_ceo_agent.Orchestration.Easing.{
  Eases, Pointwise, released-Eases, Eases-all_refl, Eases-all_trans, Eases-put, task_id-get,
}
use trusted_ceo_agent.Orchestration.Refresh.Settling.{Eases-settled}
use trusted_ceo_agent.Orchestration.Scheduler.State.{Scheduler, Answer, refresh}
use trusted_ceo_agent.Orchestration.Scheduler.Leasing.{start, start_item}
use trusted_ceo_agent.Orchestration.Scheduler.Reporting.{
  Payload, complete, complete_item, completed, fail, fail_item, apply_failure, failed_item,
  failure_status, supersede_all, superseded_item, then_refresh, has_identity, same_text,
}

pub record Quiet (s t : Scheduler) : Type 0 where
  pub eases : Pointwise Eases s.items t.items
  pub same_policy : s.policy ≡ t.policy
  pub same_origin : s.graph.created_from_hash ≡ t.graph.created_from_hash

pub Quiet-refl : (s : Scheduler) → Quiet s s
Quiet-refl s = record { eases = Eases-all_refl s.items; same_policy = refl; same_origin = refl }

pub Quiet-trans : (s t u : Scheduler) → Quiet s t → Quiet t u → Quiet s u
Quiet-trans s t u h k = record {
  eases = Eases-all_trans s.items t.items u.items h.eases k.eases;
  same_policy = h.same_policy ∙ k.same_policy;
  same_origin = h.same_origin ∙ k.same_origin;
}

pub Quiet-refresh : (s : Scheduler) → Quiet s (refresh s)
unfolding refresh
Quiet-refresh s = record { eases = Eases-settled s.items; same_policy = refl; same_origin = refl }

-- An item that is found by its id is written back eased, with any lease times.
pub Quiet-write :
    (s : Scheduler) (id : String) (x y : WorkItem) (times : LeaseTimes)
    → get id s.items ≡ some x
    → y.task_id ≡ x.task_id
    → Eases x y
    → Quiet s (record s { items = put y s.items; lease_started_at = times })
Quiet-write s id x y times found same eases = record {
  eases = Eases-put s.items x y at_it eases;
  same_policy = refl;
  same_origin = refl;
}
  where
    at_it : get y.task_id s.items ≡ some x
    at_it = subst (λ k. get k s.items ≡ some x) (sym (same ∙ task_id-get id s.items x found)) found

-- Rules for the branches of a method.
pub Quiet-if :
    {A : Type 0} {s : Scheduler} (b : Bool) (m n : Answer A)
    → (b ≡ true → Quiet s m.1)
    → (b ≡ false → Quiet s n.1)
    → Quiet s (if b then m else n).1
Quiet-if true m n h k = h refl
Quiet-if false m n h k = k refl

pub Quiet-found :
    {A : Type 0} {s : Scheduler} (o : Option WorkItem) (m : Answer A) (k : WorkItem → Answer A)
    → Quiet s m.1
    → ((x : WorkItem) → o ≡ some x → Quiet s (k x).1)
    → Quiet s (elim o as (λ _. Answer A) [ none ↦ m | some x ↦ k x ]).1
Quiet-found none m k h f = h
Quiet-found (some x) m k h f = f x refl

pub Quiet-then_refresh :
    {A : Type 0} (s : Scheduler) (m : Answer A) → Quiet s m.1 → Quiet s (then_refresh m).1
Quiet-then_refresh s (ok a, t) h = Quiet-trans s t (refresh t) h (Quiet-refresh t)
Quiet-then_refresh s (raise e, t) h = h

pub active_live : (x : WorkItem) → is_active x.status ≡ true → is_live x.status ≡ true
active_live x h = ground arith

start_item-Quiet :
    (x : WorkItem) (id worker : String) (s : Scheduler)
    → get id s.items ≡ some x
    → Quiet s (start_item x worker s).1
start_item-Quiet x id worker s found =
    Quiet-if (not (is_leased x.status) || not (owned_by worker x.lease_owner)) _ _
      (λ e. Quiet-refl s)
      (λ e.
        Quiet-write s id x (record x { status = running }) s.lease_started_at found refl
          (inr (record {
            live = ground arith;
            same_work = refl;
            same_attempt = refl;
            held = inr (ground arith, refl);
          })))

pub start-Quiet : (id worker : String) (s : Scheduler) → Quiet s (start id worker s).1
unfolding start
start-Quiet id worker s =
    Quiet-if (is_empty_text id || is_empty_text worker) _ _ (λ e. Quiet-refl s)
      (λ e.
        Quiet-found (get id s.items) _ _ (Quiet-refl s)
          (λ x found. start_item-Quiet x id worker s found))

superseded_item-Eases : (x : WorkItem) → Eases x (superseded_item x)
superseded_item-Eases x = elim (Bool-cases (is_live x.status)) [
  | inl e ↦ rw e (
      released-Eases x
        (record x {
          status = superseded;
          lease_owner = none;
          result_ref = none;
          result_hash = none;
          failure_code = some stale_revision;
        })
        e refl refl refl)
  | inr e ↦ rw e (inl refl)
]

superseded_all : (xs : Items) → Pointwise Eases xs (map superseded_item xs)
superseded_all [] = tt
superseded_all (x ∷ xs) = (superseded_item-Eases x, superseded_all xs)

supersede_all-Quiet : (s : Scheduler) → Quiet s (supersede_all s)
unfolding supersede_all
supersede_all-Quiet s = record {
  eases = superseded_all s.items;
  same_policy = refl;
  same_origin = refl;
}

complete_item-Quiet :
    (x : WorkItem) (id worker ref hash : String) (s : Scheduler)
    → get id s.items ≡ some x
    → Quiet s (complete_item x worker ref hash s).1
unfolding complete_item
complete_item-Quiet x id worker ref hash s found =
    Quiet-if (is_succeeded x.status) _ _
      (λ e.
        Quiet-if (same_text ref x.result_ref && same_text hash x.result_hash) _ _
          (λ _. Quiet-refl s) (λ _. Quiet-refl s))
      (λ e.
        Quiet-if (not (is_running x.status) || not (owned_by worker x.lease_owner)) _ _
          (λ _. Quiet-refl s)
          (λ live.
            Quiet-if (not (has_identity x)) _ _ (λ _. Quiet-refl s)
              (λ _.
                let t : Scheduler = record s {
                  items = put (completed x ref hash) s.items;
                  lease_started_at = drop_time x.task_id s.lease_started_at;
                } in
                Quiet-trans s t (refresh t)
                  (Quiet-write s id x (completed x ref hash) t.lease_started_at found refl
                    (released-Eases x (completed x ref hash) (ground arith) refl refl refl))
                  (Quiet-refresh t))))

pub complete-Quiet :
    (sha256 : Payload → String) (id worker ref : String) (payload : Payload) (hash : String)
    (s : Scheduler)
    → Quiet s (complete sha256 id worker ref payload hash s).1
unfolding complete
complete-Quiet sha256 id worker ref payload hash s =
    Quiet-if (is_empty_text id || (is_empty_text worker || is_empty_text ref)) _ _
      (λ _. Quiet-refl s)
      (λ _.
        Quiet-if (not (str_eq hash s.graph.created_from_hash)) _ _ (λ _. supersede_all-Quiet s)
          (λ _.
            Quiet-found (get id s.items) _ _ (Quiet-refl s)
              (λ x found. complete_item-Quiet x id worker ref (sha256 payload) s found)))

failure_status-free :
    (bound : ℕ) (x : WorkItem) (code : FailureCode)
    → is_active (failure_status bound x code) ≡ false
unfolding failure_status
failure_status-free bound x code = ground arith

pub apply_failure-Quiet :
    (x : WorkItem) (id : String) (code : FailureCode) (s : Scheduler)
    → get id s.items ≡ some x
    → Quiet s (apply_failure x code s).1
unfolding apply_failure
apply_failure-Quiet x id code s found =
    let y = failed_item s.policy.max_model_attempts_per_task x code in
    Quiet-if (not (is_active x.status)) _ _ (λ _. Quiet-refl s)
      (λ e. Quiet-write s id x y (drop_time x.task_id s.lease_started_at) found refl (
        released-Eases x y (ground arith) refl refl
          (failure_status-free s.policy.max_model_attempts_per_task x code)))

fail_item-Quiet :
    (x : WorkItem) (id worker : String) (code : FailureCode) (s : Scheduler)
    → get id s.items ≡ some x
    → Quiet s (fail_item x worker code s).1
fail_item-Quiet x id worker code s found =
    Quiet-if (not (owned_by worker x.lease_owner)) _ _ (λ _. Quiet-refl s)
      (λ _. Quiet-then_refresh s (apply_failure x code s) (apply_failure-Quiet x id code s found))

pub fail-Quiet :
    (id worker : String) (code : FailureCode) (hash : String) (s : Scheduler)
    → Quiet s (fail id worker code hash s).1
unfolding fail
fail-Quiet id worker code hash s =
    Quiet-if (is_empty_text id || is_empty_text worker) _ _ (λ _. Quiet-refl s)
      (λ _.
        Quiet-if (not (str_eq hash s.graph.created_from_hash)) _ _ (λ _. supersede_all-Quiet s)
          (λ _.
            Quiet-found (get id s.items) _ _ (Quiet-refl s)
              (λ x found. fail_item-Quiet x id worker code s found)))
