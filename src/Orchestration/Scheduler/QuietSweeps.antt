-- ===== src/Orchestration/Scheduler/QuietSweeps.antt =====
-- The sweeps over the items, `expire`, `cancel` and `assess_budget`, only ease them.
use trusted_ceo_agent.Prelude.{
  ℕ, String, Option, none, some, List, [], ◌∷◌, ◌≡◌, refl, arith, inl, inr, length, Bool-cases,
  Outcome, ok, raise, is_empty_text, str_le, sort,
}
use trusted_ceo_agent.Orchestration.Items.{
  GraphStatus, WorkItem, Items, get, put, is_live, drop_time, model_timeout,
}
use trusted_ceo_agent.Orchestration.Easing.{released-Eases}
use trusted_ceo_agent.Orchestration.Refresh.{sorted_ids}
use trusted_ceo_agent.Orchestration.Budget.{Policy, Assessment, AssessmentStatus, overflowed}
use trusted_ceo_agent.Orchestration.Scheduler.State.{Scheduler, Answer, refresh, set_status}
use trusted_ceo_agent.Orchestration.Scheduler.Reporting.{apply_failure}
use trusted_ceo_agent.Orchestration.Scheduler.Sweeping.{
  expire, expire_each, active_lease, prepend, is_overdue, cancel, cancel_all, cancel_each,
  cancelled_item, dependents, assess_budget, note_overflow,
}
use trusted_ceo_agent.Orchestration.Scheduler.Quiet.{
  Quiet, Quiet-refl, Quiet-trans, Quiet-refresh, Quiet-write, Quiet-if, Quiet-found,
  Quiet-then_refresh, apply_failure-Quiet,
}

Quiet-set_status : (g : GraphStatus) (s : Scheduler) → Quiet s (set_status g s)
Quiet-set_status g s = record {
  eases = (Quiet-refl s).eases;
  same_policy = refl;
  same_origin = refl;
}

Quiet-prepend :
    (s : Scheduler) (id : String) (m : Answer (List String))
    → Quiet s m.1
    → Quiet s (prepend id m).1
Quiet-prepend s id (ok l, t) h = h
Quiet-prepend s id (raise e, t) h = h

active_lease-get :
    (id : String) (s : Scheduler) (x : WorkItem) (started : Option ℕ)
    → active_lease id s ≡ some (x, started)
    → get id s.items ≡ some x
unfolding active_lease
active_lease-get id s x started h = ground arith

expire_each-Quiet :
    (ids : List String) (now : ℕ) (s : Scheduler) → Quiet s (expire_each ids now s).1
unfolding expire_each
expire_each-Quiet [] now s = Quiet-refl s
expire_each-Quiet (id ∷ ids) now s =
    go (active_lease id s) refl (expire_each-Quiet ids now s) (λ t. expire_each-Quiet ids now t)
  where
    go :
        (o : Option (WorkItem × Option ℕ))
        → active_lease id s ≡ o
        → Quiet s (expire_each ids now s).1
        → ((t : Scheduler) → Quiet t (expire_each ids now t).1)
        → Quiet s (expire_each (id ∷ ids) now s).1
    go none e here later = rw (e, expire_each) here
    go (some (x, none)) e here later = rw (e, expire_each) (Quiet-refl s)
    go (some (x, some started)) e here later =
        rw (e, expire_each)
          (Quiet-if (is_overdue x now started) _ _
            (λ _.
              let t = (apply_failure x model_timeout s).1 in
              Quiet-prepend s id (expire_each ids now t) (
                Quiet-trans s t (expire_each ids now t).1
                  (apply_failure-Quiet x id model_timeout s
                    (active_lease-get id s x (some started) e))
                  (later t)))
            (λ _. here))

pub expire-Quiet : (now : ℕ) (s : Scheduler) → Quiet s (expire now s).1
unfolding expire
expire-Quiet now s =
    Quiet-then_refresh s (expire_each (sorted_ids s.items) now s)
      (expire_each-Quiet (sorted_ids s.items) now s)

cancel_each-Quiet : (ids : List String) (s : Scheduler) → Quiet s (cancel_each ids s).1
unfolding cancel_each
cancel_each-Quiet [] s = Quiet-refl s
cancel_each-Quiet (id ∷ ids) s =
    go (get id s.items) refl (cancel_each-Quiet ids s) (λ t. cancel_each-Quiet ids t)
  where
    go :
        (o : Option WorkItem)
        → get id s.items ≡ o
        → Quiet s (cancel_each ids s).1
        → ((t : Scheduler) → Quiet t (cancel_each ids t).1)
        → Quiet s (cancel_each (id ∷ ids) s).1
    go none e here later = rw (e, cancel_each) here
    go (some x) e here later = elim (Bool-cases (is_live x.status)) [
      | inr over ↦ rw (e, cancel_each, over) here
      | inl live ↦
          let t : Scheduler = record s {
            items = put (cancelled_item x) s.items;
            lease_started_at = drop_time id s.lease_started_at;
          } in
          rw (e, cancel_each, live)
            (Quiet-trans s t (cancel_each ids t).1
              (Quiet-write s id x (cancelled_item x) (drop_time id s.lease_started_at) e refl
                (released-Eases x (cancelled_item x) live refl refl refl))
              (later t))
    ]

pub cancel_all-Quiet : (s : Scheduler) → Quiet s (cancel_all s).1
unfolding cancel_all
cancel_all-Quiet s =
    let t = (cancel_each (sorted_ids s.items) s).1 in
    let u = set_status GraphStatus.cancelled t in
    Quiet-trans s t (refresh u) (cancel_each-Quiet (sorted_ids s.items) s)
      (Quiet-trans t u (refresh u) (Quiet-set_status GraphStatus.cancelled t) (Quiet-refresh u))

pub cancel-Quiet : (id : String) (s : Scheduler) → Quiet s (cancel id s).1
unfolding cancel
cancel-Quiet id s =
    Quiet-if (is_empty_text id) _ _ (λ _. Quiet-refl s)
      (λ _. Quiet-found (get id s.items) _ _ (Quiet-refl s) (λ x found.
        let targets = sort str_le (dependents (length s.items) s.items (id ∷ [])) in
        let t = (cancel_each targets s).1 in
        Quiet-trans s t (refresh t) (cancel_each-Quiet targets s) (Quiet-refresh t)))

note_overflow-Quiet : (a : AssessmentStatus) (s : Scheduler) → Quiet s (note_overflow a s)
note_overflow-Quiet AssessmentStatus.ready s = Quiet-refl s
note_overflow-Quiet (overflowed action) s = Quiet-set_status _ s

pub assess_budget-Quiet :
    {E : Type 0} (assess : Policy → Items → ℕ → Outcome E Assessment) (elapsed : ℕ) (s : Scheduler)
    → Quiet s (assess_budget assess elapsed s).1
unfolding assess_budget
assess_budget-Quiet {E} assess elapsed s = go (assess s.policy s.items elapsed) refl
  where
    go :
        (o : Outcome E Assessment)
        → assess s.policy s.items elapsed ≡ o
        → Quiet s (assess_budget assess elapsed s).1
    go (ok a) e = rw (e, assess_budget) (note_overflow-Quiet a.status s)
    go (raise x) e = rw (e, assess_budget) (Quiet-refl s)
