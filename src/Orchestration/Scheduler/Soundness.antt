-- ===== src/Orchestration/Scheduler/Soundness.antt =====
-- The scheduler's invariant: workers, owners and attempts keep to the policy's limits.
use trusted_ceo_agent.Prelude.{
  ℕ, ◌≤◌, String, true, false, some, List, [], ◌∷◌, ◌≡◌, refl, subst, arith, inl, inr, All, count,
  length, leb, str_eq, str_eq_iff, is_empty_text, Bool-cases, Option-cases, Outcome,
}
use trusted_ceo_agent.Orchestration.Items.{GraphStatus, WorkItem, Items, put, owned_by, set_time}
use trusted_ceo_agent.Orchestration.Easing.{held_by, count-held-Eases, attempts-Eases}
use trusted_ceo_agent.Orchestration.Budget.{Policy, Assessment}
use trusted_ceo_agent.Orchestration.Scheduler.State.{Scheduler, refresh, set_status, store}
use trusted_ceo_agent.Orchestration.Scheduler.Leasing.{
  lease, grant, candidate, taken, exhausted, active_items, owns_active,
}
use trusted_ceo_agent.Orchestration.Scheduler.Reporting.{Payload}
use trusted_ceo_agent.Orchestration.Scheduler.Calls.{
  Call, leases, starts, completes, fails, expires, cancels_all, cancels, assesses, step, run,
}
use trusted_ceo_agent.Orchestration.Scheduler.Quiet.{
  Quiet, Quiet-refresh, start-Quiet, complete-Quiet, fail-Quiet,
}
use trusted_ceo_agent.Orchestration.Scheduler.QuietSweeps.{
  expire-Quiet, cancel_all-Quiet, cancel-Quiet, assess_budget-Quiet,
}
use trusted_ceo_agent.Orchestration.Scheduler.Choice.{
  candidate-All, All-put, count-put, length-active, unowned-count,
}

pub record IsSound (s : Scheduler) : Type 0 where
  pub workers : count (held_by (λ _. true)) s.items ≤ s.policy.max_parallel_workers
  pub exclusive : (worker : String) → count (held_by (owned_by worker)) s.items ≤ 1
  pub attempts : All (λ x. x.attempt ≤ s.policy.max_model_attempts_per_task) s.items

pub Quiet-IsSound : (s t : Scheduler) → Quiet s t → IsSound s → IsSound t
Quiet-IsSound s t q h = record {
  workers =
      subst (λ (p : Policy). count (held_by (λ _. true)) t.items ≤ p.max_parallel_workers)
        q.same_policy
        (omega (arith, count-held-Eases (λ _. true) s.items t.items q.eases, h.workers));
  exclusive = λ worker.
      omega (arith, count-held-Eases (owned_by worker) s.items t.items q.eases, h.exclusive worker);
  attempts =
      subst (λ (p : Policy). All (λ x. x.attempt ≤ p.max_model_attempts_per_task) t.items)
        q.same_policy
        (attempts-Eases s.policy.max_model_attempts_per_task s.items t.items q.eases h.attempts);
}

-- The new item is held by the worker who asked, and by nobody else.
held_by-taken :
    (x : WorkItem) (worker other : String)
    → held_by (owned_by other) (taken x worker) ≡ str_eq worker other
held_by-taken x worker other = refl

granted-IsSound :
    (s : Scheduler) (x : WorkItem) (worker : String) (now : ℕ)
    → IsSound s
    → owns_active worker s.items ≡ false
    → leb s.policy.max_parallel_workers (length (active_items s.items)) ≡ false
    → leb s.policy.max_model_attempts_per_task x.attempt ≡ false
    → IsSound (
        set_status GraphStatus.running (record s {
          items = put (taken x worker) s.items;
          lease_started_at = set_time x.task_id now s.lease_started_at;
        }))
granted-IsSound s x worker now h free room left = record {
  workers = ground (arith, count-put (λ _. true) s.items (taken x worker), length-active s.items);
  exclusive = λ other. elim (Bool-cases (str_eq worker other)) [
    | inl e ↦
        let same : worker ≡ other = (str_eq_iff worker other).0 e in
        subst (λ w. count (held_by (owned_by w)) (put (taken x worker) s.items) ≤ 1) same
          (ground (
            arith,
            count-put (owned_by worker) s.items (taken x worker),
            unowned-count worker s.items free,
          ))
    | inr e ↦ ground (arith, count-put (owned_by other) s.items (taken x worker), h.exclusive other)
  ];
  attempts =
      All-put (λ y. y.attempt ≤ s.policy.max_model_attempts_per_task) s.items (taken x worker)
        h.attempts (ground arith);
}

exhausted-IsSound :
    (s : Scheduler) (x : WorkItem)
    → IsSound s
    → x.attempt ≤ s.policy.max_model_attempts_per_task
    → IsSound (store (exhausted x) s)
exhausted-IsSound s x h within = record {
  workers = ground (arith, count-put (λ _. true) s.items (exhausted x), h.workers);
  exclusive = λ w. ground (arith, count-put (owned_by w) s.items (exhausted x), h.exclusive w);
  attempts =
      All-put (λ y. y.attempt ≤ s.policy.max_model_attempts_per_task) s.items (exhausted x)
        h.attempts within;
}

grant-IsSound :
    (s : Scheduler) (x : WorkItem) (worker : String) (now : ℕ)
    → IsSound s
    → candidate s ≡ some x
    → owns_active worker s.items ≡ false
    → leb s.policy.max_parallel_workers (length (active_items s.items)) ≡ false
    → IsSound (grant x worker now s).1
unfolding grant
grant-IsSound s x worker now h chosen free room =
    elim (Bool-cases (leb s.policy.max_model_attempts_per_task x.attempt)) [
      | inl e ↦
          let t = store (exhausted x) s in
          let within =
            candidate-All (λ y. y.attempt ≤ s.policy.max_model_attempts_per_task) s x h.attempts
              chosen in
          rw (e, grant)
            (Quiet-IsSound t (refresh t) (Quiet-refresh t) (exhausted-IsSound s x h within))
      | inr e ↦ rw (e, grant) (granted-IsSound s x worker now h free room e)
    ]

pub lease-IsSound :
    (s : Scheduler) (worker : String) (now : ℕ) → IsSound s → IsSound (lease worker now s).1
unfolding lease
lease-IsSound s worker now h = elim (Bool-cases (is_empty_text worker)) [
  | inl e ↦ rw (e, lease) h
  | inr e ↦ elim (Bool-cases (owns_active worker s.items)) [
    | inl o ↦ rw (e, o, lease) h
    | inr o ↦
        elim (Bool-cases (leb s.policy.max_parallel_workers (length (active_items s.items)))) [
          | inl m ↦ rw (e, o, m, lease) h
          | inr m ↦ elim (Option-cases (candidate s)) [
            | inl c ↦ rw (e, o, m, c, lease) h
            | inr (x, c) ↦ rw (e, o, m, c, lease) (grant-IsSound s x worker now h c o m)
          ]
        ]
  ]
]

module _ {E : Type 0} (sha256 : Payload → String)
    (assess : Policy → Items → ℕ → Outcome E Assessment) where
  step-IsSound : (s : Scheduler) (c : Call) → IsSound s → IsSound (step sha256 assess s c)
  unfolding step
  step-IsSound s (leases worker now) h = lease-IsSound s worker now h
  step-IsSound s (starts task worker) h = Quiet-IsSound s _ (start-Quiet task worker s) h
  step-IsSound s (completes task worker ref payload hash) h =
      Quiet-IsSound s _ (complete-Quiet sha256 task worker ref payload hash s) h
  step-IsSound s (fails task worker code hash) h =
      Quiet-IsSound s _ (fail-Quiet task worker code hash s) h
  step-IsSound s (expires now) h = Quiet-IsSound s _ (expire-Quiet now s) h
  step-IsSound s cancels_all h = Quiet-IsSound s _ (cancel_all-Quiet s) h
  step-IsSound s (cancels task) h = Quiet-IsSound s _ (cancel-Quiet task s) h
  step-IsSound s (assesses elapsed) h = Quiet-IsSound s _ (assess_budget-Quiet assess elapsed s) h

  -- Whatever calls are made, raising ones included, a scheduler that keeps to its policy goes on
  -- to: at most `max_parallel_workers` items are leased or running, no worker holds two of them,
  -- and no item has more than `max_model_attempts_per_task` attempts.
  pub run-IsSound :
      (s : Scheduler) (calls : List Call) → IsSound s → IsSound (run sha256 assess s calls)
  unfolding run
  run-IsSound s [] h = h
  run-IsSound s (c ∷ calls) h = run-IsSound (step sha256 assess s c) calls (step-IsSound s c h)
