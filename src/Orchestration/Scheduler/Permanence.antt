-- ===== src/Orchestration/Scheduler/Permanence.antt =====
-- What no call changes: the items' work, and the items that have ended.
use trusted_ceo_agent.Prelude.{
  ℕ, String, true, false, some, List, [], ◌∷◌, ◌≡◌, refl, arith, inl, inr, length, leb,
  is_empty_text, Bool-cases, Option-cases, Outcome,
}
use trusted_ceo_agent.Orchestration.Items.{WorkItem, Items, get, is_ready, is_terminal}
use trusted_ceo_agent.Orchestration.Easing.{Pointwise}
use trusted_ceo_agent.Orchestration.Evolving.{
  Evolves, Eases-Evolves, Evolves-all_refl, Evolves-all_trans, Evolves-put, HasUniqueIds,
  HasUniqueIds-Evolves, get_own,
}
use trusted_ceo_agent.Orchestration.Budget.{Policy, Assessment}
use trusted_ceo_agent.Orchestration.Scheduler.State.{Scheduler, refresh, store}
use trusted_ceo_agent.Orchestration.Scheduler.Leasing.{
  lease, grant, candidate, taken, exhausted, active_items, owns_active,
}
use trusted_ceo_agent.Orchestration.Scheduler.Reporting.{Payload}
use trusted_ceo_agent.Orchestration.Scheduler.Calls.{
  Call, leases, starts, completes, fails, expires, cancels_all, cancels, assesses, step, run,
}
use trusted_ceo_agent.Orchestration.Scheduler.Quiet.{
  Quiet, Quiet-refresh, start-Quiet, complete-Quiet, fail-Quiet,
}
use trusted_ceo_agent.Orchestration.Scheduler.QuietSweeps.{
  expire-Quiet, cancel_all-Quiet, cancel-Quiet, assess_budget-Quiet,
}
use trusted_ceo_agent.Orchestration.Scheduler.Choice.{candidate-All, candidate-ready}

abbrev pub EvolvesTo : Scheduler → Scheduler → Type 0
EvolvesTo s t = Pointwise Evolves s.items t.items

Quiet-EvolvesTo : (s t : Scheduler) → Quiet s t → EvolvesTo s t
Quiet-EvolvesTo s t q = Eases-Evolves s.items t.items q.eases

ready_not_terminal : (x : WorkItem) → is_ready x.status ≡ true → is_terminal x.status ≡ false
ready_not_terminal x h = ground arith

grant-EvolvesTo :
    (s : Scheduler) (x : WorkItem) (worker : String) (now : ℕ)
    → HasUniqueIds s.items
    → candidate s ≡ some x
    → EvolvesTo s (grant x worker now s).1
unfolding grant
grant-EvolvesTo s x worker now unique chosen =
    let found =
      candidate-All (λ y. get y.task_id s.items ≡ some y) s x (get_own s.items unique) chosen in
    let open_ = ready_not_terminal x (candidate-ready s x chosen) in
    elim (Bool-cases (leb s.policy.max_model_attempts_per_task x.attempt)) [
      | inl e ↦
          let t = store (exhausted x) s in
          rw (e, grant)
            (Evolves-all_trans s.items t.items (refresh t).items
              (Evolves-put s.items x (exhausted x) found (inr (open_, refl)))
              (Quiet-EvolvesTo t (refresh t) (Quiet-refresh t)))
      | inr e ↦ rw (e, grant) (Evolves-put s.items x (taken x worker) found (inr (open_, refl)))
    ]

lease-EvolvesTo :
    (s : Scheduler) (worker : String) (now : ℕ)
    → HasUniqueIds s.items
    → EvolvesTo s (lease worker now s).1
unfolding lease
lease-EvolvesTo s worker now u =
    let same = Evolves-all_refl s.items in
    elim (Bool-cases (is_empty_text worker)) [
      | inl e ↦ rw (e, lease) same
      | inr e ↦ elim (Bool-cases (owns_active worker s.items)) [
        | inl o ↦ rw (e, o, lease) same
        | inr o ↦
            elim (Bool-cases (leb s.policy.max_parallel_workers (length (active_items s.items)))) [
              | inl m ↦ rw (e, o, m, lease) same
              | inr m ↦ elim (Option-cases (candidate s)) [
                | inl c ↦ rw (e, o, m, c, lease) same
                | inr (x, c) ↦ rw (e, o, m, c, lease) (grant-EvolvesTo s x worker now u c)
              ]
            ]
      ]
    ]

module _ {E : Type 0} (sha256 : Payload → String)
    (assess : Policy → Items → ℕ → Outcome E Assessment) where
  pub step-EvolvesTo :
      (s : Scheduler) (c : Call) → HasUniqueIds s.items → EvolvesTo s (step sha256 assess s c)
  unfolding step
  step-EvolvesTo s (leases worker now) u = lease-EvolvesTo s worker now u
  step-EvolvesTo s (starts task worker) u = Quiet-EvolvesTo s _ (start-Quiet task worker s)
  step-EvolvesTo s (completes task worker ref payload hash) u =
      Quiet-EvolvesTo s _ (complete-Quiet sha256 task worker ref payload hash s)
  step-EvolvesTo s (fails task worker code hash) u =
      Quiet-EvolvesTo s _ (fail-Quiet task worker code hash s)
  step-EvolvesTo s (expires now) u = Quiet-EvolvesTo s _ (expire-Quiet now s)
  step-EvolvesTo s cancels_all u = Quiet-EvolvesTo s _ (cancel_all-Quiet s)
  step-EvolvesTo s (cancels task) u = Quiet-EvolvesTo s _ (cancel-Quiet task s)
  step-EvolvesTo s (assesses elapsed) u = Quiet-EvolvesTo s _ (assess_budget-Quiet assess elapsed s)

  -- Whatever calls are made on a scheduler whose items have distinct ids, the items stay the same
  -- in number, order and work (ids, dependencies, packet, timeout), and an item that has
  -- succeeded, failed, been cancelled or superseded, or that waits for input or review, never
  -- changes again in any field.
  pub run-Evolves :
      (s : Scheduler) (calls : List Call)
      → HasUniqueIds s.items
      → Pointwise Evolves s.items (run sha256 assess s calls).items
  unfolding run
  run-Evolves s [] u = Evolves-all_refl s.items
  run-Evolves s (c ∷ calls) u =
      let t = step sha256 assess s c in
      let first = step-EvolvesTo s c u in
      Evolves-all_trans s.items t.items (run sha256 assess t calls).items first
        (run-Evolves t calls (HasUniqueIds-Evolves s.items t.items first u))
