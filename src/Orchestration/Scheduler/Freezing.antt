-- ===== src/Orchestration/Scheduler/Freezing.antt =====
-- What a report from a stale generation leaves: work that no call changes again.
use trusted_ceo_agent.Prelude.{
  ℕ, String, true, false, ◌||◌, List, [], ◌∷◌, ◌≡◌, refl, sym, arith, inl, inr, All, map, str_eq,
  is_empty_text, Outcome,
}
use trusted_ceo_agent.Orchestration.Items.{WorkItem, Items, is_terminal}
use trusted_ceo_agent.Orchestration.Easing.{Pointwise}
use trusted_ceo_agent.Orchestration.Evolving.{Evolves, HasUniqueIds, HasUniqueIds-Evolves}
use trusted_ceo_agent.Orchestration.Budget.{Policy, Assessment}
use trusted_ceo_agent.Orchestration.Scheduler.State.{Scheduler}
use trusted_ceo_agent.Orchestration.Scheduler.Reporting.{
  Payload, superseded_item, supersede_all, complete, fail,
}
use trusted_ceo_agent.Orchestration.Scheduler.Calls.{
  Call, leases, starts, completes, fails, expires, cancels_all, cancels, assesses, step, run,
}
use trusted_ceo_agent.Orchestration.Scheduler.Permanence.{run-Evolves, step-EvolvesTo}

-- A report with well-formed names about another generation than the graph's.
abbrev pub IsStale : Scheduler → Call → Type 0
IsStale s (completes task worker ref payload hash) =
    ((is_empty_text task || (is_empty_text worker || is_empty_text ref)) ≡ false)
    × (str_eq hash s.graph.created_from_hash ≡ false)
IsStale s (fails task worker code hash) =
    ((is_empty_text task || is_empty_text worker) ≡ false)
    × (str_eq hash s.graph.created_from_hash ≡ false)
IsStale s _ = ⊥

abbrev pub HasEnded : Items → Type 0
HasEnded = All (λ x. is_terminal x.status ≡ true)

superseded-HasEnded : (xs : Items) → HasEnded (map superseded_item xs)
superseded-HasEnded [] = tt
superseded-HasEnded (x ∷ xs) = (ground arith, superseded-HasEnded xs)

Evolves-ended : (x y : WorkItem) → Evolves x y → is_terminal x.status ≡ true → y ≡ x
Evolves-ended x y (inl p) h = sym p
Evolves-ended x y (inr e) h = absurd (ground arith)

Evolves-HasEnded : (xs ys : Items) → Pointwise Evolves xs ys → HasEnded xs → ys ≡ xs
Evolves-HasEnded [] [] e h = refl
Evolves-HasEnded (x ∷ xs) (y ∷ ys) e h =
    rw (Evolves-ended x y e.0 h.0, Evolves-HasEnded xs ys e.1 h.1) refl
Evolves-HasEnded [] (y ∷ ys) e h = absurd e
Evolves-HasEnded (x ∷ xs) [] e h = absurd e

module _ {E : Type 0} (sha256 : Payload → String)
    (assess : Policy → Items → ℕ → Outcome E Assessment) where
  stale-HasEnded :
      (s : Scheduler) (c : Call) → IsStale s c → HasEnded (step sha256 assess s c).items
  unfolding step complete fail supersede_all
  stale-HasEnded s (completes task worker ref payload hash) h =
      rw (h.0, h.1, step, complete) (superseded-HasEnded s.items)
  stale-HasEnded s (fails task worker code hash) h =
      rw (h.0, h.1, step, fail) (superseded-HasEnded s.items)
  stale-HasEnded s (leases worker now) h = absurd h
  stale-HasEnded s (starts task worker) h = absurd h
  stale-HasEnded s (expires now) h = absurd h
  stale-HasEnded s cancels_all h = absurd h
  stale-HasEnded s (cancels task) h = absurd h
  stale-HasEnded s (assesses elapsed) h = absurd h

  -- After a `complete` or a `fail` that names another generation than the graph's, in a scheduler
  -- whose items have distinct ids, every item has ended, and no later calls change any item.
  pub stale_report_freezes :
      (s : Scheduler) (c : Call) (calls : List Call)
      → HasUniqueIds s.items
      → IsStale s c
      → HasEnded (step sha256 assess s c).items
        × ((run sha256 assess (step sha256 assess s c) calls).items
            ≡ (step sha256 assess s c).items)
  stale_report_freezes s c calls unique stale =
      let t = step sha256 assess s c in
      let ended = stale-HasEnded s c stale in
      let still_unique =
        HasUniqueIds-Evolves s.items t.items (step-EvolvesTo sha256 assess s c unique) unique in
      (
        ended,
        Evolves-HasEnded t.items (run sha256 assess t calls).items
            (run-Evolves sha256 assess t calls still_unique) ended,
      )
