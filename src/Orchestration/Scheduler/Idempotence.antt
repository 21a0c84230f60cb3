-- ===== src/Orchestration/Scheduler/Idempotence.antt =====
-- Completing an item twice with the same result.
use trusted_ceo_agent.Prelude.{
  String, true, false, ◌&&◌, ◌||◌, some, ◌≡◌, ◌⊎◌, refl, sym, subst, inl, inr, arith, str_eq,
  str_eq_refl, is_empty_text, ok, raise, Option-cases,
}
use trusted_ceo_agent.Orchestration.Items.{WorkItem, get, put, is_succeeded, drop_time}
use trusted_ceo_agent.Orchestration.Easing.{task_id-get}
use trusted_ceo_agent.Orchestration.Evolving.{Eases-Evolves, get-Evolves, get-put}
use trusted_ceo_agent.Orchestration.Refresh.Settling.{Eases-settled}
use trusted_ceo_agent.Orchestration.Scheduler.State.{Scheduler, Answer, refresh, result_conflict}
use trusted_ceo_agent.Orchestration.Scheduler.Reporting.{
  Payload, complete, complete_item, completed, same_text,
}
use trusted_ceo_agent.Orchestration.Scheduler.Quiet.{complete-Quiet}

-- The scheduler that stores a completed item.
abbrev stored : WorkItem → String → String → Scheduler → Scheduler
stored z ref hash s = refresh (record s {
  items = put (completed z ref hash) s.items;
  lease_started_at = drop_time z.task_id s.lease_started_at;
})

complete_item_parts :
    (z : WorkItem) (worker ref hash : String) (s : Scheduler) {x : WorkItem} {t : Scheduler}
    → complete_item z worker ref hash s ≡ (ok x, t)
    → ((is_succeeded z.status ≡ true)
        × (same_text ref z.result_ref ≡ true)
        × (same_text hash z.result_hash ≡ true)
        × (x ≡ z)
        × (t ≡ s))
      ⊎ ((x ≡ completed z ref hash) × (t ≡ stored z ref hash s))
unfolding complete_item
complete_item_parts z worker ref hash s h = ground arith

complete_parts :
    (sha256 : Payload → String) (id worker ref : String) (payload : Payload) (hash : String)
    (s : Scheduler) {x : WorkItem} {t : Scheduler}
    → complete sha256 id worker ref payload hash s ≡ (ok x, t)
    → (z : WorkItem) × ((is_empty_text id || (is_empty_text worker || is_empty_text ref)) ≡ false)
      × (str_eq hash s.graph.created_from_hash ≡ true)
      × (get id s.items ≡ some z)
      × (complete_item z worker ref (sha256 payload) s ≡ (ok x, t))
unfolding complete
complete_parts sha256 id worker ref payload hash s h = elim (Option-cases (get id s.items)) [
  | inl e ↦ absurd (ground arith)
  | inr (z, e) ↦ (z, ground arith, ground arith, e, ground arith)
]

-- The item that a success leaves under its id: it has succeeded with this result.
succeeded_there :
    (sha256 : Payload → String) (id worker ref : String) (payload : Payload) (hash : String)
    (s : Scheduler) {x : WorkItem} {t : Scheduler}
    → complete sha256 id worker ref payload hash s ≡ (ok x, t)
    → (get id t.items ≡ some x)
      × (is_succeeded x.status ≡ true)
      × (same_text ref x.result_ref ≡ true)
      × (same_text (sha256 payload) x.result_hash ≡ true)
unfolding refresh
succeeded_there sha256 id worker ref payload hash s {x} {t} h =
    let (z, texts, current, found, inner) = complete_parts sha256 id worker ref payload hash s h in
    elim (complete_item_parts z worker ref (sha256 payload) s inner) [
      | inl (won, same_ref, same_hash, same, still) ↦ ground arith
      | inr (same, after) ↦
          let y = completed z ref (sha256 payload) in
          let written = get-put s.items id z y found (task_id-get id s.items z found) in
          let kept =
            get-Evolves (put y s.items) _ id y
              (Eases-Evolves (put y s.items) _ (Eases-settled (put y s.items))) written refl in
          (
            subst (λ (u : Scheduler). get id u.items ≡ some x) (sym after) (rw same kept),
            rw same refl,
            rw same (str_eq_refl ref),
            rw same (str_eq_refl (sha256 payload)),
          )
    ]

-- A worker that repeats a successful `complete` with the same result gets the same item back, and
-- the scheduler is not changed again.
pub complete_twice :
    (sha256 : Payload → String) (id worker ref : String) (payload : Payload) (hash : String)
    (s : Scheduler) {x : WorkItem} {t : Scheduler}
    → complete sha256 id worker ref payload hash s ≡ (ok x, t)
    → complete sha256 id worker ref payload hash t ≡ (ok x, t)
unfolding complete complete_item
complete_twice sha256 id worker ref payload hash s {x} {t} h =
    let (z, texts, current, found, inner) = complete_parts sha256 id worker ref payload hash s h in
    let (there, won, same_ref, same_hash) = succeeded_there sha256 id worker ref payload hash s h in
    let origin : s.graph.created_from_hash ≡ t.graph.created_from_hash =
      subst (λ (m : Answer WorkItem). s.graph.created_from_hash ≡ m.1.graph.created_from_hash) h
        (complete-Quiet sha256 id worker ref payload hash s).same_origin in
    let fresh : str_eq hash t.graph.created_from_hash ≡ true =
      subst (λ o. str_eq hash o ≡ true) origin current in
    rw (texts, fresh, there, won, same_ref, same_hash)

-- A repeated `complete` with another result reference or another payload digest is refused, and
-- the stored success stays.
pub complete_conflict :
    (sha256 : Payload → String) (id worker ref other_ref : String) (payload other : Payload)
    (hash : String) (s : Scheduler) {x : WorkItem} {t : Scheduler}
    → complete sha256 id worker ref payload hash s ≡ (ok x, t)
    → is_empty_text other_ref ≡ false
    → (same_text other_ref x.result_ref && same_text (sha256 other) x.result_hash) ≡ false
    → complete sha256 id worker other_ref other hash t ≡ (raise result_conflict, t)
unfolding complete complete_item
complete_conflict sha256 id worker ref other_ref payload other hash s {x} {t} h named differs =
    let (z, texts, current, found, inner) = complete_parts sha256 id worker ref payload hash s h in
    let (there, won, same_ref, same_hash) = succeeded_there sha256 id worker ref payload hash s h in
    let origin : s.graph.created_from_hash ≡ t.graph.created_from_hash =
      subst (λ (m : Answer WorkItem). s.graph.created_from_hash ≡ m.1.graph.created_from_hash) h
        (complete-Quiet sha256 id worker ref payload hash s).same_origin in
    let fresh : str_eq hash t.graph.created_from_hash ≡ true =
      subst (λ o. str_eq hash o ≡ true) origin current in
    let given : (is_empty_text id || (is_empty_text worker || is_empty_text other_ref)) ≡ false =
      ground arith in
    rw (given, fresh, there, won, differs)
