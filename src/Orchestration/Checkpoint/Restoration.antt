-- ===== src/Orchestration/Checkpoint/Restoration.antt =====
-- What the items restored from a checkpoint can be relied on for.
use trusted_ceo_agent.Prelude.{
  ℕ, String, Bool, true, false, Option, none, some, List, [], ◌∷◌, ◌≡◌, refl, arith, inl, inr, All,
  find, sort, str_eq, subst, str_eq_iff, ok, bind-ok, Bool-cases, Option-cases,
}
use trusted_ceo_agent.Orchestration.Items.{WorkItem, WorkGraph, Items, is_active, is_succeeded}
use trusted_ceo_agent.Orchestration.Budget.{Policy, PolicyBody, by_task_id}
use trusted_ceo_agent.Orchestration.Checkpoint.States.{TaskState, Body, Checkpoint}
use trusted_ceo_agent.Orchestration.Checkpoint.Verification.{
  check_result, check_results, restored_item, restore_each, verify_work_checkpoint,
  restore_work_items,
}
use trusted_ceo_agent.Orchestration.Scheduler.Reporting.{Payload}

-- A result that is there: its payload is available under the reference and has the hash.
abbrev pub HasResult :
    (String → Option Payload) → (Payload → String) → Option String → Option String → Type 0
HasResult payloads sha256 ref hash =
    (r : String) × (p : Payload) × (ref ≡ some r) × (payloads r ≡ some p) × (hash ≡ some (sha256 p))

module _ (payloads : String → Option Payload) (sha256 : Payload → String) where
  -- A state that can be restored.
  abbrev IsBacked : TaskState → Type 0
  IsBacked s = is_succeeded s.status ≡ true → HasResult payloads sha256 s.result_ref s.result_hash

  -- Nobody works on a restored item, and if it has succeeded then its result is there.
  abbrev pub IsRestored : WorkItem → Type 0
  IsRestored x =
      (is_active x.status ≡ false)
      × (is_succeeded x.status ≡ true → HasResult payloads sha256 x.result_ref x.result_hash)

  check_result-HasResult :
      (ref hash : Option String)
      → check_result payloads sha256 ref hash ≡ ok tt
      → HasResult payloads sha256 ref hash
  unfolding check_result
  check_result-HasResult (some r) (some h) e = elim (Option-cases (payloads r)) [
    | inl absent ↦ absurd (ground arith)
    | inr (p, there) ↦
        let same : str_eq (sha256 p) h ≡ true = ground arith in
        (r, p, refl, there, rw ((str_eq_iff (sha256 p) h).0 same) refl)
  ]
  check_result-HasResult none hash e = absurd (ground arith)
  check_result-HasResult (some r) none e = absurd (ground arith)

  check_results-All :
      (ss : List TaskState) → check_results payloads sha256 ss ≡ ok tt → All IsBacked ss
  unfolding check_results
  check_results-All [] e = tt
  check_results-All (s ∷ ss) e = elim (Bool-cases (is_succeeded s.status)) [
    | inl won ↦
        let (u, first, rest) =
          bind-ok (check_result payloads sha256 s.result_ref s.result_hash)
            (λ _. check_results payloads sha256 ss) (ground arith) in
        (λ _. check_result-HasResult s.result_ref s.result_hash first, check_results-All ss rest)
    | inr open_ ↦ (λ won. absurd (ground arith), check_results-All ss (ground arith))
  ]

  restored_item-IsRestored :
      (max_attempts : ℕ) (x : WorkItem) (s : TaskState)
      → IsBacked s
      → IsRestored (restored_item max_attempts x s)
  unfolding restored_item
  restored_item-IsRestored max_attempts x s backed = elim (Bool-cases (is_active s.status)) [
    | inl active ↦ (ground arith, λ won. absurd (ground arith))
    | inr idle ↦ rw idle (idle, backed)
  ]

  found-IsBacked :
      (id : String) (ss : List TaskState) {s : TaskState}
      → find (λ t. str_eq t.task_id id) ss ≡ some s
      → All IsBacked ss
      → IsBacked s
  found-IsBacked id [] e h = absurd (ground arith)
  found-IsBacked id (t ∷ ss) {s} e h = elim (Bool-cases (str_eq t.task_id id)) [
    | inl here ↦ let same : t ≡ s = ground arith in subst IsBacked same h.0
    | inr there ↦ found-IsBacked id ss {s = s} (ground arith) h.1
  ]

  restore_each-IsRestored :
      (max_attempts : ℕ) (ss : List TaskState) (xs : Items) {ys : Items}
      → All IsBacked ss
      → restore_each max_attempts ss xs ≡ ok ys
      → All IsRestored ys
  unfolding restore_each
  restore_each-IsRestored max_attempts ss [] {ys} h e =
      let same : [] ≡ ys = ground arith in subst (All IsRestored) same tt
  restore_each-IsRestored max_attempts ss (x ∷ xs) {ys} h e =
      elim (Option-cases (find (λ s. str_eq s.task_id x.task_id) ss)) [
        | inl absent ↦ absurd (ground arith)
        | inr (s, found) ↦
            let y = restored_item max_attempts x s in
            let (zs, rest, end_) =
              bind-ok (restore_each max_attempts ss xs) (λ zs. ok (y ∷ zs)) {b = ys}
                (ground arith) in
            let same : y ∷ zs ≡ ys = ground arith in
            subst (All IsRestored) same (
              restored_item-IsRestored max_attempts x s (found-IsBacked x.task_id ss found h),
              restore_each-IsRestored max_attempts ss xs h rest,
            )
      ]

module _ (edge_digest : String → String → String) (digest : Body → String)
    (schema_ok : Checkpoint → Bool) (sha256 : Payload → String)
    (fromisoformat : String → Option Bool) (policy_digest : PolicyBody → String)
    (policy_ok : Policy → Bool) where
  verified-results :
      (c : Checkpoint) (g : WorkGraph) (items : Items) (active_hash : String)
      (payloads : String → Option Payload)
      → verify_work_checkpoint edge_digest digest schema_ok sha256 c g items active_hash payloads
        ≡ ok tt
      → check_results payloads sha256 c.body.task_states ≡ ok tt
  unfolding verify_work_checkpoint
  verified-results c g items active_hash payloads h = ground arith

  -- Every item that `restore_work_items` returns is idle: it is neither leased nor running. One
  -- that has succeeded names a result whose payload is available and has the recorded hash.
  pub restore_work_items-IsRestored :
      (c : Checkpoint) (g : WorkGraph) (items : Items) (policy : Policy) (active_hash : String)
      (payloads : String → Option Payload) {restored : Items}
      → restore_work_items edge_digest digest schema_ok sha256 fromisoformat policy_digest policy_ok
          c g items policy active_hash payloads
        ≡ ok restored
      → All (IsRestored payloads sha256) restored
  unfolding restore_work_items
  restore_work_items-IsRestored c g items policy active_hash payloads {restored} h =
      let checked : verify_work_checkpoint edge_digest digest schema_ok sha256 c g items active_hash
            payloads
          ≡ ok tt =
        ground arith in
      let items_of : restore_each policy.max_model_attempts_per_task c.body.task_states
            (sort by_task_id items)
          ≡ ok restored =
        ground arith in
      restore_each-IsRestored payloads sha256 policy.max_model_attempts_per_task c.body.task_states
        (sort by_task_id items)
        (check_results-All payloads sha256 c.body.task_states
          (verified-results c g items active_hash payloads checked))
        items_of
