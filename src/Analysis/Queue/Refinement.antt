-- ===== src/Analysis/Queue/Refinement.antt =====
-- Every call of the queue's methods makes one move of one case, or none.
use trusted_ceo_agent.Prelude.{
  String, Bool, true, Option, none, some, [], ◌∷◌, ◌≡◌, refl, any, filter, All, All-filter, inl,
  inr, ok, raise, Bool-cases, Option-cases, Outcome-cases,
}
use trusted_ceo_agent.Prelude.Keyed.{HasUniqueKeys, get_by_own}
use trusted_ceo_agent.Analysis.Cases.{SignalCase, text, is_queued, is_investigating, verify_case}
use trusted_ceo_agent.Analysis.Queue.State.{
  Cases, case_key, get, Queue, Request, leases, advances, pauses, resumes, cancels, completes,
  Answer, Begun, refused, replayed, fresh, begin, remember, remembered, resolve, resolve_lease,
  stamped, written, replace,
}
use trusted_ceo_agent.Analysis.Queue.Methods.{
  Change, ranked, first_of, leased, lease_best, lease_fresh, lease, apply, advance, pause, resume,
  cancel, complete, call,
}
use trusted_ceo_agent.Analysis.Queue.Moves.{
  Step, IsStep, first_of-All, ranked-All, advance_change-IsStep, pause_change-IsStep,
  resume_change-IsStep, cancel_change-IsStep, complete_change-IsStep,
}

module _ (digest : Request → String) (hash : SignalCase → String)
    (schema_ok : SignalCase → Bool) where
  -- What a call leaves: the queue as it was, the queue with a receipt of a lease that found nothing, or
  -- the queue in which one case has made a step, and has been verified.
  pub data Move (q : Queue) : Queue → Type 0 where
    still : Move q q
    noted : (key : String) (request : Request) → Move q (remember digest key request none q)
    changed :
        (key : String) (request : Request) (id : String) (c u : SignalCase)
        → get id q.cases ≡ some c
        → Step q.cases c u
        → verify_case hash schema_ok (stamped hash schema_ok c u) ≡ ok tt
        → Move q (
            remember digest key request
              (some (stamped hash schema_ok c u))
              (written hash schema_ok (stamped hash schema_ok c u) q))

  resolve-Move :
      (b : Begun) (q : Queue) (body : Answer (Option SignalCase))
      → Move q body.1
      → Move q (resolve b q body).1
  resolve-Move (refused e) q body m = Move.still
  resolve-Move (replayed none) q body m = Move.still
  resolve-Move (replayed (some c)) q body m = Move.still
  resolve-Move fresh q body m = m

  resolve_lease-Move :
      (b : Begun) (q : Queue) (body : Answer (Option SignalCase))
      → Move q body.1
      → Move q (resolve_lease b q body).1
  resolve_lease-Move (refused e) q body m = Move.still
  resolve_lease-Move (replayed r) q body m = Move.still
  resolve_lease-Move fresh q body m = m

  replace-Move :
      (key : String) (request : Request) (q : Queue) (p : SignalCase × SignalCase)
      → IsStep q p
      → Move q (remembered digest key request (replace hash schema_ok p.0 p.1 q)).1
  unfolding replace
  replace-Move key request q (c, u) (id, found, step) =
      elim (Outcome-cases (verify_case hash schema_ok (stamped hash schema_ok c u))) [
        | inl (t, e) ↦ rw (e, replace) (Move.changed key request id c u found step e)
        | inr (x, e) ↦ rw (e, replace) Move.still
      ]

  apply-Move :
      (key : String) (request : Request) (q : Queue) (change : Change)
      → ((p : SignalCase × SignalCase) → change ≡ ok p → IsStep q p)
      → Move q (apply digest hash schema_ok key request change q).1
  unfolding apply
  apply-Move key request q (raise e) h = Move.still
  apply-Move key request q (ok p) h = replace-Move key request q p (h p refl)

  lease_fresh-Move :
      (key : String) (request : Request) (worker : String) (q : Queue)
      → HasUniqueKeys case_key q.cases
      → Move q (lease_fresh digest hash schema_ok key request worker q).1
  unfolding lease_fresh lease_best
  lease_fresh-Move key request worker q unique =
      elim (Bool-cases (any (λ c. is_investigating c.status) q.cases)) [
        | inl e ↦ rw (e, lease_fresh) (Move.noted key request)
        | inr e ↦ elim (Option-cases (ranked q.priorities queue)) [
          | inl n ↦ rw (e, n, lease_fresh, lease_best) Move.still
          | inr ([], n) ↦ rw (e, n, lease_fresh, lease_best) (Move.noted key request)
          | inr (r ∷ rs, n) ↦
              let held = ranked-All IsCandidate q.priorities queue candidates n in
              let (own, at_rest) = first_of-All IsCandidate r rs held.0 held.1 in
              let best = (first_of r rs).1 in
              rw (e, n, lease_fresh, lease_best)
                (replace-Move key request q (best, leased best worker)
                  (best.case_id, own, Step.leased_to worker at_rest e))
        ]
      ]
    where
      queue : Cases
      queue = filter (λ c. is_queued c.status) q.cases

      IsCandidate : SignalCase → Type 0
      IsCandidate c = (get c.case_id q.cases ≡ some c) × (is_queued c.status ≡ true)

      candidates : All IsCandidate queue
      candidates =
          All-filter (λ c. get c.case_id q.cases ≡ some c) (λ c. is_queued c.status) q.cases
            (get_by_own case_key q.cases unique)

  -- Every call of a method, on a queue whose cases have distinct ids, refines the life cycle of a case:
  -- it changes no case, or it takes one case one step further, records the verified result in the case's
  -- history and counts one revision.
  pub call-Move :
      (request : Request) (key : String) (q : Queue)
      → HasUniqueKeys case_key q.cases
      → Move q (call digest hash schema_ok request key q).1
  unfolding call lease advance pause resume cancel complete
  call-Move (leases worker expected) key q unique = elim (Outcome-cases (text worker)) [
    | inr (x, e) ↦ rw (e, lease) Move.still
    | inl (t, e) ↦
        let request = leases worker expected in
        rw (e, lease)
          (resolve_lease-Move (begin digest key request q) q _
            (lease_fresh-Move key request worker q unique))
  ]
  call-Move (advances id worker stage expected) key q unique =
      resolve-Move _ q _
        (apply-Move key _ q _ (λ p. advance_change-IsStep id worker stage q {p = p}))
  call-Move (pauses id worker status reason expected) key q unique =
      resolve-Move _ q _
        (apply-Move key _ q _ (λ p. pause_change-IsStep id worker status reason q {p = p}))
  call-Move (resumes id expected) key q unique =
      resolve-Move _ q _ (apply-Move key _ q _ (λ p. resume_change-IsStep id q {p = p}))
  call-Move (cancels id reason expected) key q unique =
      resolve-Move _ q _ (apply-Move key _ q _ (λ p. cancel_change-IsStep id reason q {p = p}))
  call-Move (completes id worker disposition finding reason expected) key q unique =
      resolve-Move _ q _ (
        apply-Move key _ q _
          (λ p. complete_change-IsStep id worker disposition finding reason q {p = p}))
