-- ===== src/Analysis/Queue/Replay.antt =====
-- Idempotency: a call that is repeated under its key.
use trusted_ceo_agent.Prelude.{
  String, Bool, true, Option, none, some, is_some, [], ◌∷◌, ◌≡◌, refl, arith, any, filter, inl, inr,
  ok, raise, Bool-cases, Option-cases, Outcome-cases, str_eq_refl,
}
use trusted_ceo_agent.Analysis.Cases.{SignalCase, text, is_queued, is_investigating}
use trusted_ceo_agent.Analysis.Queue.State.{
  Queue, Request, leases, advances, pauses, resumes, cancels, completes, Answer, Begun, refused,
  replayed, fresh, begin, receipt, remembered, resolve, resolve_lease, replace,
}
use trusted_ceo_agent.Analysis.Queue.Methods.{
  Change, ranked, first_of, leased, lease_best, lease_fresh, lease, apply, advance_change, advance,
  pause_change, pause, resume_change, resume, cancel_change, cancel, complete_change, complete,
  call,
}

module _ (digest : Request → String) (hash : SignalCase → String)
    (schema_ok : SignalCase → Bool) where
  -- A call that was not seen before leaves a receipt of what it returned.
  abbrev pub Noted : String → Request → Option SignalCase → Queue → Type 0
  Noted key request r t = receipt key t.receipts ≡ some (digest request, r)

  begin-fresh :
      (key : String) (request : Request) (q t : Queue) (r : Option SignalCase)
      → begin digest key request q ≡ fresh
      → Noted key request r t
      → begin digest key request t ≡ replayed r
  unfolding begin
  begin-fresh key request q t r new noted = ground (arith, str_eq_refl (digest request))

  remembered-Noted :
      (key : String) (request : Request) (a : Answer SignalCase) {r : Option SignalCase} {t : Queue}
      → remembered digest key request a ≡ (ok r, t)
      → Noted key request r t × (is_some r ≡ true)
  remembered-Noted key request (ok u, q) {r} {t} h = ground (arith, str_eq_refl key)
  remembered-Noted key request (raise e, q) h = absurd (ground arith)

  pub apply-Noted :
      (key : String) (request : Request) (change : Change) (q : Queue) {r : Option SignalCase}
      {t : Queue}
      → apply digest hash schema_ok key request change q ≡ (ok r, t)
      → Noted key request r t × (is_some r ≡ true)
  unfolding apply
  apply-Noted key request (ok p) q {r} {t} h =
      remembered-Noted key request (replace hash schema_ok p.0 p.1 q) {r = r} {t = t} h
  apply-Noted key request (raise e) q h = absurd (ground arith)

  pub lease_fresh-Noted :
      (key : String) (request : Request) (worker : String) (q : Queue) {r : Option SignalCase}
      {t : Queue}
      → lease_fresh digest hash schema_ok key request worker q ≡ (ok r, t)
      → Noted key request r t
  unfolding lease_fresh lease_best
  lease_fresh-Noted key request worker q {r} {t} h =
      elim (Bool-cases (any (λ c. is_investigating c.status) q.cases)) [
        | inl e ↦ ground (arith, str_eq_refl key)
        | inr e ↦
            elim (Option-cases (ranked q.priorities (filter (λ c. is_queued c.status) q.cases))) [
              | inl n ↦ absurd (ground arith)
              | inr ([], n) ↦ ground (arith, str_eq_refl key)
              | inr (b ∷ rs, n) ↦
                  let best = (first_of b rs).1 in
                  (remembered-Noted key request (replace hash schema_ok best (leased best worker) q)
                    {r = r} {t = t} (ground arith)).0
            ]
      ]

  resolve_again :
      (key : String) (request : Request) (q : Queue) (change : Change) {r : Option SignalCase}
      {t : Queue}
      → resolve (begin digest key request q) q (apply digest hash schema_ok key request change q)
        ≡ (ok r, t)
      → (body : Answer (Option SignalCase))
      → resolve (begin digest key request t) t body ≡ (ok r, t)
  resolve_again key request q change {r} {t} h body = go (begin digest key request q) refl h
    where
      go :
          (b : Begun)
          → begin digest key request q ≡ b
          → resolve b q (apply digest hash schema_ok key request change q) ≡ (ok r, t)
          → resolve (begin digest key request t) t body ≡ (ok r, t)
      go (refused e) at k = absurd (ground arith)
      go (replayed none) at k = absurd (ground arith)
      go (replayed (some c)) at k = ground arith
      go fresh at k =
          let (noted, there) = apply-Noted key request change q {r = r} {t = t} k in
          let again = begin-fresh key request q t r at noted in ground arith

  resolve_lease_again :
      (key : String) (request : Request) (worker : String) (q : Queue) {r : Option SignalCase}
      {t : Queue}
      → resolve_lease
          (begin digest key request q)
          q
          (lease_fresh digest hash schema_ok key request worker q)
        ≡ (ok r, t)
      → (body : Answer (Option SignalCase))
      → resolve_lease (begin digest key request t) t body ≡ (ok r, t)
  resolve_lease_again key request worker q {r} {t} h body = go (begin digest key request q) refl h
    where
      go :
          (b : Begun)
          → begin digest key request q ≡ b
          → resolve_lease b q (lease_fresh digest hash schema_ok key request worker q) ≡ (ok r, t)
          → resolve_lease (begin digest key request t) t body ≡ (ok r, t)
      go (refused e) at k = absurd (ground arith)
      go (replayed o) at k = ground arith
      go fresh at k =
          let noted = lease_fresh-Noted key request worker q {r = r} {t = t} k in
          let again = begin-fresh key request q t r at noted in ground arith

  -- A call that has returned something returns the same, and changes nothing, if it is repeated with
  -- its arguments and its idempotency key on the queue that it left.
  pub call_again :
      (request : Request) (key : String) (q : Queue) {r : Option SignalCase} {t : Queue}
      → call digest hash schema_ok request key q ≡ (ok r, t)
      → call digest hash schema_ok request key t ≡ (ok r, t)
  unfolding call lease advance pause resume cancel complete
  call_again (leases worker expected) key q {r} {t} h = elim (Outcome-cases (text worker)) [
    | inr (x, e) ↦ absurd (ground arith)
    | inl (u, e) ↦
        rw (e, lease)
          (resolve_lease_again key (leases worker expected) worker q {r = r} {t = t} (ground arith)
            _)
  ]
  call_again (advances id worker stage expected) key q {r} {t} h =
      resolve_again key _ q (advance_change id worker stage q) {r = r} {t = t} h _
  call_again (pauses id worker status reason expected) key q {r} {t} h =
      resolve_again key _ q (pause_change id worker status reason q) {r = r} {t = t} h _
  call_again (resumes id expected) key q {r} {t} h =
      resolve_again key _ q (resume_change id q) {r = r} {t = t} h _
  call_again (cancels id reason expected) key q {r} {t} h =
      resolve_again key _ q (cancel_change id reason q) {r = r} {t = t} h _
  call_again (completes id worker disposition finding reason expected) key q {r} {t} h =
      resolve_again key _ q (complete_change id worker disposition finding reason q) {r = r} {t = t}
        h _
