-- ===== src/Analysis/Queue/Receipts.antt =====
-- A receipt stays, whatever calls follow.
use trusted_ceo_agent.Prelude.{
  String, Bool, false, Option, none, some, List, [], ◌∷◌, ◌≡◌, refl, sym, subst, arith, any, filter,
  inl, inr, ok, raise, Bool-cases, Option-cases, Outcome-cases, str_eq, str_eq_iff,
}
use trusted_ceo_agent.Analysis.Cases.{SignalCase, text, is_queued, is_investigating, verify_case}
use trusted_ceo_agent.Analysis.Queue.State.{
  Queue, Request, leases, advances, pauses, resumes, cancels, completes, Answer, Begun, refused,
  replayed, fresh, begin, receipt, remembered, resolve, resolve_lease, stamped, replace,
}
use trusted_ceo_agent.Analysis.Queue.Methods.{
  Change, ranked, first_of, leased, lease_best, lease_fresh, lease, apply, advance, pause, resume,
  cancel, complete, call, run,
}

module _ (digest : Request → String) (hash : SignalCase → String)
    (schema_ok : SignalCase → Bool) where
  -- A queue still has a receipt.
  abbrev pub Has : String → String × Option SignalCase → Queue → Type 0
  Has key x q = receipt key q.receipts ≡ some x

  replace-Has :
      (key : String) (x : String × Option SignalCase) (c u : SignalCase) (q : Queue)
      → Has key x q
      → Has key x (replace hash schema_ok c u q).1
  unfolding replace
  replace-Has key x c u q h =
      elim (Outcome-cases (verify_case hash schema_ok (stamped hash schema_ok c u))) [
        | inl (y, e) ↦ rw (e, replace) h
        | inr (y, e) ↦ rw (e, replace) h
      ]

  remembered-Has :
      (key other : String) (x : String × Option SignalCase) (request : Request)
      (a : Answer SignalCase)
      → str_eq other key ≡ false
      → Has key x a.1
      → Has key x (remembered digest other request a).1
  remembered-Has key other x request (ok u, q) apart h = rw apart h
  remembered-Has key other x request (raise e, q) apart h = h

  apply-Has :
      (key other : String) (x : String × Option SignalCase) (request : Request) (change : Change)
      (q : Queue)
      → str_eq other key ≡ false
      → Has key x q
      → Has key x (apply digest hash schema_ok other request change q).1
  unfolding apply
  apply-Has key other x request (ok p) q apart h =
      remembered-Has key other x request (replace hash schema_ok p.0 p.1 q) apart
        (replace-Has key x p.0 p.1 q h)
  apply-Has key other x request (raise e) q apart h = h

  lease_fresh-Has :
      (key other : String) (x : String × Option SignalCase) (request : Request) (worker : String)
      (q : Queue)
      → str_eq other key ≡ false
      → Has key x q
      → Has key x (lease_fresh digest hash schema_ok other request worker q).1
  unfolding lease_fresh lease_best
  lease_fresh-Has key other x request worker q apart h =
      elim (Bool-cases (any (λ c. is_investigating c.status) q.cases)) [
        | inl e ↦ rw (e, lease_fresh, apart) h
        | inr e ↦
            elim (Option-cases (ranked q.priorities (filter (λ c. is_queued c.status) q.cases))) [
              | inl n ↦ rw (e, n, lease_fresh, lease_best) h
              | inr ([], n) ↦ rw (e, n, lease_fresh, lease_best, apart) h
              | inr (b ∷ rs, n) ↦
                  let best = (first_of b rs).1 in
                  rw (e, n, lease_fresh, lease_best)
                    (remembered-Has key other x request
                      (replace hash schema_ok best (leased best worker) q) apart
                      (replace-Has key x best (leased best worker) q h))
            ]
      ]

  -- Only a key without a receipt is fresh.
  fresh-apart :
      (key other : String) (x : String × Option SignalCase) (request : Request) (q : Queue)
      → Has key x q
      → begin digest other request q ≡ fresh
      → str_eq other key ≡ false
  unfolding begin
  fresh-apart key other x request q h new = elim (Bool-cases (str_eq other key)) [
    | inl e ↦
        let known : Has other x q = subst (λ k. Has k x q) (sym ((str_eq_iff other key).0 e)) h in
        absurd (ground arith)
    | inr e ↦ e
  ]

  resolve-Has :
      (key : String) (x : String × Option SignalCase) (b : Begun) (q : Queue)
      (body : Answer (Option SignalCase))
      → Has key x q
      → (b ≡ fresh → Has key x body.1)
      → Has key x (resolve b q body).1 × Has key x (resolve_lease b q body).1
  resolve-Has key x (refused e) q body h f = (h, h)
  resolve-Has key x (replayed none) q body h f = (h, h)
  resolve-Has key x (replayed (some c)) q body h f = (h, h)
  resolve-Has key x fresh q body h f = (f refl, f refl)

  applied-Has :
      (key other : String) (x : String × Option SignalCase) (request : Request) (change : Change)
      (q : Queue)
      → Has key x q
      → Has key x
          (resolve
            (begin digest other request q)
            q
            (apply digest hash schema_ok other request change q)).1
  applied-Has key other x request change q h =
      (resolve-Has key x _ q _ h (λ new.
        apply-Has key other x request change q (fresh-apart key other x request q h new) h)).0

  call-Has :
      (key other : String) (x : String × Option SignalCase) (request : Request) (q : Queue)
      → Has key x q
      → Has key x (call digest hash schema_ok request other q).1
  unfolding call lease advance pause resume cancel complete
  call-Has key other x (leases worker expected) q h = elim (Outcome-cases (text worker)) [
    | inr (y, e) ↦ rw (e, lease) h
    | inl (y, e) ↦
        let request = leases worker expected in
        rw (e, lease)
          (resolve-Has key x (begin digest other request q) q _ h (λ new.
            lease_fresh-Has key other x request worker q (fresh-apart key other x request q h new)
              h)).1
  ]
  call-Has key other x (advances id worker stage expected) q h = applied-Has key other x _ _ q h
  call-Has key other x (pauses id worker status reason expected) q h =
      applied-Has key other x _ _ q h
  call-Has key other x (resumes id expected) q h = applied-Has key other x _ _ q h
  call-Has key other x (cancels id reason expected) q h = applied-Has key other x _ _ q h
  call-Has key other x (completes id worker disposition finding reason expected) q h =
      applied-Has key other x _ _ q h

  pub run-Has :
      (key : String) (x : String × Option SignalCase) (q : Queue) (calls : List (Request × String))
      → Has key x q
      → Has key x (run digest hash schema_ok q calls)
  unfolding run
  run-Has key x q [] h = h
  run-Has key x q ((request, other) ∷ calls) h =
      run-Has key x (call digest hash schema_ok request other q).1 calls
        (call-Has key other x request q h)
