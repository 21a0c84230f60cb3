-- ===== src/Analysis/Queue/Conflicts.antt =====
-- Requests that the queue refuses before it does anything.
use trusted_ceo_agent.Prelude.{
  suc, ◌==◌, String, Bool, false, Option, none, some, [], ◌∷◌, ◌≡◌, refl, sym, ap, ◌∙◌, ◌⊎◌, arith,
  any, filter, inl, inr, ok, raise, Bool-cases, Option-cases, Outcome-cases,
}
use trusted_ceo_agent.Analysis.Cases.{
  SignalCase, QueueError, text, is_blank, is_queued, is_investigating, verify_case, stale_revision,
  empty_text,
}
use trusted_ceo_agent.Analysis.Queue.State.{
  Queue, Request, leases, advances, pauses, resumes, cancels, completes, expected_of, Answer,
  refused, fresh, begin, receipt, remember, remembered, resolve, resolve_lease, stamped, written,
  replace,
}
use trusted_ceo_agent.Analysis.Queue.Methods.{
  Change, ranked, first_of, leased, lease_best, lease_fresh, lease, apply, advance, pause, resume,
  cancel, complete, call,
}

-- `lease` looks at its worker's name before all else.
abbrev pub IsNamed : Request → Type 0
IsNamed (leases worker expected) = is_blank worker ≡ false
IsNamed _ = Unit

module _ (digest : Request → String) (hash : SignalCase → String)
    (schema_ok : SignalCase → Bool) where
  pub refused-call :
      (request : Request) (key : String) (q : Queue) (e : QueueError)
      → IsNamed request
      → begin digest key request q ≡ refused e
      → call digest hash schema_ok request key q ≡ (raise e, q)
  unfolding call lease advance pause resume cancel complete
  refused-call (leases worker expected) key q e named h = ground arith
  refused-call (advances id worker stage expected) key q e named h = rw h
  refused-call (pauses id worker status reason expected) key q e named h = rw h
  refused-call (resumes id expected) key q e named h = rw h
  refused-call (cancels id reason expected) key q e named h = rw h
  refused-call (completes id worker disposition finding reason expected) key q e named h = rw h

  replace-revision :
      (c u : SignalCase) (q : Queue) {v : SignalCase} {t : Queue}
      → replace hash schema_ok c u q ≡ (ok v, t)
      → t.revision ≡ suc q.revision
  unfolding replace
  replace-revision c u q {v} {t} h =
      elim (Outcome-cases (verify_case hash schema_ok (stamped hash schema_ok c u))) [
        | inl (x, e) ↦
            let same : written hash schema_ok (stamped hash schema_ok c u) q ≡ t = ground arith in
            sym (ap (λ (s : Queue). s.revision) same)
        | inr (x, e) ↦ absurd (ground arith)
      ]

  remembered-revision :
      (key : String) (request : Request) (c u : SignalCase) (q : Queue) {r : Option SignalCase}
      {t : Queue}
      → remembered digest key request (replace hash schema_ok c u q) ≡ (ok r, t)
      → t.revision ≡ suc q.revision
  remembered-revision key request c u q {r} {t} h = go (replace hash schema_ok c u q) refl h
    where
      go :
          (a : Answer SignalCase)
          → replace hash schema_ok c u q ≡ a
          → remembered digest key request a ≡ (ok r, t)
          → t.revision ≡ suc q.revision
      go (ok v, s) at k =
          let same : remember digest key request (some v) s ≡ t = ground arith in
          sym (ap (λ (w : Queue). w.revision) same) ∙ replace-revision c u q {v = v} {t = s} at
      go (raise e, s) at k = absurd (ground arith)

  apply-revision :
      (key : String) (request : Request) (change : Change) (q : Queue) {r : Option SignalCase}
      {t : Queue}
      → apply digest hash schema_ok key request change q ≡ (ok r, t)
      → t.revision ≡ suc q.revision
  unfolding apply
  apply-revision key request (ok p) q {r} {t} h =
      remembered-revision key request p.0 p.1 q {r = r} {t = t} h
  apply-revision key request (raise e) q h = absurd (ground arith)

  lease_fresh-revision :
      (key : String) (request : Request) (worker : String) (q : Queue) {u : SignalCase} {t : Queue}
      → lease_fresh digest hash schema_ok key request worker q ≡ (ok (some u), t)
      → t.revision ≡ suc q.revision
  unfolding lease_fresh lease_best
  lease_fresh-revision key request worker q {u} {t} h =
      elim (Bool-cases (any (λ c. is_investigating c.status) q.cases)) [
        | inl e ↦ absurd (ground arith)
        | inr e ↦
            elim (Option-cases (ranked q.priorities (filter (λ c. is_queued c.status) q.cases))) [
              | inl n ↦ absurd (ground arith)
              | inr ([], n) ↦ absurd (ground arith)
              | inr (b ∷ rs, n) ↦
                  let best = (first_of b rs).1 in
                  remembered-revision key request best (leased best worker) q {r = some u} {t = t}
                    (ground arith)
            ]
      ]

  begin-expected :
      (key : String) (request : Request) (q : Queue)
      → receipt key q.receipts ≡ none
      → (begin digest key request q ≡ refused empty_text)
        ⊎ ((begin digest key request q ≡ refused stale_revision)
            ⊎ ((begin digest key request q ≡ fresh) × (expected_of request ≡ q.revision)))
  unfolding begin
  begin-expected key request q new = ground arith

  resolve_new :
      (key : String) (request : Request) (q : Queue) (body : Answer (Option SignalCase))
      {r : Option SignalCase} {t : Queue}
      → receipt key q.receipts ≡ none
      → resolve (begin digest key request q) q body ≡ (ok r, t)
      → (expected_of request ≡ q.revision) × (body ≡ (ok r, t))
  resolve_new key request q body {r} {t} new h = elim (begin-expected key request q new) [
    | inl e ↦ absurd (ground arith)
    | inr (inl e) ↦ absurd (ground arith)
    | inr (inr (e, same)) ↦ (same, ground arith)
  ]

  pub resolve_lease_new :
      (key : String) (request : Request) (q : Queue) (body : Answer (Option SignalCase))
      {r : Option SignalCase} {t : Queue}
      → receipt key q.receipts ≡ none
      → resolve_lease (begin digest key request q) q body ≡ (ok r, t)
      → (expected_of request ≡ q.revision) × (body ≡ (ok r, t))
  resolve_lease_new key request q body {r} {t} new h = elim (begin-expected key request q new) [
    | inl e ↦ absurd (ground arith)
    | inr (inl e) ↦ absurd (ground arith)
    | inr (inr (e, same)) ↦ (same, ground arith)
  ]

  abbrev Writes : Request → Queue → Queue → Type 0
  Writes request q t = (expected_of request ≡ q.revision) × (t.revision ≡ suc q.revision)

  applied-Writes :
      (key : String) (request : Request) (q : Queue) (change : Change) {u : SignalCase} {t : Queue}
      → receipt key q.receipts ≡ none
      → resolve (begin digest key request q) q (apply digest hash schema_ok key request change q)
        ≡ (ok (some u), t)
      → Writes request q t
  applied-Writes key request q change {u} {t} new h =
      let (same, e) = resolve_new key request q _ {r = some u} {t = t} new h in
      (same, apply-revision key request change q {r = some u} {t = t} e)

  call-Writes :
      (request : Request) (key : String) (q : Queue) {u : SignalCase} {t : Queue}
      → receipt key q.receipts ≡ none
      → call digest hash schema_ok request key q ≡ (ok (some u), t)
      → Writes request q t
  unfolding call lease advance pause resume cancel complete
  call-Writes (leases worker expected) key q {u} {t} new h = elim (Outcome-cases (text worker)) [
    | inr (x, e) ↦ absurd (ground arith)
    | inl (x, e) ↦
        let (same, body) =
          resolve_lease_new key (leases worker expected) q
            (lease_fresh digest hash schema_ok key (leases worker expected) worker q) {r = some u}
            {t = t} new (ground arith) in
        (same, lease_fresh-revision key _ worker q {u = u} {t = t} body)
  ]
  call-Writes (advances id worker stage expected) key q {u} {t} new h =
      applied-Writes key _ q _ {u = u} {t = t} new h
  call-Writes (pauses id worker status reason expected) key q {u} {t} new h =
      applied-Writes key _ q _ {u = u} {t = t} new h
  call-Writes (resumes id expected) key q {u} {t} new h =
      applied-Writes key _ q _ {u = u} {t = t} new h
  call-Writes (cancels id reason expected) key q {u} {t} new h =
      applied-Writes key _ q _ {u = u} {t = t} new h
  call-Writes (completes id worker disposition finding reason expected) key q {u} {t} new h =
      applied-Writes key _ q _ {u = u} {t = t} new h

  begin-stale :
      (key : String) (request : Request) (q : Queue)
      → is_blank key ≡ false
      → receipt key q.receipts ≡ none
      → expected_of request == q.revision ≡ false
      → begin digest key request q ≡ refused stale_revision
  unfolding begin
  begin-stale key request q given new other = rw (given, new, other)

  -- Of two requests that were made for the same revision, under keys that are new, the first one that
  -- returns a case wins: the second one is then refused as stale, and it changes nothing.
  pub second_writer_refused :
      (first second : Request) (key key' : String) (q : Queue) {u : SignalCase} {t : Queue}
      → receipt key q.receipts ≡ none
      → call digest hash schema_ok first key q ≡ (ok (some u), t)
      → expected_of second ≡ expected_of first
      → IsNamed second
      → is_blank key' ≡ false
      → receipt key' t.receipts ≡ none
      → call digest hash schema_ok second key' t ≡ (raise stale_revision, t)
  second_writer_refused first second key key' q {u} {t} new h same named given new' =
      let (now, next) = call-Writes first key q {u = u} {t = t} new h in
      refused-call second key' t stale_revision named
        (begin-stale key' second t given new' (ground arith))
