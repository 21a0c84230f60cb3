-- ===== src/Analysis/Queue/Choice.antt =====
-- Which case `lease` takes: the order of the priority vectors.
use trusted_ceo_agent.Prelude.{
  ℕ, String, Bool, true, false, none, some, List, [], ◌∷◌, ◌≡◌, refl, sym, ap, ◌∙◌, subst, arith,
  any, find, filter, length, All, inl, inr, ok, Bool-cases, Option-cases, Outcome-cases, str_eq,
}
use trusted_ceo_agent.Analysis.Cases.{
  SignalCase, PriorityRecord, text, is_queued, is_investigating, sort_vector_of, verify_case,
}
use trusted_ceo_agent.Analysis.Queue.State.{
  Cases, Queue, Request, leases, receipt, remembered, stamped, replace,
}
use trusted_ceo_agent.Analysis.Queue.Methods.{
  vector_of, Ranked, ranked, first_of, leased, lease_best, lease_fresh, lease, call,
}
use trusted_ceo_agent.Analysis.Queue.Ranking.{
  above, IsFull, above_refl, first_of_lem, first_of-above, first_of-All-above, ranked-vectors,
  ranked_back,
}
use trusted_ceo_agent.Prelude.Keyed.{get_by-All}
use trusted_ceo_agent.Analysis.Queue.Conflicts.{resolve_lease_new}

-- The vector of a priority record is its dimensions in the policy's order.
abbrev pub IsStandard : PriorityRecord → Type 0
IsStandard p = p.sort_vector ≡ sort_vector_of p.dimensions

vector_of-length :
    (ps : List PriorityRecord) (c : SignalCase) {v : List ℕ}
    → All IsStandard ps
    → vector_of ps c ≡ some v
    → length v ≡ 7
vector_of-length ps c {v} standard h =
    elim (Option-cases
      (find (λ (p : PriorityRecord). str_eq p.priority_record_id c.priority_record_ref) ps)) [
        | inl e ↦ absurd (ground arith)
        | inr (p, e) ↦
            let own : IsStandard p =
              get_by-All (λ (r : PriorityRecord). r.priority_record_id) IsStandard
                c.priority_record_ref ps {c = p} standard e in
            let same : p.sort_vector ≡ v = ground arith in
            sym (ap (length {A = ℕ}) same) ∙ ap (length {A = ℕ}) own
      ]

vectors-IsFull :
    (ps : List PriorityRecord) (rs : List Ranked)
    → All IsStandard ps
    → All (λ (r : Ranked). vector_of ps r.1 ≡ some r.0) rs
    → All IsFull rs
vectors-IsFull ps [] standard h = tt
vectors-IsFull ps (r ∷ rs) standard h =
    (vector_of-length ps r.1 standard h.0, vectors-IsFull ps rs standard h.1)

abbrev pub queued_cases : Queue → Cases
queued_cases q = filter (λ c. is_queued c.status) q.cases

-- No queued case outranks a case.
abbrev pub IsBest : Queue → SignalCase → Type 0
IsBest q u =
    (w : List ℕ) × (vector_of q.priorities u ≡ some w)
    × All (λ c. (v : List ℕ) × (vector_of q.priorities c ≡ some v) × (above v w ≡ false))
        (queued_cases q)

first_of-IsBest :
    (q : Queue) {r : Ranked} {rs : List Ranked}
    → All IsStandard q.priorities
    → ranked q.priorities (queued_cases q) ≡ some (r ∷ rs)
    → IsBest q (first_of r rs).1
first_of-IsBest q {r} {rs} standard e =
    let vectors = ranked-vectors q.priorities (queued_cases q) e in
    let fulls = vectors-IsFull q.priorities (r ∷ rs) standard vectors in
    let top = (first_of r rs).0 in
    (
      top,
      first_of_lem (λ s. vector_of q.priorities s.1 ≡ some s.0) r rs vectors.0 vectors.1,
      ranked_back (λ s. above s.0 top ≡ false) q.priorities (queued_cases q) e
          (
            first_of-above r.0 r rs fulls.0 fulls.1 (above_refl r.0),
            first_of-All-above r rs fulls.0 fulls.1,
          ),
    )

module _ (digest : Request → String) (hash : SignalCase → String)
    (schema_ok : SignalCase → Bool) where
  replaced :
      (key : String) (request : Request) (c u : SignalCase) (q : Queue) {v : SignalCase} {t : Queue}
      → remembered digest key request (replace hash schema_ok c u q) ≡ (ok (some v), t)
      → stamped hash schema_ok c u ≡ v
  unfolding replace
  replaced key request c u q {v} {t} h =
      elim (Outcome-cases (verify_case hash schema_ok (stamped hash schema_ok c u))) [
        | inr (x, e) ↦ absurd (ground arith)
        | inl (x, e) ↦ ground arith
      ]

  -- Under a new key, a lease that returns a case gives a case that is then under investigation for the
  -- worker, where none was before; and no queued case has a priority vector that is larger at the first
  -- dimension, in the policy's order, where the two differ.
  pub lease-IsBest :
      (worker : String) (expected : ℕ) (key : String) (q : Queue) {u : SignalCase} {t : Queue}
      → All IsStandard q.priorities
      → receipt key q.receipts ≡ none
      → call digest hash schema_ok (leases worker expected) key q ≡ (ok (some u), t)
      → (u.lease_owner ≡ some worker)
        × (is_investigating u.status ≡ true)
        × (any (λ c. is_investigating c.status) q.cases ≡ false)
        × IsBest q u
  unfolding call lease lease_fresh lease_best
  lease-IsBest worker expected key q {u} {t} standard new h = elim (Outcome-cases (text worker)) [
    | inr (x, e) ↦ absurd (ground arith)
    | inl (x, e) ↦
        fresh
          (resolve_lease_new digest hash schema_ok key request q
            (lease_fresh digest hash schema_ok key request worker q) {r = some u} {t = t} new
            (ground arith)).1
  ]
    where
      request : Request
      request = leases worker expected

      fresh :
          lease_fresh digest hash schema_ok key request worker q ≡ (ok (some u), t)
          → (u.lease_owner ≡ some worker)
            × (is_investigating u.status ≡ true)
            × (any (λ c. is_investigating c.status) q.cases ≡ false)
            × IsBest q u
      fresh k = elim (Bool-cases (any (λ c. is_investigating c.status) q.cases)) [
        | inl e ↦ absurd (ground arith)
        | inr e ↦ elim (Option-cases (ranked q.priorities (queued_cases q))) [
          | inl n ↦ absurd (ground arith)
          | inr ([], n) ↦ absurd (ground arith)
          | inr (r ∷ rs, n) ↦
              let best = (first_of r rs).1 in
              let same =
                replaced key request best (leased best worker) q {v = u} {t = t} (ground arith) in
              subst
                (λ (v : SignalCase).
                  (v.lease_owner ≡ some worker)
                  × (is_investigating v.status ≡ true)
                  × (any (λ c. is_investigating c.status) q.cases ≡ false)
                  × IsBest q v)
                same (refl, refl, e, first_of-IsBest q standard n)
        ]
      ]
