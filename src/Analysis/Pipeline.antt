-- ===== src/Analysis/Pipeline.antt =====
-- From the signals to a worked queue: `materialize_signal_cases`, `SignalCaseQueue` on what it returns, and
-- any calls of the queue's methods.
use trusted_ceo_agent.Prelude.{
  ◌≤◌, String, Bool, Option, some, List, [], ◌∷◌, ◌≡◌, refl, sym, subst, arith, All, All-weaken, ok,
}
use trusted_ceo_agent.Prelude.Keyed.{total, put_by-All, get_by-All}
use trusted_ceo_agent.Analysis.Cases.{SignalCase, PriorityRecord}
use trusted_ceo_agent.Analysis.Queue.State.{Cases, case_key, Queue, Request, stamped}
use trusted_ceo_agent.Analysis.Queue.Methods.{run}
use trusted_ceo_agent.Analysis.Queue.Moves.{
  Step, leased_to, advanced, held_up, put_back, called_off, concluded,
}
use trusted_ceo_agent.Analysis.Queue.Refinement.{Move, still, noted, changed}
use trusted_ceo_agent.Analysis.Queue.Steps.{IsProper, active, Step-id}
use trusted_ceo_agent.Analysis.Queue.Invariants.{run-keeps, run_one_active, run-IsProper}
use trusted_ceo_agent.Analysis.Queue.Starting.{create}
use trusted_ceo_agent.Analysis.Queue.Created.{create-IsSound}
use trusted_ceo_agent.Analysis.Materialize.Specs.{Signal, Spec}
use trusted_ceo_agent.Analysis.Materialize.Building.{Setting, Documents, materialize_signal_cases}
use trusted_ceo_agent.Analysis.Materialize.Documents.{
  IsNew, materialize-IsNew, materialize_exclusive,
}

Step-signals : (cases : Cases) (c u : SignalCase) → Step cases c u → u.signal_ids ≡ c.signal_ids
Step-signals cases c u (leased_to worker at free) = refl
Step-signals cases c u (advanced stage at next range) = refl
Step-signals cases c u (held_up status reason at p) = refl
Step-signals cases c u (put_back at) = refl
Step-signals cases c u (called_off reason at) = refl
Step-signals cases c u (concluded d f reason at last k m) = refl

-- A function sends each signal of a case to the case.
abbrev pub Has : (String → Option String) → SignalCase → Type 0
Has owner c = All (λ s. owner s ≡ some c.case_id) c.signal_ids

module _ (digest : Request → String) (hash : SignalCase → String)
    (schema_ok : SignalCase → Bool) where
  Move-Has :
      (owner : String → Option String) (q t : Queue)
      → Move digest hash schema_ok q t
      → All (Has owner) q.cases
      → All (Has owner) t.cases
  Move-Has owner q t still h = h
  Move-Has owner q t (noted key request) h = h
  Move-Has owner q t (changed key request j c u found step e) h =
      let old = get_by-All case_key (Has owner) j q.cases {c = c} h found in
      put_by-All case_key (Has owner) (stamped hash schema_ok c u) q.cases h
        (rw (Step-signals q.cases c u step, Step-id q.cases c u step) old)

IsNew-IsProper : (c : SignalCase) → IsNew c → IsProper c
IsNew-IsProper c h = record {
  owned = rw (h.waiting, h.free) refl;
  disposed = rw (h.waiting, h.undecided) refl;
  found = λ d e. absurd (ground (arith, h.undecided));
  unfound = λ e. h.without;
}

IsNew-total : (cs : Cases) → All IsNew cs → total case_key active cs ≡ 0
IsNew-total [] h = refl
IsNew-total (c ∷ cs) h = ground (arith, h.0.waiting, IsNew-total cs h.1)

-- Cases that were materialized from signals, in a queue that its constructor has accepted, keep after any
-- calls: at most one case is under investigation, owners, dispositions and findings agree with the cases'
-- statuses, and each signal still stands in the cases of one id only.
pub materialized_run :
    (docs : Documents) (setting : Setting) (digest : Request → String) (signals : List Signal)
    (specs : List Spec) {cases : List SignalCase} {ps : List PriorityRecord} {q : Queue}
    (calls : List (Request × String))
    → materialize_signal_cases docs setting signals specs ≡ ok (cases, ps)
    → create docs.case_hash docs.case_ok docs.priority_hash docs.priority_ok cases ps ≡ ok q
    → (total case_key active (run digest docs.case_hash docs.case_ok q calls).cases ≤ 1)
      × All IsProper (run digest docs.case_hash docs.case_ok q calls).cases
      × (owner : String → Option String) × All
          (Has owner)
          (run digest docs.case_hash docs.case_ok q calls).cases
materialized_run docs setting digest signals specs {cases} {ps} {q} calls made accepted =
    let sound =
      create-IsSound docs.case_hash docs.case_ok docs.priority_hash docs.priority_ok cases ps
        accepted in
    let new = materialize-IsNew docs setting signals specs {cases = cases} {ps = ps} made in
    let new_q : All IsNew q.cases = subst (All IsNew) (sym sound.kept) new in
    let (owner, owned) =
      materialize_exclusive docs setting signals specs {cases = cases} {ps = ps} made in
    (
      run_one_active digest docs.case_hash docs.case_ok q calls sound.unique
          (omega (arith, IsNew-total q.cases new_q)),
      run-IsProper digest docs.case_hash docs.case_ok q calls sound.unique
          (All-weaken IsNew-IsProper q.cases new_q),
      owner,
      run-keeps digest docs.case_hash docs.case_ok (λ t. All (Has owner) t.cases)
          (Move-Has digest docs.case_hash docs.case_ok owner) q calls sound.unique
          (subst (All (Has owner)) (sym sound.kept) owned),
    )
