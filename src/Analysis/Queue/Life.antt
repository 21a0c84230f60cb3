-- ===== src/Analysis/Queue/Life.antt =====
-- A queue from `SignalCaseQueue.__init__` on: what holds after any calls of its methods.
use trusted_ceo_agent.Prelude.{
  ◌≤◌, String, Bool, true, is_some, List, [], ◌∷◌, ◌≡◌, refl, sym, subst, arith, all, All,
  All-filter, All-weaken, inl, inr, ok, Bool-cases,
}
use trusted_ceo_agent.Prelude.Keyed.{total, put_by-All, get_by-All}
use trusted_ceo_agent.Analysis.Cases.{SignalCase, PriorityRecord, is_queued}
use trusted_ceo_agent.Analysis.Queue.State.{Cases, case_key, Queue, Request, stamped}
use trusted_ceo_agent.Analysis.Queue.Methods.{ranked, run}
use trusted_ceo_agent.Analysis.Queue.Moves.{
  Step, leased_to, advanced, held_up, put_back, called_off, concluded,
}
use trusted_ceo_agent.Analysis.Queue.Refinement.{Move, still, noted, changed}
use trusted_ceo_agent.Analysis.Queue.Steps.{active, Step-id}
use trusted_ceo_agent.Analysis.Queue.Invariants.{run-keeps, run_one_active}
use trusted_ceo_agent.Analysis.Queue.History.{IsLogged, run-IsLogged}
use trusted_ceo_agent.Analysis.Queue.Choice.{IsStandard, queued_cases}
use trusted_ceo_agent.Analysis.Queue.Starting.{is_paired, create}
use trusted_ceo_agent.Analysis.Queue.Created.{create-IsSound}

Step-ref :
    (cases : Cases) (c u : SignalCase)
    → Step cases c u
    → u.priority_record_ref ≡ c.priority_record_ref
Step-ref cases c u (leased_to worker at free) = refl
Step-ref cases c u (advanced stage at next range) = refl
Step-ref cases c u (held_up status reason at p) = refl
Step-ref cases c u (put_back at) = refl
Step-ref cases c u (called_off reason at) = refl
Step-ref cases c u (concluded d f reason at last k m) = refl

abbrev IsPaired : List PriorityRecord → SignalCase → Type 0
IsPaired ps c = is_paired ps c ≡ true

IsPaired-all :
    (ps : List PriorityRecord) (cs : Cases) → all (is_paired ps) cs ≡ true → All (IsPaired ps) cs
IsPaired-all ps [] h = tt
IsPaired-all ps (c ∷ cs) h = elim (Bool-cases (is_paired ps c)) [
  | inl e ↦ (e, IsPaired-all ps cs (ground arith))
  | inr e ↦ absurd (ground arith)
]

IsPaired-ranked :
    (ps : List PriorityRecord) (cs : Cases) → All (IsPaired ps) cs → is_some (ranked ps cs) ≡ true
unfolding ranked
IsPaired-ranked ps [] h = refl
IsPaired-ranked ps (c ∷ cs) h = ground (arith, IsPaired-ranked ps cs h.1, h.0)

module _ (digest : Request → String) (hash : SignalCase → String)
    (schema_ok : SignalCase → Bool) where
  -- The priority records stay, and each case keeps its own.
  abbrev Keeps : List PriorityRecord → Queue → Type 0
  Keeps ps q = (q.priorities ≡ ps) × All (IsPaired ps) q.cases

  Move-Keeps :
      (ps : List PriorityRecord) (q t : Queue)
      → Move digest hash schema_ok q t
      → Keeps ps q
      → Keeps ps t
  Move-Keeps ps q t still h = h
  Move-Keeps ps q t (noted key request) h = h
  Move-Keeps ps q t (changed key request j c u found step e) h =
      let own = get_by-All case_key (IsPaired ps) j q.cases h.1 found in
      let same = Step-id q.cases c u step in
      let ref = Step-ref q.cases c u step in
      (
        h.0,
        put_by-All case_key (IsPaired ps) (stamped hash schema_ok c u) q.cases h.1
            (rw (ref, same) own),
      )

  -- A queue that `__init__` makes of cases of which at most one is under investigation keeps, whatever is
  -- asked of it: at most one case is under investigation, all histories are chains that end in their
  -- cases, the priority records have the policy's vectors, and the queued cases can be ranked, so that a
  -- lease never fails for want of a priority record.
  pub created_run :
      (priority_hash : PriorityRecord → String) (priority_ok : PriorityRecord → Bool)
      (raws : List SignalCase) (records : List PriorityRecord) {q : Queue}
      (calls : List (Request × String))
      → create hash schema_ok priority_hash priority_ok raws records ≡ ok q
      → total case_key active raws ≤ 1
      → (total case_key active (run digest hash schema_ok q calls).cases ≤ 1)
        × IsLogged hash (run digest hash schema_ok q calls)
        × All IsStandard (run digest hash schema_ok q calls).priorities
        × (is_some (
              ranked
                (run digest hash schema_ok q calls).priorities
                (queued_cases (run digest hash schema_ok q calls)))
            ≡ true)
  created_run priority_hash priority_ok raws records {q} calls h few =
      let sound = create-IsSound hash schema_ok priority_hash priority_ok raws records h in
      let t = run digest hash schema_ok q calls in
      let (same, paired) : Keeps q.priorities t =
        run-keeps digest hash schema_ok (Keeps q.priorities) (Move-Keeps q.priorities) q calls
          sound.unique (refl, IsPaired-all q.priorities q.cases sound.paired) in
      (
        run_one_active digest hash schema_ok q calls sound.unique (rw sound.kept few),
        run-IsLogged digest hash schema_ok q calls sound.unique sound.logged,
        subst (All IsStandard) (sym same) sound.standard,
        rw same (
            IsPaired-ranked q.priorities (queued_cases t) (
              All-weaken (λ c. λ both. both.0) (queued_cases t)
                (All-filter (IsPaired q.priorities) (λ c. is_queued c.status) t.cases paired))),
      )
