-- ===== src/Analysis/Queue/Invariants.antt =====
-- What every history of calls keeps in the queue.
use trusted_ceo_agent.Prelude.{
  ℕ, ◌+◌, ◌≤◌, String, Bool, true, some, List, [], ◌∷◌, ◌≡◌, refl, sym, ◌∙◌, subst, arith, All, inl,
  inr, Bool-cases, str_eq, str_eq_iff,
}
use trusted_ceo_agent.Prelude.Keyed.{
  HasUniqueKeys, put_by-HasUniqueKeys, put_by-All, get_by-All, get_by-key, get_by-put_by_ne, total,
  total-put_by,
}
use trusted_ceo_agent.Analysis.Cases.{SignalCase, is_terminal}
use trusted_ceo_agent.Analysis.Queue.State.{case_key, get, put, Queue, Request, stamped}
use trusted_ceo_agent.Analysis.Queue.Methods.{call, run}
use trusted_ceo_agent.Analysis.Queue.Moves.{Step}
use trusted_ceo_agent.Analysis.Queue.Refinement.{Move, still, noted, changed, call-Move}
use trusted_ceo_agent.Analysis.Queue.Steps.{
  Step-id, Step-live, IsProper, Step-IsProper, active, revisions, Step-active,
}

module _ (digest : Request → String) (hash : SignalCase → String)
    (schema_ok : SignalCase → Bool) where
  abbrev Moves : Queue → Queue → Type 0
  Moves = Move digest hash schema_ok

  Move-HasUniqueKeys :
      (q t : Queue) → Moves q t → HasUniqueKeys case_key q.cases → HasUniqueKeys case_key t.cases
  Move-HasUniqueKeys q t still h = h
  Move-HasUniqueKeys q t (noted key request) h = h
  Move-HasUniqueKeys q t (changed key request id c u found step e) h =
      put_by-HasUniqueKeys case_key (stamped hash schema_ok c u) q.cases h

  -- What one move keeps, every history of calls keeps.
  pub run-keeps :
      (Keeps : Queue → Type 0)
      → ((q t : Queue) → Moves q t → Keeps q → Keeps t)
      → (q : Queue) (calls : List (Request × String)) → HasUniqueKeys case_key q.cases
      → Keeps q
      → Keeps (run digest hash schema_ok q calls)
  unfolding run
  run-keeps Keeps keep q [] unique h = h
  run-keeps Keeps keep q ((request, key) ∷ calls) unique h =
      let t = (call digest hash schema_ok request key q).1 in
      let move = call-Move digest hash schema_ok request key q unique in
      run-keeps Keeps keep t calls (Move-HasUniqueKeys q t move unique) (keep q t move h)

  -- The stamped case is found under the id of the case that it replaces.
  pub stamped_id :
      (q : Queue) (id : String) (c u : SignalCase)
      → get id q.cases ≡ some c
      → Step q.cases c u
      → u.case_id ≡ id
  stamped_id q id c u found step = Step-id q.cases c u step ∙ get_by-key case_key id q.cases found

  -- The sum of a measure over the cases, after a step.
  written-total :
      (f : SignalCase → ℕ) (q : Queue) (id : String) (c u : SignalCase)
      → get id q.cases ≡ some c
      → Step q.cases c u
      → total case_key f (put (stamped hash schema_ok c u) q.cases) + f c
        ≡ total case_key f q.cases + f (stamped hash schema_ok c u)
  written-total f q id c u found step =
      total-put_by case_key f (stamped hash schema_ok c u) c q.cases
        (subst (λ i. get i q.cases ≡ some c) (sym (stamped_id q id c u found step)) found)

  Move-active :
      (q t : Queue)
      → Moves q t
      → total case_key active q.cases ≤ 1
      → total case_key active t.cases ≤ 1
  Move-active q t still h = h
  Move-active q t (noted key request) h = h
  Move-active q t (changed key request id c u found step e) h =
      omega (arith, written-total active q id c u found step, Step-active q.cases c u step h)

  -- Whatever is asked of a queue in which at most one case is under investigation, at most one case is
  -- under investigation afterwards: there is one deep case at a time.
  pub run_one_active :
      (q : Queue) (calls : List (Request × String))
      → HasUniqueKeys case_key q.cases
      → total case_key active q.cases ≤ 1
      → total case_key active (run digest hash schema_ok q calls).cases ≤ 1
  run_one_active q calls unique h =
      run-keeps (λ t. total case_key active t.cases ≤ 1) Move-active q calls unique h

  stamped-IsProper : (c u : SignalCase) → IsProper u → IsProper (stamped hash schema_ok c u)
  stamped-IsProper c u h = record {
    owned = h.owned;
    disposed = h.disposed;
    found = λ d e. h.found d e;
    unfound = λ e. h.unfound e;
  }

  Move-IsProper : (q t : Queue) → Moves q t → All IsProper q.cases → All IsProper t.cases
  Move-IsProper q t still h = h
  Move-IsProper q t (noted key request) h = h
  Move-IsProper q t (changed key request id c u found step e) h =
      put_by-All case_key IsProper (stamped hash schema_ok c u) q.cases h (
        stamped-IsProper c u
          (Step-IsProper q.cases c u step (get_by-All case_key IsProper id q.cases h found)))

  -- Every history of calls keeps the cases proper: exactly the case under investigation has an owner,
  -- exactly the terminal cases have a disposition, and a case has a finding exactly where it is terminal
  -- with a disposition that calls for one.
  pub run-IsProper :
      (q : Queue) (calls : List (Request × String))
      → HasUniqueKeys case_key q.cases
      → All IsProper q.cases
      → All IsProper (run digest hash schema_ok q calls).cases
  run-IsProper q calls unique h =
      run-keeps (λ t. All IsProper t.cases) Move-IsProper q calls unique h

  Move-terminal :
      (q t : Queue) (id : String) (c : SignalCase)
      → is_terminal c.status ≡ true
      → Moves q t
      → get id q.cases ≡ some c
      → get id t.cases ≡ some c
  Move-terminal q t id c ended still h = h
  Move-terminal q t id c ended (noted key request) h = h
  Move-terminal q t id c ended (changed key request j d u found step e) h =
      elim (Bool-cases (str_eq u.case_id id)) [
        | inl same ↦
            let one : id ≡ j =
              sym ((str_eq_iff u.case_id id).0 same) ∙ stamped_id q j d u found step in
            let live = Step-live q.cases d u step in
            absurd (ground (arith, subst (λ i. get i q.cases ≡ some c) one h))
        | inr other ↦ get_by-put_by_ne case_key id (stamped hash schema_ok d u) q.cases other ∙ h
      ]

  -- A terminal case is final: no call changes it in any field.
  pub terminal_stays :
      (q : Queue) (calls : List (Request × String)) (id : String) (c : SignalCase)
      → HasUniqueKeys case_key q.cases
      → get id q.cases ≡ some c
      → is_terminal c.status ≡ true
      → get id (run digest hash schema_ok q calls).cases ≡ some c
  terminal_stays q calls id c unique found ended =
      run-keeps (λ t. get id t.cases ≡ some c) (λ s t. Move-terminal s t id c ended) q calls unique
        found

  Move-revision :
      (q t : Queue)
      → Moves q t
      → (t.revision + revisions q ≡ q.revision + revisions t) × (q.revision ≤ t.revision)
  Move-revision q t still = (refl, omega arith)
  Move-revision q t (noted key request) = (refl, omega arith)
  Move-revision q t (changed key request id c u found step e) =
      (omega (arith, written-total (λ d. d.case_revision) q id c u found step), omega arith)

  -- The queue's revision never falls, and it counts the changes: it grows by as much as the revisions
  -- of all cases together.
  pub run-revision :
      (q : Queue) (calls : List (Request × String))
      → HasUniqueKeys case_key q.cases
      → ((run digest hash schema_ok q calls).revision + revisions q
          ≡ q.revision + revisions (run digest hash schema_ok q calls))
        × (q.revision ≤ (run digest hash schema_ok q calls).revision)
  run-revision q calls unique =
      run-keeps
        (λ t. (t.revision + revisions q ≡ q.revision + revisions t) × (q.revision ≤ t.revision))
        (λ s t m h.
          let k = Move-revision s t m in (omega (arith, k.0, h.0), omega (arith, k.1, h.1)))
        q calls unique (refl, omega arith)
