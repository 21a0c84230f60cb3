-- ===== src/Analysis/Queue/Closing.antt =====
-- `assert_all_terminal`, the end of a queue's work.
use trusted_ceo_agent.Prelude.{
  String, Bool, true, ◌&&◌, List, [], ◌∷◌, ◌≡◌, refl, sym, subst, arith, all, All, is_some, ok,
}
use trusted_ceo_agent.Prelude.Keyed.{HasUniqueKeys, get_by-All}
use trusted_ceo_agent.Analysis.Cases.{SignalCase, is_terminal}
use trusted_ceo_agent.Analysis.Queue.State.{Cases, case_key, Queue, Request}
use trusted_ceo_agent.Analysis.Queue.Methods.{run, assert_all_terminal}
use trusted_ceo_agent.Analysis.Queue.Refinement.{Move, still, noted, changed}
use trusted_ceo_agent.Analysis.Queue.Steps.{Step-live}
use trusted_ceo_agent.Analysis.Queue.Invariants.{run-keeps}

abbrev IsEnded : SignalCase → Type 0
IsEnded c = is_terminal c.status ≡ true

all-IsEnded :
    (cs : Cases)
    → all (λ c. is_terminal c.status && is_some c.disposition) cs ≡ true
    → All IsEnded cs
all-IsEnded [] h = tt
all-IsEnded (c ∷ cs) h = (ground arith, all-IsEnded cs (ground arith))

module _ (digest : Request → String) (hash : SignalCase → String)
    (schema_ok : SignalCase → Bool) where
  Move-IsEnded :
      (q s t : Queue)
      → All IsEnded q.cases
      → Move digest hash schema_ok s t
      → (s.cases ≡ q.cases) × (s.revision ≡ q.revision)
      → (t.cases ≡ q.cases) × (t.revision ≡ q.revision)
  Move-IsEnded q s t ended still h = h
  Move-IsEnded q s t ended (noted key request) h = h
  Move-IsEnded q s t ended (changed key request id c u found step e) h =
      let over =
        get_by-All case_key IsEnded id s.cases {c = c} (subst (All IsEnded) (sym h.0) ended)
          found in
      absurd (ground (arith, Step-live s.cases c u step, over))

  -- Once `assert_all_terminal` has accepted a queue, no calls change its cases or its revision.
  pub all_terminal_stays :
      (q : Queue) (calls : List (Request × String))
      → HasUniqueKeys case_key q.cases
      → assert_all_terminal q ≡ ok tt
      → ((run digest hash schema_ok q calls).cases ≡ q.cases)
        × ((run digest hash schema_ok q calls).revision ≡ q.revision)
  unfolding assert_all_terminal
  all_terminal_stays q calls unique h =
      run-keeps digest hash schema_ok (λ t. (t.cases ≡ q.cases) × (t.revision ≡ q.revision))
        (λ s t. Move-IsEnded q s t (all-IsEnded q.cases (ground arith))) q calls unique (refl, refl)
