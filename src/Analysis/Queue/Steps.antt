-- ===== src/Analysis/Queue/Steps.antt =====
-- What a step keeps of a case, and what it does to the number of cases under investigation.
use trusted_ceo_agent.Prelude.{
  ℕ, ◌+◌, ◌≤◌, false, none, some, is_some, [], ◌∷◌, ◌≡◌, refl, arith, any, if◌then◌else◌,
}
use trusted_ceo_agent.Prelude.Keyed.{total}
use trusted_ceo_agent.Analysis.Cases.{
  SignalCase, is_investigating, is_terminal, has_finding, Disposition,
}
use trusted_ceo_agent.Analysis.Queue.State.{Cases, case_key, Queue}
use trusted_ceo_agent.Analysis.Queue.Moves.{
  Step, leased_to, advanced, held_up, put_back, called_off, concluded,
}

-- A step keeps the case's identity, and starts from a case that is not terminal.
pub Step-id : (cases : Cases) (c u : SignalCase) → Step cases c u → u.case_id ≡ c.case_id
Step-id cases c u (leased_to worker at free) = refl
Step-id cases c u (advanced stage at next range) = refl
Step-id cases c u (held_up status reason at p) = refl
Step-id cases c u (put_back at) = refl
Step-id cases c u (called_off reason at) = refl
Step-id cases c u (concluded d f reason at last k m) = refl

pub Step-live : (cases : Cases) (c u : SignalCase) → Step cases c u → is_terminal c.status ≡ false
Step-live cases c u (leased_to worker at free) = ground arith
Step-live cases c u (advanced stage at next range) = ground arith
Step-live cases c u (held_up status reason at p) = ground arith
Step-live cases c u (put_back at) = ground arith
Step-live cases c u (called_off reason at) = at
Step-live cases c u (concluded d f reason at last k m) = ground arith

-- A case that is under investigation has an owner and no other has one; a terminal case has a
-- disposition, which no other has, and a finding exactly where the disposition calls for one.
pub record IsProper (c : SignalCase) : Type 0 where
  pub owned : is_some c.lease_owner ≡ is_investigating c.status
  pub disposed : is_some c.disposition ≡ is_terminal c.status
  pub found : (d : Disposition) → c.disposition ≡ some d → is_some c.finding_ref ≡ has_finding d
  pub unfound : is_terminal c.status ≡ false → c.finding_ref ≡ none

pub Step-IsProper : (cases : Cases) (c u : SignalCase) → Step cases c u → IsProper c → IsProper u
Step-IsProper cases c u (leased_to worker at free) h = record {
  owned = refl;
  disposed = ground (arith, h.disposed);
  found = λ d e. h.found d e;
  unfound = λ e. h.unfound (ground arith);
}
Step-IsProper cases c u (advanced stage at next range) h = record {
  owned = h.owned;
  disposed = h.disposed;
  found = λ d e. h.found d e;
  unfound = λ e. h.unfound e;
}
Step-IsProper cases c u (held_up status reason at p) h = record {
  owned = ground arith;
  disposed = ground (arith, h.disposed);
  found = λ d e. h.found d e;
  unfound = λ e. h.unfound (ground arith);
}
Step-IsProper cases c u (put_back at) h = record {
  owned = refl;
  disposed = ground (arith, h.disposed);
  found = λ d e. h.found d e;
  unfound = λ e. h.unfound (ground arith);
}
Step-IsProper cases c u (called_off reason at) h = record {
  owned = refl;
  disposed = refl;
  found = λ d e. ground arith;
  unfound = λ e. absurd (ground arith);
}
Step-IsProper cases c u (concluded d f reason at last k m) h = record {
  owned = refl;
  disposed = refl;
  found = λ e p. ground arith;
  unfound = λ e. absurd (ground arith);
}

-- The cases under investigation.
abbrev pub active : SignalCase → ℕ
active c = if is_investigating c.status then 1 else 0

-- The cases' own revisions.
abbrev pub revisions : Queue → ℕ
revisions q = total case_key (λ c. c.case_revision) q.cases

pub none_active :
    (cases : Cases)
    → any (λ c. is_investigating c.status) cases ≡ false
    → total case_key active cases ≡ 0
none_active [] h = refl
none_active (c ∷ cases) h = ground (arith, none_active cases)

pub Step-active :
    (cases : Cases) (c u : SignalCase)
    → Step cases c u
    → total case_key active cases ≤ 1
    → total case_key active cases + active u ≤ 1 + active c
Step-active cases c u (leased_to worker at free) h = ground (arith, none_active cases)
Step-active cases c u (advanced stage at next range) h = ground arith
Step-active cases c u (held_up status reason at p) h = ground arith
Step-active cases c u (put_back at) h = ground arith
Step-active cases c u (called_off reason at) h = ground arith
Step-active cases c u (concluded d f reason at last k m) h = ground arith
