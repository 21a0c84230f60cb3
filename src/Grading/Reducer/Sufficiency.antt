-- ===== src/Grading/Reducer/Sufficiency.antt =====
-- When the reduced evidence is sufficient, and what a grade of reduced facts rests on.
use trusted_ceo_agent.Prelude.{
  ℕ, ◌≤◌, String, Bool, true, false, not, Option, some, List, [], ◌∷◌, ◌≡◌, ◌↔◌, refl, arith, any,
  filter, is_nil, is_empty_text, ok,
}
use trusted_ceo_agent.Grading.Inputs.{
  sufficient, PackAuthority, GradingInput, GradeBody, GradeRecord, decision_required,
}
use trusted_ceo_agent.Grading.Reducer.{
  determine_evidence_state, derive_grading_input, Issue, Capability, Evidence, Diagnostic, state_of,
  or_else,
}
use trusted_ceo_agent.Grading.Grader.{grade}
use trusted_ceo_agent.Grading.Grader.Decisions.{grade_decision_iff}

pub record IsSupported (groups : List String) (minimum valid : ℕ) : Type 0 where
  pub some_group : any (λ g. not (is_empty_text g)) groups ≡ true
  pub enough : minimum ≤ valid

is_nil-filter : (p : String → Bool) (xs : List String) → is_nil (filter p xs) ≡ not (any p xs)
is_nil-filter p [] = refl
is_nil-filter p (x ∷ xs) = ground (arith, is_nil-filter p xs)

-- The evidence is sufficient exactly when some support group has a name, no contradiction blocks,
-- the valid independent chains reach the minimum, and roles, counter check and distinguishing
-- test are all met.
pub sufficient_iff :
    (groups : List String) (blocking : Bool) (minimum valid : ℕ)
    (roles counter distinguishing : Bool)
    → (determine_evidence_state groups blocking minimum valid roles counter distinguishing
        ≡ sufficient)
      ↔ (IsSupported groups minimum valid
          × (blocking ≡ false)
          × (roles ≡ true)
          × (counter ≡ true)
          × (distinguishing ≡ true))
unfolding determine_evidence_state
sufficient_iff groups blocking minimum valid roles counter distinguishing = (
  λ h. ground (arith, is_nil-filter (λ g. not (is_empty_text g)) groups),
  λ h. ground (arith, is_nil-filter (λ g. not (is_empty_text g)) groups),
)

-- What the runtime's evidence says where it supports a decision.
pub record SupportsDecision (e : Evidence) : Type 0 where
  pub supported :
      IsSupported
        (or_else e.support_independence_groups [])
        (or_else e.minimum_independent_chains 1)
        (or_else e.valid_independent_chain_count 0)
  pub uncontradicted : or_else e.blocking_unresolved_contradiction false ≡ false
  pub roles : e.required_roles_met ≡ some true
  pub counter : e.counter_check_met ≡ some true
  pub distinguishing : e.distinguishing_test_met ≡ some true

or_else-true : (o : Option Bool) → or_else o false ≡ true → o ≡ some true
or_else-true o h = ground arith

derive-state :
    (i : Issue) (c : Capability) (e : Evidence) (a : PackAuthority) (d : Diagnostic)
    {v : GradingInput}
    → derive_grading_input i c e a d ≡ ok v
    → v.evidence_state ≡ state_of e
unfolding derive_grading_input
derive-state i c e a d h = ground arith

module _ (input_hash : GradingInput → String) (body_hash : GradeBody → String) where
  -- Where the reduced facts of an issue are graded `Decision Required`, the runtime's evidence has
  -- a named support group, as many independent chains as asked (one, if nothing is asked), no
  -- blocking contradiction, and says itself that roles, counter check and distinguishing test
  -- are met: a missing entry never counts as met.
  pub derived_decision_needs_evidence :
      (i : Issue) (c : Capability) (e : Evidence) (a : PackAuthority) (d : Diagnostic)
      (rule_version computed_at : String) {v : GradingInput} {r : GradeRecord}
      → derive_grading_input i c e a d ≡ ok v
      → grade input_hash body_hash v rule_version computed_at ≡ ok r
      → r.primary_grade ≡ some decision_required
      → SupportsDecision e
  unfolding determine_evidence_state
  derived_decision_needs_evidence i c e a d rule_version computed_at {v} {r} derived graded p =
      let needs =
        (grade_decision_iff input_hash body_hash v rule_version computed_at).0 (r, graded, p) in
      let enough : state_of e ≡ sufficient =
        ground (arith, derive-state i c e a d derived, needs.evidence) in
      let (s, b, ro, co, di) = (sufficient_iff _ _ _ _ _ _ _).0 enough in
      record {
        supported = s;
        uncontradicted = b;
        roles = or_else-true e.required_roles_met ro;
        counter = or_else-true e.counter_check_met co;
        distinguishing = or_else-true e.distinguishing_test_met di;
      }
