-- ===== src/Grading/Reducer.antt =====
-- grading/reducer.py: the evidence state, and the grading input reduced from runtime facts.
pub mod Sufficiency
use trusted_ceo_agent.Prelude.{
  ℕ, String, Bool, true, false, ◌&&◌, ◌||◌, not, Option, none, some, List, [], ◌∷◌, ltb,
  if◌then◌else◌, filter, is_nil, is_empty_text, sorted_set, Outcome, ok, raise,
}
use trusted_ceo_agent.Grading.Inputs.{
  Assessability, EvidenceState, sufficient, limited, conflicting, none_found, ImpactBand,
  unknown_impact, UrgencyBand, unknown_urgency, Answer, unknown, ExpertTrigger, no_trigger,
  PackAuthority, Disposition, pending, IssueDisposition, standalone, ResponseEligibility,
  prohibited, GradingInput,
}

-- The counts are the `int(...)` of the source; both are counts of chains, so not negative here.
unfoldable pub determine_evidence_state :
    List String → Bool → ℕ → ℕ → Bool → Bool → Bool → EvidenceState
determine_evidence_state groups blocking minimum valid roles counter distinguishing =
    if is_nil (filter (λ g. not (is_empty_text g)) groups)
    then none_found
    else if blocking
    then conflicting
    else if ltb valid minimum
    then limited
    else if not (roles && (counter && distinguishing))
    then limited
    else sufficient

abbrev pub or_else {ℓ} : {A : Type ℓ} → Option A → A → A
or_else none d = d
or_else (some a) d = a

-- The issue; an optional field is a key that the source reads by `get` with a default.
pub record Issue : Type 0 where
  pub issue_id : String
  pub names_grade : Bool
  pub impact_band : Option ImpactBand
  pub urgency_band : Option UrgencyBand
  pub mission_priority_match : Option Bool
  pub executive_materiality : Option Answer
  pub expert_trigger_state : Option ExpertTrigger
  pub trackable : Option Bool
  pub response_eligibility : Option ResponseEligibility
  pub provenance_refs : Option (List String)

pub record Capability : Type 0 where
  pub assessability : Assessability
  pub reason_codes : Option (List String)

pub record Evidence : Type 0 where
  pub support_independence_groups : Option (List String)
  pub blocking_unresolved_contradiction : Option Bool
  pub minimum_independent_chains : Option ℕ
  pub valid_independent_chain_count : Option ℕ
  pub required_roles_met : Option Bool
  pub counter_check_met : Option Bool
  pub distinguishing_test_met : Option Bool

pub record Diagnostic : Type 0 where
  pub names_grade : Bool
  pub decision_needed : Option Answer
  pub diagnostic_disposition : Option Disposition
  pub verification_authorized : Option Bool
  pub issue_disposition : Option IssueDisposition

pub data ReducerError : Type 0 where
  grade_is_runtime_owned : ReducerError

-- The source's `bool` and `int` leave these values as they are: the fields are Booleans and numbers.
abbrev pub state_of : Evidence → EvidenceState
unfolding determine_evidence_state
state_of e =
    determine_evidence_state (or_else e.support_independence_groups [])
      (or_else e.blocking_unresolved_contradiction false) (or_else e.minimum_independent_chains 1)
      (or_else e.valid_independent_chain_count 0) (or_else e.required_roles_met false)
      (or_else e.counter_check_met false) (or_else e.distinguishing_test_met false)

-- `names_grade` is the source's test for a key `primary_grade` or `grade` (of the issue) or
-- `primary_grade` (of the diagnosis).
unfoldable pub derive_grading_input :
    Issue → Capability → Evidence → PackAuthority → Diagnostic → Outcome ReducerError GradingInput
derive_grading_input issue capability evidence authority diagnostic =
    if issue.names_grade || diagnostic.names_grade
    then raise grade_is_runtime_owned
    else ok (record {
      issue_id = issue.issue_id;
      assessability = capability.assessability;
      not_assessable_reason_codes = sorted_set (or_else capability.reason_codes []);
      evidence_state = state_of evidence;
      impact_band = or_else issue.impact_band unknown_impact;
      urgency_band = or_else issue.urgency_band unknown_urgency;
      mission_priority_match = or_else issue.mission_priority_match false;
      executive_materiality = or_else issue.executive_materiality unknown;
      decision_needed = or_else diagnostic.decision_needed unknown;
      expert_trigger_state = or_else issue.expert_trigger_state no_trigger;
      pack_authority = authority;
      diagnostic_disposition = or_else diagnostic.diagnostic_disposition pending;
      verification_authorized = or_else diagnostic.verification_authorized false;
      issue_disposition = or_else diagnostic.issue_disposition standalone;
      trackable = or_else issue.trackable false;
      response_eligibility = or_else issue.response_eligibility prohibited;
      provenance_refs = sorted_set (or_else issue.provenance_refs []);
    })
