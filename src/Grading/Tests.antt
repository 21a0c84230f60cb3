-- ===== src/Grading/Tests.antt =====
-- Inputs of the grader and of the reducer that can be followed in grading/, and the theorems at them.
use trusted_ceo_agent.Prelude.{
  String, true, false, none, some, [], ◌∷◌, ◌≡◌, ◌↔◌, refl, ok, raise, arith,
}
use trusted_ceo_agent.Grading.Inputs.{
  GradingInput, GradeBody, GradeRecord, PackAuthority, full, provisional, assessable, sufficient,
  high, immediate, affirmed, denied, no_trigger, accepted, standalone, eligible, decision_required,
  immediate_verification,
}
use trusted_ceo_agent.Grading.Grader.{
  grade, validate, decide_grade, decide_measured, withheld_reason, record_of, published_record,
  rule_uncovered,
}
use trusted_ceo_agent.Grading.Grader.Decisions.{NeedsDecision, grade_decision_iff}
use trusted_ceo_agent.Grading.Grader.Coverage.{IsUncovered, grade-IsUncovered_iff}
use trusted_ceo_agent.Grading.Reducer.{
  Issue, Capability, Evidence, Diagnostic, derive_grading_input, determine_evidence_state,
}
use trusted_ceo_agent.Grading.Reducer.Sufficiency.{
  IsSupported, sufficient_iff, SupportsDecision, derived_decision_needs_evidence,
}

abbrev input_digest : GradingInput → String
input_digest v = v.issue_id

abbrev body_digest : GradeBody → String
body_digest b = b.issue_id

abbrev issue : Issue
issue = record {
  issue_id = "issue_1";
  names_grade = false;
  impact_band = some high;
  urgency_band = some immediate;
  mission_priority_match = some true;
  executive_materiality = some affirmed;
  expert_trigger_state = none;
  trackable = some true;
  response_eligibility = some eligible;
  provenance_refs = some ("f2" ∷ "f1" ∷ "f2" ∷ []);
}

abbrev capability : Capability
capability = record { assessability = assessable; reason_codes = none }

abbrev evidence : Evidence
evidence = record {
  support_independence_groups = some ("g1" ∷ []);
  blocking_unresolved_contradiction = none;
  minimum_independent_chains = none;
  valid_independent_chain_count = some 1;
  required_roles_met = some true;
  counter_check_met = some true;
  distinguishing_test_met = some true;
}

abbrev diagnostic : Diagnostic
diagnostic = record {
  names_grade = false;
  decision_needed = some affirmed;
  diagnostic_disposition = some accepted;
  verification_authorized = none;
  issue_disposition = none;
}

-- What the reducer makes of them.
abbrev input : PackAuthority → GradingInput
input authority = record {
  issue_id = "issue_1";
  assessability = assessable;
  not_assessable_reason_codes = [];
  evidence_state = sufficient;
  impact_band = high;
  urgency_band = immediate;
  mission_priority_match = true;
  executive_materiality = affirmed;
  decision_needed = affirmed;
  expert_trigger_state = no_trigger;
  pack_authority = authority;
  diagnostic_disposition = accepted;
  verification_authorized = false;
  issue_disposition = standalone;
  trackable = true;
  response_eligibility = eligible;
  provenance_refs = "f1" ∷ "f2" ∷ [];
}

input-derived : derive_grading_input issue capability evidence full diagnostic ≡ ok (input full)
unfolding derive_grading_input determine_evidence_state
input-derived = refl

abbrev graded : GradeRecord
graded =
    published_record input_digest body_digest (input full)
      (record {
        primary = decision_required;
        secondary = [];
        reasons = "decision_evidence_sufficient" ∷ [];
        capped = false;
      })
      "1.0.0" "1970-01-01T00:00:00Z"

input-graded :
    grade input_digest body_digest (input full) "1.0.0" "1970-01-01T00:00:00Z" ≡ ok graded
unfolding grade validate withheld_reason decide_grade decide_measured
input-graded = refl

-- The same facts under a provisional pack.
provisional_capped :
    (decide_grade (input provisional)
      ≡ ok (record {
        primary = immediate_verification;
        secondary = [];
        reasons = "decision_evidence_sufficient" ∷ "provisional_authority_cap" ∷ [];
        capped = true;
      }))
unfolding decide_grade decide_measured
provisional_capped = refl

input-NeedsDecision : NeedsDecision (input full)
input-NeedsDecision = ground arith

grade_decision_iff_example :
    ((r : GradeRecord) × (grade input_digest body_digest (input full) "1.0.0" "1970-01-01T00:00:00Z"
        ≡ ok r)
      × (r.primary_grade ≡ some decision_required))
    ↔ NeedsDecision (input full)
grade_decision_iff_example =
    grade_decision_iff input_digest body_digest (input full) "1.0.0" "1970-01-01T00:00:00Z"

-- An affirmed issue with sufficient evidence that needs no decision and is not tracked.
abbrev untracked : GradingInput
untracked = record (input full) { decision_needed = denied; trackable = false }

grade-IsUncovered_iff_example :
    (grade input_digest body_digest untracked "1.0.0" "1970-01-01T00:00:00Z" ≡ raise rule_uncovered)
    ↔ ((validate untracked ≡ ok tt) × (withheld_reason untracked ≡ none) × IsUncovered untracked)
grade-IsUncovered_iff_example =
    grade-IsUncovered_iff input_digest body_digest untracked "1.0.0" "1970-01-01T00:00:00Z"

sufficient_iff_example :
    (determine_evidence_state ("g1" ∷ []) false 1 1 true true true ≡ sufficient) ↔ (
      IsSupported ("g1" ∷ []) 1 1 × (false ≡ false) × (true ≡ true) × (true ≡ true) × (true ≡ true))
sufficient_iff_example = sufficient_iff ("g1" ∷ []) false 1 1 true true true

derived_decision_needs_evidence_example : SupportsDecision evidence
unfolding published_record record_of
derived_decision_needs_evidence_example =
    derived_decision_needs_evidence input_digest body_digest issue capability evidence full
      diagnostic "1.0.0" "1970-01-01T00:00:00Z" input-derived input-graded refl
