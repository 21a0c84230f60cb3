-- ===== src/Workflow/Completion/Tests.antt =====
-- A completed run that can be followed in workflow/completion.py.
use trusted_ceo_agent.Prelude.{
  ◌≢◌, ◌↔◌, String, Bool, true, false, none, some, [], ◌∷◌, ◌≡◌, refl, ok,
}
use trusted_ceo_agent.Workflow.Completion.Findings.{Coverage, Disposition, finding_valid}
use trusted_ceo_agent.Workflow.Completion.Assessing.{
  Input, Basis, Status, Semantic, Assessment, has_blockers, has_limit, limited_eligible, status_of,
  semantic_of, assessment_of, verify_completion_assessment, assess_completion,
}
use trusted_ceo_agent.Workflow.Completion.Readiness.{
  IsFinishable, HasConfirmedLimits, assess_completion-IsFinishable,
}

abbrev covered : Coverage
covered = record {
  required_procedures_complete = true;
  counter_evidence_complete = true;
  evidence_coverage_complete = none;
  evidence_complete = true;
}

-- One reviewed case, one required task and route, and a finding that waits for more data.
abbrev input : Input
input = record {
  run_id = "run_1";
  revision = 4;
  signal_cases =
      record {
        case_id = some "c1";
        disposition = Disposition.deferred;
        materiality_review_required = true;
        ended = true;
      }
      ∷ [];
  work_items = record { task_id = some "t1"; required = true; succeeded = true } ∷ [];
  domain_routes = record { route_id = some "r1"; required = true; ended = true } ∷ [];
  findings =
      record {
        finding_id = some "f1";
        disposition = Disposition.deferred;
        coverage = some covered;
        reason_codes = "later" ∷ [];
        impact_scope_refs = "s1" ∷ [];
        expert_review = none;
        limited_by_data = false;
      }
      ∷ [];
  integrity_failure_refs = [];
  contract_failure_refs = [];
  stale_revision_refs = [];
  gates = record {
    cross_finding_join_complete = true;
    cross_domain_integrator_complete = true;
    duplicate_merge_complete = true;
    conflicts_disclosed = true;
    coverage_complete = true;
    final_validator_passed = true;
    tty_final_approval_ready = true;
  };
  coverage_gaps = "" ∷ [];
  limited_basis = Basis.data_unavailable;
  user_confirmed_limitations = true;
  expert_review_refs = [];
  blind_spot_refs = [];
}

abbrev make_id : Semantic → String
make_id d = d.run_id

abbrev hash : String → Semantic → String
hash id d = id

abbrev any_assessment : Assessment → Bool
any_assessment a = true

input-assessed :
    assess_completion make_id hash any_assessment input
    ≡ ok (assessment_of make_id hash any_assessment (semantic_of input))
unfolding assess_completion verify_completion_assessment semantic_of status_of limited_eligible
    has_blockers has_limit finding_valid
input-assessed = refl

input-limited : status_of input ≡ Status.limited_completion_ready
unfolding status_of limited_eligible has_blockers has_limit finding_valid
input-limited = refl

assess_completion-IsFinishable_example :
    (status_of input ≢ Status.not_ready) ↔ (IsFinishable input × HasConfirmedLimits input)
unfolding semantic_of
assess_completion-IsFinishable_example =
    assess_completion-IsFinishable make_id hash any_assessment input input-assessed
