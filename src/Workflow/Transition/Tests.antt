-- ===== src/Workflow/Transition/Tests.antt =====
-- Runs of the workflow that can be followed in workflow/state_machine.py.
use trusted_ceo_agent.Prelude.{
  ◌↔◌, true, false, none, some, List, [], ◌∷◌, ◌≡◌, refl, arith, ok, raise,
}
use trusted_ceo_agent.Workflow.States.{
  Event, Context, State, created, lens_jobs_ready, blocked, start, scan, by_event, prepare_lens,
  contract_failure, resume, pos, approve_final, finalized, cancelled, approve_diagnostic, finalize,
  writer_ready, Status-discrete, Event-discrete, is_terminal,
}
use trusted_ceo_agent.Workflow.Rules.{rules_for, first_target}
use trusted_ceo_agent.Workflow.Transition.{
  transition, run, dispatch, by_table, enter, resume_blocked, after, invalid_event,
}
use trusted_ceo_agent.Workflow.Transition.Approvals.{HadEvent, finalized_needs_approvals}
use trusted_ceo_agent.Workflow.Transition.Endings.{
  IsResumable, run-IsResumable, block_resume, unblocked,
}
use trusted_ceo_agent.Workflow.Transition.Finals.{IsAbsorbing, IsEnd, IsAbsorbing-IsEnd_iff}
use trusted_ceo_agent.Workflow.Transition.Progress.{way, plan, live_can_finalize}

abbrev plain : Context
plain = record {
  mission_confirmed = true;
  approval_valid = true;
  mapping_ambiguous = false;
  scan_passed = true;
  draft_or_fallback_valid = true;
  proposal_diff_valid = true;
  mapping_patch_valid = true;
  estimated_card_count = some (pos 4);
  scope_valid = true;
  required_tasks_accepted = true;
  barrier_and_draft_valid = true;
  issues_valid = true;
  change_scope = none;
  deep_scope_empty = some true;
  authorized_components_only = true;
  required_deep_valid = true;
  deep_result_valid = true;
  grade_and_writer_valid = true;
  fallback_valid_after_two_attempts = true;
  output_valid = true;
  all_dispositions_complete = true;
  final_validator_passed = true;
  blocker_resolved = true;
  expected_revision = some 3;
  reason = none;
  blocker = none;
}

abbrev fresh : State
fresh = record {
  status = some created;
  revision = some 3;
  resume_state = none;
  blocker = none;
  failure_reason = none;
}

abbrev blocked_run : List (Event × Context)
blocked_run =
    (start, plain) ∷ (scan, plain) ∷ (prepare_lens, plain) ∷ (contract_failure, plain) ∷ []

run_blocks : (run fresh blocked_run).status ≡ some blocked
unfolding run transition dispatch by_table enter resume_blocked after rules_for first_target
    is_terminal
run_blocks = refl

refused : transition fresh approve_final plain ≡ raise invalid_event
unfolding transition dispatch by_table enter rules_for first_target is_terminal
refused = refl

-- The whole way of a fresh run ends in `finalized`.
fresh-finalizes : (run fresh (plan (way created))).status ≡ some finalized
unfolding run transition dispatch by_table enter resume_blocked after rules_for first_target
    is_terminal Status-discrete Event-discrete
fresh-finalizes = refl

finalized_needs_approvals_example :
    HadEvent (plan (way created)) approve_diagnostic (λ c. c.approval_valid)
    × HadEvent (plan (way created)) approve_final (λ c. c.all_dispositions_complete)
    × HadEvent (plan (way created)) finalize (λ c. c.final_validator_passed)
finalized_needs_approvals_example =
    finalized_needs_approvals fresh (plan (way created)) refl fresh-finalizes

IsAbsorbing-IsEnd_iff_example : IsAbsorbing cancelled ↔ IsEnd cancelled
IsAbsorbing-IsEnd_iff_example = IsAbsorbing-IsEnd_iff cancelled

run-IsResumable_example : IsResumable (run fresh blocked_run)
run-IsResumable_example = run-IsResumable fresh blocked_run (λ at. absurd (ground arith))

-- What a contract failure makes of a run whose lens jobs are ready.
abbrev awaiting : State
awaiting = record fresh { status = some lens_jobs_ready }

abbrev halted : State
halted = record fresh {
  status = some blocked;
  resume_state = some lens_jobs_ready;
  blocker = some (by_event contract_failure);
}

contract_failure_blocks : transition awaiting contract_failure plain ≡ ok halted
unfolding transition dispatch by_table enter rules_for first_target is_terminal Status-discrete
    Event-discrete
contract_failure_blocks = refl

block_resume_example : transition halted resume plain ≡ ok (unblocked awaiting)
block_resume_example =
    block_resume awaiting halted contract_failure plain plain contract_failure_blocks refl refl refl

live_can_finalize_example :
    (run (record fresh { status = some writer_ready }) (plan (way writer_ready))).status
    ≡ some finalized
unfolding is_terminal
live_can_finalize_example = live_can_finalize writer_ready fresh refl
