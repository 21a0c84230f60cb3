-- ===== src/Workflow/Transition/Progress.antt =====
-- Every live status has a way to `finalized`.
use trusted_ceo_agent.Prelude.{true, false, ◌||◌, none, some, List, [], ◌∷◌, ◌≡◌, refl, arith, map}
use trusted_ceo_agent.Workflow.States.{
  Status, Event, Context, State, Status-discrete, Event-discrete, is_terminal, pos, created,
  context_confirmation_required, context_ready, schema_mapping_job_ready, mapping_proposal_ready,
  data_confirmation_required, evidence_ready, scope_narrowing_required, lens_jobs_ready, lens_ready,
  integrated_draft, diagnostic_approval_required, deep_dive_authorized, deep_dive_jobs_ready,
  deep_dive_ready, finalization_jobs_ready, writer_ready, final_approval_required,
  delivery_approved, finalized, blocked, failed, stopped_by_human, cancelled, start,
  approve_context, scan, ingest_schema_mapping, request_data_approval, approve_data, prepare_lens,
  approve_scope, reduce_lens, ingest_integrated, request_diagnostic_approval, approve_diagnostic,
  run_deep_components, ingest_deep_result, prepare_finalization, ingest_writer,
  request_final_approval, approve_final, finalize,
}
use trusted_ceo_agent.Workflow.Rules.{rules_for, first_target}
use trusted_ceo_agent.Workflow.Transition.{
  transition, run, dispatch, by_table, enter, after, is_blocked,
}

-- Every check passes, four cards, and a deep dive is due.
abbrev pub passing : Context
passing = record {
  mission_confirmed = true;
  approval_valid = true;
  mapping_ambiguous = false;
  scan_passed = true;
  draft_or_fallback_valid = true;
  proposal_diff_valid = true;
  mapping_patch_valid = true;
  estimated_card_count = some (pos 4);
  scope_valid = true;
  required_tasks_accepted = true;
  barrier_and_draft_valid = true;
  issues_valid = true;
  change_scope = none;
  deep_scope_empty = some false;
  authorized_components_only = true;
  required_deep_valid = true;
  deep_result_valid = true;
  grade_and_writer_valid = true;
  fallback_valid_after_two_attempts = true;
  output_valid = true;
  all_dispositions_complete = true;
  final_validator_passed = true;
  blocker_resolved = true;
  expected_revision = some 3;
  reason = none;
  blocker = none;
}

abbrev from_deep : List Event
from_deep =
    run_deep_components ∷ ingest_deep_result ∷ prepare_finalization ∷ ingest_writer
    ∷ request_final_approval ∷ approve_final ∷ finalize ∷ []

abbrev from_evidence : List Event
from_evidence =
    prepare_lens ∷ reduce_lens ∷ ingest_integrated ∷ request_diagnostic_approval
    ∷ approve_diagnostic ∷ from_deep

-- The events that lead from a status to the end; none from a terminal or a blocked one.
abbrev pub way : Status → List Event
way created = start ∷ scan ∷ from_evidence
way context_confirmation_required = approve_context ∷ scan ∷ from_evidence
way context_ready = scan ∷ from_evidence
way schema_mapping_job_ready =
    ingest_schema_mapping ∷ request_data_approval ∷ approve_data ∷ from_evidence
way mapping_proposal_ready = request_data_approval ∷ approve_data ∷ from_evidence
way data_confirmation_required = approve_data ∷ from_evidence
way evidence_ready = from_evidence
way scope_narrowing_required = approve_scope ∷ from_evidence
way lens_jobs_ready =
    reduce_lens ∷ ingest_integrated ∷ request_diagnostic_approval ∷ approve_diagnostic ∷ from_deep
way lens_ready = ingest_integrated ∷ request_diagnostic_approval ∷ approve_diagnostic ∷ from_deep
way integrated_draft = request_diagnostic_approval ∷ approve_diagnostic ∷ from_deep
way diagnostic_approval_required = approve_diagnostic ∷ from_deep
way deep_dive_authorized = from_deep
way deep_dive_jobs_ready =
    ingest_deep_result ∷ prepare_finalization ∷ ingest_writer ∷ request_final_approval
    ∷ approve_final ∷ finalize ∷ []
way deep_dive_ready =
    prepare_finalization ∷ ingest_writer ∷ request_final_approval ∷ approve_final ∷ finalize ∷ []
way finalization_jobs_ready = ingest_writer ∷ request_final_approval ∷ approve_final ∷ finalize ∷ []
way writer_ready = request_final_approval ∷ approve_final ∷ finalize ∷ []
way final_approval_required = approve_final ∷ finalize ∷ []
way delivery_approved = finalize ∷ []
way _ = []

abbrev pub plan : List Event → List (Event × Context)
plan = map (λ e. (e, passing))

-- From every status that is neither terminal nor `blocked` the events of `way`, given one by one
-- with every check passing, bring the run to `finalized`.
pub live_can_finalize :
    (st : Status) (s : State)
    → (is_terminal st || is_blocked st) ≡ false
    → (run (record s { status = some st }) (plan (way st))).status ≡ some finalized
unfolding run transition dispatch by_table enter after rules_for first_target is_terminal
    Status-discrete Event-discrete
live_can_finalize finalized s h = absurd (ground arith)
live_can_finalize failed s h = absurd (ground arith)
live_can_finalize stopped_by_human s h = absurd (ground arith)
live_can_finalize cancelled s h = absurd (ground arith)
live_can_finalize blocked s h = absurd (ground arith)
live_can_finalize _ s h = refl
