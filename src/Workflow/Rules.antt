-- ===== src/Workflow/Rules.antt =====
-- workflow/state_machine.py: `TABLE`, the rules of each status and event, in the source's order.
use trusted_ceo_agent.Prelude.{
  Bool, true, false, ◌&&◌, not, Option, none, some, List, [], ◌∷◌, leb, if◌then◌else◌,
}
use mathlib.Core.Logic.{ite}
use trusted_ceo_agent.Workflow.States.{
  Status, Status-discrete, Event, Event-discrete, Context, ChangeScope, ℤ, pos, negsuc, created,
  context_confirmation_required, context_ready, schema_mapping_job_ready, mapping_proposal_ready,
  data_confirmation_required, evidence_ready, scope_narrowing_required, lens_jobs_ready, lens_ready,
  integrated_draft, diagnostic_approval_required, deep_dive_authorized, deep_dive_jobs_ready,
  deep_dive_ready, finalization_jobs_ready, writer_ready, final_approval_required,
  delivery_approved, finalized, blocked, stopped_by_human, start, approve_context, reject_context,
  scan, ingest_schema_mapping, request_data_approval, approve_data, request_data_changes,
  prepare_lens, approve_scope, reject_scope, reduce_lens, contract_failure, ingest_integrated,
  request_diagnostic_approval, request_diagnostic_changes, approve_diagnostic, reject_run,
  run_deep_components, ingest_deep_result, deep_failure, prepare_finalization, ingest_writer,
  writer_fallback, request_final_approval, request_final_changes, approve_final, finalize,
  data_scope, scan_scope, reasoning_scope, deep_scope, wording_scope, routing_scope,
}

pub record Rule : Type 0 where
  pub guard : Context → Bool
  pub target : Status

pub record Entry : Type 0 where
  pub source : Status
  pub event : Event
  pub rules : List Rule

abbrev rule : (Context → Bool) → Status → Rule
rule guard target = record { guard = guard; target = target }

abbrev entry : Status → Event → List Rule → Entry
entry source event rules = record { source = source; event = event; rules = rules }

abbrev always : Context → Bool
always c = true

abbrev at_most_six : ℤ → Bool
at_most_six (pos n) = leb n 6
at_most_six (negsuc n) = true

abbrev card_count_fits : Context → Bool
card_count_fits c = elim c.estimated_card_count [ none ↦ false | some n ↦ at_most_six n ]

abbrev card_count_exceeds : Context → Bool
card_count_exceeds c = elim c.estimated_card_count [ none ↦ false | some n ↦ not (at_most_six n) ]

abbrev change_in : (ChangeScope → Bool) → Context → Bool
change_in p c = elim c.change_scope [ none ↦ false | some s ↦ p s ]

abbrev data_or_scan : ChangeScope → Bool
data_or_scan data_scope = true
data_or_scan scan_scope = true
data_or_scan _ = false

abbrev is_reasoning : ChangeScope → Bool
is_reasoning reasoning_scope = true
is_reasoning _ = false

abbrev is_deep : ChangeScope → Bool
is_deep deep_scope = true
is_deep _ = false

abbrev wording_or_routing : ChangeScope → Bool
wording_or_routing wording_scope = true
wording_or_routing routing_scope = true
wording_or_routing _ = false

abbrev scope_empty_is : Bool → Context → Bool
scope_empty_is true c = elim c.deep_scope_empty [ some true ↦ true | _ ↦ false ]
scope_empty_is false c = elim c.deep_scope_empty [ some false ↦ true | _ ↦ false ]

abbrev pub table : List Entry
table =
    entry created start (
      rule (λ c. c.mission_confirmed) context_ready
      ∷ rule always context_confirmation_required
      ∷ [])
    ∷ entry context_confirmation_required approve_context
        (rule (λ c. c.approval_valid) context_ready ∷ [])
    ∷ entry context_confirmation_required reject_context (rule always stopped_by_human ∷ [])
    ∷ entry context_ready scan (
        rule (λ c. c.mapping_ambiguous) schema_mapping_job_ready
        ∷ rule (λ c. c.scan_passed) evidence_ready
        ∷ [])
    ∷ entry schema_mapping_job_ready ingest_schema_mapping
        (rule (λ c. c.draft_or_fallback_valid) mapping_proposal_ready ∷ [])
    ∷ entry mapping_proposal_ready request_data_approval
        (rule (λ c. c.proposal_diff_valid) data_confirmation_required ∷ [])
    ∷ entry data_confirmation_required approve_data
        (rule (λ c. c.mapping_patch_valid) evidence_ready ∷ [])
    ∷ entry data_confirmation_required request_data_changes
        (rule always data_confirmation_required ∷ [])
    ∷ entry evidence_ready prepare_lens (
        rule card_count_fits lens_jobs_ready
        ∷ rule card_count_exceeds scope_narrowing_required
        ∷ [])
    ∷ entry scope_narrowing_required approve_scope (rule (λ c. c.scope_valid) evidence_ready ∷ [])
    ∷ entry scope_narrowing_required reject_scope (rule always stopped_by_human ∷ [])
    ∷ entry lens_jobs_ready reduce_lens (rule (λ c. c.required_tasks_accepted) lens_ready ∷ [])
    ∷ entry lens_jobs_ready contract_failure (rule always blocked ∷ [])
    ∷ entry lens_ready ingest_integrated
        (rule (λ c. c.barrier_and_draft_valid) integrated_draft ∷ [])
    ∷ entry integrated_draft request_diagnostic_approval
        (rule (λ c. c.issues_valid) diagnostic_approval_required ∷ [])
    ∷ entry diagnostic_approval_required request_diagnostic_changes (
        rule (change_in data_or_scan) evidence_ready
        ∷ rule (change_in is_reasoning) lens_jobs_ready
        ∷ [])
    ∷ entry diagnostic_approval_required approve_diagnostic (
        rule (λ c. c.approval_valid && scope_empty_is true c) finalization_jobs_ready
        ∷ rule (λ c. c.approval_valid && scope_empty_is false c) deep_dive_authorized
        ∷ [])
    ∷ entry diagnostic_approval_required reject_run (rule always stopped_by_human ∷ [])
    ∷ entry deep_dive_authorized run_deep_components
        (rule (λ c. c.authorized_components_only) deep_dive_jobs_ready ∷ [])
    ∷ entry deep_dive_jobs_ready ingest_deep_result
        (rule (λ c. c.required_deep_valid) deep_dive_ready ∷ [])
    ∷ entry deep_dive_jobs_ready deep_failure (rule always blocked ∷ [])
    ∷ entry deep_dive_ready prepare_finalization
        (rule (λ c. c.deep_result_valid) finalization_jobs_ready ∷ [])
    ∷ entry finalization_jobs_ready ingest_writer
        (rule (λ c. c.grade_and_writer_valid) writer_ready ∷ [])
    ∷ entry finalization_jobs_ready writer_fallback
        (rule (λ c. c.fallback_valid_after_two_attempts) writer_ready ∷ [])
    ∷ entry writer_ready request_final_approval
        (rule (λ c. c.output_valid) final_approval_required ∷ [])
    ∷ entry final_approval_required request_final_changes (
        rule (change_in is_deep) deep_dive_authorized
        ∷ rule (change_in wording_or_routing) finalization_jobs_ready
        ∷ [])
    ∷ entry final_approval_required approve_final
        (rule (λ c. c.all_dispositions_complete) delivery_approved ∷ [])
    ∷ entry final_approval_required reject_run (rule always stopped_by_human ∷ [])
    ∷ entry delivery_approved finalize (rule (λ c. c.final_validator_passed) finalized ∷ [])
    ∷ []

-- `TABLE.get((current, event))`; a key that is not there gives no rules.
unfoldable pub rules_for : List Entry → Status → Event → List Rule
unfolding Status-discrete Event-discrete
rules_for [] current event = []
rules_for (e ∷ es) current event =
    ite (Status-discrete e.source current)
      (ite (Event-discrete e.event event) e.rules (rules_for es current event))
      (rules_for es current event)

-- The loop over the rules: the target of the first one whose guard holds.
unfoldable pub first_target : List Rule → Context → Option Status
first_target [] c = none
first_target (r ∷ rs) c = let rest = first_target rs c in if r.guard c then some r.target else rest
