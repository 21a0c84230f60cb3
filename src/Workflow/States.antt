-- ===== src/Workflow/States.antt =====
-- workflow/state_machine.py: the statuses, the events, and what a guard reads of its context.
use Prim.Native.Nat.{ℕ}
use Prim.Native.String.{String}
use mathlib.Core.Bool.{Bool, true, false}
use mathlib.Core.Option.{Option}

-- `STATUSES`.
pub data Status : Type 0 where
  created context_confirmation_required context_ready schema_mapping_job_ready : Status
  mapping_proposal_ready data_confirmation_required evidence_ready : Status
  scope_narrowing_required lens_jobs_ready lens_ready integrated_draft : Status
  diagnostic_approval_required deep_dive_authorized deep_dive_jobs_ready deep_dive_ready : Status
  finalization_jobs_ready writer_ready final_approval_required delivery_approved : Status
  finalized blocked stopped_by_human failed cancelled : Status

unfoldable pub Status-discrete : Discrete Status
Status-discrete = hlevel

-- The events that the table or `transition` names; any other text is `unlisted`.
pub data Event : Type 0 where
  integrity_failure cancel stop resume start approve_context reject_context scan : Event
  ingest_schema_mapping request_data_approval approve_data request_data_changes : Event
  prepare_lens approve_scope reject_scope reduce_lens contract_failure : Event
  ingest_integrated request_diagnostic_approval request_diagnostic_changes : Event
  approve_diagnostic reject_run run_deep_components ingest_deep_result deep_failure : Event
  prepare_finalization ingest_writer writer_fallback request_final_approval : Event
  request_final_changes approve_final finalize unlisted : Event

unfoldable pub Event-discrete : Discrete Event
Event-discrete = hlevel

pub data ChangeScope : Type 0 where
  data_scope scan_scope reasoning_scope deep_scope wording_scope routing_scope : ChangeScope

-- A Python `int`; `negsuc n` is -(n + 1).
pub data ℤ : Type 0 where
  pos : ℕ → ℤ
  negsuc : ℕ → ℤ

-- A flag is `true` where the source's test `context.get(field) is True` holds. A value that is
-- missing, or of a type that its test rejects, is `none`.
pub record Context : Type 0 where
  pub mission_confirmed : Bool
  pub approval_valid : Bool
  pub mapping_ambiguous : Bool
  pub scan_passed : Bool
  pub draft_or_fallback_valid : Bool
  pub proposal_diff_valid : Bool
  pub mapping_patch_valid : Bool
  pub estimated_card_count : Option ℤ
  pub scope_valid : Bool
  pub required_tasks_accepted : Bool
  pub barrier_and_draft_valid : Bool
  pub issues_valid : Bool
  pub change_scope : Option ChangeScope
  pub deep_scope_empty : Option Bool
  pub authorized_components_only : Bool
  pub required_deep_valid : Bool
  pub deep_result_valid : Bool
  pub grade_and_writer_valid : Bool
  pub fallback_valid_after_two_attempts : Bool
  pub output_valid : Bool
  pub all_dispositions_complete : Bool
  pub final_validator_passed : Bool
  pub blocker_resolved : Bool
  pub expected_revision : Option ℕ
  pub reason : Option String
  pub blocker : Option String

-- `ctx.get("blocker", event)`.
pub data Blocker : Type 0 where
  named : String → Blocker
  by_event : Event → Blocker

-- The workflow document's fields that `transition` reads or writes; `status` and `resume_state`
-- are `none` where the document has no text of `STATUSES` there.
pub record State : Type 0 where
  pub status : Option Status
  pub revision : Option ℕ
  pub resume_state : Option Status
  pub blocker : Option Blocker
  pub failure_reason : Option String

-- `TERMINAL`.
unfoldable pub is_terminal : Status → Bool
is_terminal finalized = true
is_terminal failed = true
is_terminal stopped_by_human = true
is_terminal cancelled = true
is_terminal _ = false
