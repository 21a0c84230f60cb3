-- ===== src/Workflow/Transition/Approvals.antt =====
-- The human gates of a run: what every finalized run has gone through.
use mathlib.Core.List.{Memᴰ}
use trusted_ceo_agent.Prelude.{Bool, true, false, some, List, ◌≡◌, refl, arith}
use trusted_ceo_agent.Workflow.States.{
  Status, Event, Context, State, created, deep_dive_authorized, deep_dive_jobs_ready,
  deep_dive_ready, finalization_jobs_ready, writer_ready, final_approval_required,
  delivery_approved, finalized, approve_diagnostic, approve_final, finalize,
}
use trusted_ceo_agent.Workflow.Transition.{run}
use trusted_ceo_agent.Workflow.Transition.Gates.{IsGuarded, effective, run-gate}

-- The statuses behind the diagnostic approval.
abbrev diagnosed : Status → Bool
diagnosed deep_dive_authorized = true
diagnosed deep_dive_jobs_ready = true
diagnosed deep_dive_ready = true
diagnosed finalization_jobs_ready = true
diagnosed writer_ready = true
diagnosed final_approval_required = true
diagnosed delivery_approved = true
diagnosed finalized = true
diagnosed _ = false

-- The statuses behind the final approval.
abbrev delivered : Status → Bool
delivered delivery_approved = true
delivered finalized = true
delivered _ = false

abbrev done : Status → Bool
done finalized = true
done _ = false

diagnosed-IsGuarded : IsGuarded diagnosed approve_diagnostic (λ c. c.approval_valid)
diagnosed-IsGuarded = record {
  entries = ground arith;
  not_blocked = refl;
  not_failed = refl;
  not_cancelled = refl;
  not_stopped = refl;
}

delivered-IsGuarded : IsGuarded delivered approve_final (λ c. c.all_dispositions_complete)
delivered-IsGuarded = record {
  entries = ground arith;
  not_blocked = refl;
  not_failed = refl;
  not_cancelled = refl;
  not_stopped = refl;
}

done-IsGuarded : IsGuarded done finalize (λ c. c.final_validator_passed)
done-IsGuarded = record {
  entries = ground arith;
  not_blocked = refl;
  not_failed = refl;
  not_cancelled = refl;
  not_stopped = refl;
}

abbrev pub HadEvent : List (Event × Context) → Event → (Context → Bool) → Type 0
HadEvent es event asks = (c : Context) × Memᴰ (event, c) es × (asks c ≡ true)

-- A run that begins in `created` and ends in `finalized` was given `approve_diagnostic` with a
-- valid approval, `approve_final` with every disposition complete, and `finalize` with the final
-- validator passed. Events that the workflow refused may stand between them.
pub finalized_needs_approvals :
    (s : State) (es : List (Event × Context))
    → s.status ≡ some created
    → (run s es).status ≡ some finalized
    → HadEvent es approve_diagnostic (λ c. c.approval_valid)
      × HadEvent es approve_final (λ c. c.all_dispositions_complete)
      × HadEvent es finalize (λ c. c.final_validator_passed)
finalized_needs_approvals s es begins ends =
    let at_start : effective s ≡ some created = rw begins in
    let at_end : effective (run s es) ≡ some finalized = rw ends in
    (
      run-gate diagnosed approve_diagnostic _ s es diagnosed-IsGuarded (rw at_start) (rw at_end),
      run-gate delivered approve_final _ s es delivered-IsGuarded (rw at_start) (rw at_end),
      run-gate done finalize _ s es done-IsGuarded (rw at_start) (rw at_end),
    )
