-- ===== src/Grading/Grader/Coverage.antt =====
-- Which inputs the decision table leaves uncovered, and what a provisional pack can reach.
use trusted_ceo_agent.Prelude.{String, false, ◌&&◌, none, ◌≡◌, ◌≢◌, ◌⊎◌, ◌↔◌, arith, ok, raise}
use trusted_ceo_agent.Grading.Inputs.{
  sufficient, none_found, affirmed, denied, unknown, required, boundary, accepted, standalone,
  GradingInput, GradeBody,
}
use trusted_ceo_agent.Grading.Grader.{
  validate, decide_grade, decide_measured, not_measured, withheld_reason, grade, rule_uncovered,
  is_secondary, is_denied, GradingError,
}

-- The combinations of materiality, evidence, decision and trackability that no rule names.
abbrev pub Unnamed : GradingInput → Type 0
Unnamed v =
    ((v.executive_materiality ≡ denied)
      × (v.issue_disposition ≡ standalone)
      × ((v.evidence_state ≡ none_found) ⊎ (v.trackable ≡ false)))
    ⊎ ((v.executive_materiality ≡ affirmed)
        × (v.diagnostic_disposition ≡ accepted)
        × (v.evidence_state ≡ none_found))
    ⊎ ((v.executive_materiality ≡ affirmed)
        × (v.diagnostic_disposition ≡ accepted)
        × (v.evidence_state ≡ sufficient)
        × (v.decision_needed ≡ denied)
        × (v.trackable ≡ false))

pub record IsUncovered (v : GradingInput) : Type 0 where
  pub authority : v.pack_authority ≢ boundary
  pub no_expert : v.expert_trigger_state ≢ required
  pub measured : not_measured v ≡ false
  pub unnamed : Unnamed v

decide_grade-raises :
    (v : GradingInput) (e : GradingError)
    → decide_grade v ≡ raise e
    → (v.pack_authority ≢ boundary)
      × (v.expert_trigger_state ≢ required)
      × (not_measured v ≡ false)
      × ((is_secondary v.issue_disposition && is_denied v.executive_materiality) ≡ false)
      × (decide_measured v ≡ raise e)
unfolding decide_grade
decide_grade-raises v e h = ground arith

decide_measured-raises :
    (v : GradingInput) (e : GradingError)
    → decide_measured v ≡ raise e
    → v.executive_materiality ≢ unknown
    → (is_secondary v.issue_disposition && is_denied v.executive_materiality) ≡ false
    → validate v ≡ ok tt
    → withheld_reason v ≡ none
    → Unnamed v
unfolding decide_measured validate withheld_reason
decide_measured-raises v e h known own valid open_ = ground arith

valid-known :
    (v : GradingInput)
    → validate v ≡ ok tt
    → (v.diagnostic_disposition ≢ accepted) ⊎ (v.decision_needed ≢ unknown)
unfolding validate
valid-known v h = ground arith

Unnamed-raises :
    (v : GradingInput)
    → Unnamed v
    → (v.diagnostic_disposition ≢ accepted) ⊎ (v.decision_needed ≢ unknown)
    → decide_measured v ≡ raise rule_uncovered
unfolding decide_measured
Unnamed-raises v u known = ground arith

Unnamed-primary :
    (v : GradingInput)
    → Unnamed v
    → (is_secondary v.issue_disposition && is_denied v.executive_materiality) ≡ false
Unnamed-primary v u = ground arith

IsUncovered-raises :
    (v : GradingInput) → IsUncovered v → validate v ≡ ok tt → decide_grade v ≡ raise rule_uncovered
unfolding decide_grade
IsUncovered-raises v u valid =
    let rest : decide_measured v ≡ raise rule_uncovered =
      Unnamed-raises v u.unnamed (valid-known v valid) in
    ground (arith, rest, Unnamed-primary v u.unnamed)

known_material : (v : GradingInput) → not_measured v ≡ false → v.executive_materiality ≢ unknown
known_material v h = ground arith

module _ (input_hash : GradingInput → String) (body_hash : GradeBody → String) where
  grade_raises :
      (v : GradingInput) (rule_version computed_at : String)
      → grade input_hash body_hash v rule_version computed_at ≡ raise rule_uncovered
      → (validate v ≡ ok tt) × (withheld_reason v ≡ none) × (decide_grade v ≡ raise rule_uncovered)
  unfolding grade validate
  grade_raises v rule_version computed_at h = ground arith

  -- `grade` raises `GradeRuleUncovered` exactly on the valid inputs that no disposition withholds,
  -- whose pack is no boundary, that need no expert review and are measured, and whose
  -- materiality, evidence, decision and trackability are one of the three unnamed combinations:
  -- a denied standalone issue with no evidence or no tracking, an affirmed and accepted one with no
  -- evidence, or an affirmed and accepted one with sufficient evidence that needs no decision and is not tracked.
  pub grade-IsUncovered_iff :
      (v : GradingInput) (rule_version computed_at : String)
      → (grade input_hash body_hash v rule_version computed_at ≡ raise rule_uncovered)
        ↔ ((validate v ≡ ok tt) × (withheld_reason v ≡ none) × IsUncovered v)
  unfolding grade
  grade-IsUncovered_iff v rule_version computed_at = (only_if, if_so)
    where
      only_if :
          grade input_hash body_hash v rule_version computed_at ≡ raise rule_uncovered
          → (validate v ≡ ok tt) × (withheld_reason v ≡ none) × IsUncovered v
      only_if h =
          let (valid, open_, raised) = grade_raises v rule_version computed_at h in
          let (inside, own, measured, primary, rest) =
            decide_grade-raises v rule_uncovered raised in
          let shape =
            decide_measured-raises v rule_uncovered rest (known_material v measured) primary valid
              open_ in
          (
            valid,
            open_,
            record { authority = inside; no_expert = own; measured = measured; unnamed = shape },
          )

      if_so :
          (validate v ≡ ok tt) × (withheld_reason v ≡ none) × IsUncovered v
          → grade input_hash body_hash v rule_version computed_at ≡ raise rule_uncovered
      if_so (valid, open_, u) = rw (valid, open_, IsUncovered-raises v u valid)
