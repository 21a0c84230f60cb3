-- ===== src/Grading/Grader/Decisions.antt =====
-- What `grade` publishes, withholds and refuses.
use trusted_ceo_agent.Prelude.{
  String, false, none, some, [], ◌∷◌, ◌≡◌, ◌≢◌, ◌⊎◌, ◌↔◌, refl, arith, inl, inr, ok,
}
use trusted_ceo_agent.Grading.Inputs.{
  assessable, sufficient, unknown_impact, unknown_urgency, affirmed, required, provisional,
  boundary, full, accepted, GradingInput, GradeBody, GradeRecord, decision_required,
}
use trusted_ceo_agent.Grading.Grader.{
  validate, decide_measured, decide_grade, not_measured, withheld_reason, grade, published_record,
  withheld_record, record_of, Verdict,
}

-- The conditions for `Decision Required`, as one record.
pub record NeedsDecision (v : GradingInput) : Type 0 where
  pub full_authority : v.pack_authority ≡ full
  pub no_expert : v.expert_trigger_state ≢ required
  pub measured : v.assessability ≡ assessable
  pub impact : v.impact_band ≢ unknown_impact
  pub urgency : v.urgency_band ≢ unknown_urgency
  pub evidence : v.evidence_state ≡ sufficient
  pub material : v.executive_materiality ≡ affirmed
  pub needed : v.decision_needed ≡ affirmed
  pub agreed : v.diagnostic_disposition ≡ accepted

decide_measured-decision :
    (v : GradingInput) {d : Verdict}
    → decide_measured v ≡ ok d
    → d.primary ≡ decision_required
    → (v.pack_authority ≢ provisional)
      × (v.evidence_state ≡ sufficient)
      × (v.executive_materiality ≡ affirmed)
      × (v.decision_needed ≡ affirmed)
      × (v.diagnostic_disposition ≡ accepted)
unfolding decide_measured
decide_measured-decision v e p = ground arith

decide_grade-measured :
    (v : GradingInput) {d : Verdict}
    → decide_grade v ≡ ok d
    → d.primary ≡ decision_required
    → (v.pack_authority ≢ boundary)
      × (v.expert_trigger_state ≢ required)
      × (not_measured v ≡ false)
      × (decide_measured v ≡ ok d)
unfolding decide_grade
decide_grade-measured v e p = ground arith

decide_grade-decision :
    (v : GradingInput) {d : Verdict}
    → decide_grade v ≡ ok d
    → d.primary ≡ decision_required
    → NeedsDecision v
decide_grade-decision v e p =
    let (inside, own, measured, rest) = decide_grade-measured v e p in
    let (uncapped, evidence, material, needed, agreed) = decide_measured-decision v rest p in
    ground arith

abbrev decision_verdict : Verdict
decision_verdict = record {
  primary = decision_required;
  secondary = [];
  reasons = "decision_evidence_sufficient" ∷ [];
  capped = false;
}

decision-decide_grade :
    (v : GradingInput)
    → NeedsDecision v
    → (decide_grade v ≡ ok decision_verdict) × (validate v ≡ ok tt) × (withheld_reason v ≡ none)
unfolding decide_grade decide_measured validate withheld_reason
decision-decide_grade v n = ground arith

module _ (input_hash : GradingInput → String) (body_hash : GradeBody → String) where
  grade_parts :
      (v : GradingInput) (rule_version computed_at : String) {r : GradeRecord}
      → grade input_hash body_hash v rule_version computed_at ≡ ok r
      → ((reason : String) × (withheld_reason v ≡ some reason)
          × (r ≡ withheld_record input_hash body_hash v reason rule_version computed_at))
        ⊎ ((d : Verdict) × (withheld_reason v ≡ none)
            × (decide_grade v ≡ ok d)
            × (r ≡ published_record input_hash body_hash v d rule_version computed_at))
  unfolding grade
  grade_parts v rule_version computed_at e = ground arith

  -- `grade` answers with `Decision Required` exactly when the pack has full authority, no expert
  -- review is required, the issue is assessable with known impact and urgency, the evidence is
  -- sufficient, materiality and need for a decision are affirmed, and the diagnosis is accepted.
  pub grade_decision_iff :
      (v : GradingInput) (rule_version computed_at : String)
      → ((r : GradeRecord) × (grade input_hash body_hash v rule_version computed_at ≡ ok r)
          × (r.primary_grade ≡ some decision_required))
        ↔ NeedsDecision v
  unfolding grade published_record withheld_record record_of
  grade_decision_iff v rule_version computed_at = (only_if, if_so)
    where
      only_if :
          ((r : GradeRecord) × (grade input_hash body_hash v rule_version computed_at ≡ ok r)
            × (r.primary_grade ≡ some decision_required))
          → NeedsDecision v
      only_if (r, e, p) = elim (grade_parts v rule_version computed_at e) [
        | inl (reason, why, same) ↦ absurd (ground arith)
        | inr (d, why, decided, same) ↦ decide_grade-decision v decided (ground arith)
      ]

      if_so :
          NeedsDecision v
          → (r : GradeRecord) × (grade input_hash body_hash v rule_version computed_at ≡ ok r)
            × (r.primary_grade ≡ some decision_required)
      if_so n =
          let (decided, valid, open_) = decision-decide_grade v n in
          (
            published_record input_hash body_hash v decision_verdict rule_version computed_at,
            rw (valid, open_, decided),
            refl,
          )
