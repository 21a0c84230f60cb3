-- ===== src/Grading/Grader.antt =====
-- grading/grader.py: `_validate`, `_withheld` and `grade`. The canonical hash of an input and of a
-- record's body (`canonical_bytes` under SHA-256) are parameters.
pub mod Decisions
pub mod Coverage
use Prim.Native.String.{slice, ◌++◌ as append}
use trusted_ceo_agent.Prelude.{
  String, Bool, true, false, ◌&&◌, ◌||◌, not, Option, none, some, List, [], ◌∷◌, ◌++◌,
  if◌then◌else◌, is_nil, sorted_set, Outcome, ok, raise, ◌>>=◌, ◌>>◌, check,
}
use trusted_ceo_agent.Grading.Inputs.{
  Assessability, assessable, partial, not_assessable, EvidenceState, sufficient, limited,
  conflicting, none_found, ImpactBand, unknown_impact, UrgencyBand, unknown_urgency, Answer,
  affirmed, denied, unknown, ExpertTrigger, required, possible, no_trigger, PackAuthority,
  provisional, boundary, full, Disposition, accepted, rejected, disputed, pending, IssueDisposition,
  standalone, absorbed, duplicate, isolated_low, GradingInput, PrimaryGrade, not_assessable_grade,
  expert_review_required, appendix_signal, decision_required, immediate_verification, monitor,
  withheld, published, GradeBody, GradeRecord,
}

-- `InvalidGradingInput` with its message, and `GradeRuleUncovered`.
pub data GradingError : Type 0 where
  accepted_without_decision disputed_with_decision reason_missing rule_uncovered : GradingError

abbrev is_accepted : Disposition → Bool
is_accepted accepted = true
is_accepted _ = false

abbrev is_disputed : Disposition → Bool
is_disputed disputed = true
is_disputed _ = false

abbrev is_pending : Disposition → Bool
is_pending pending = true
is_pending _ = false

abbrev is_rejected : Disposition → Bool
is_rejected rejected = true
is_rejected _ = false

abbrev is_affirmed : Answer → Bool
is_affirmed affirmed = true
is_affirmed _ = false

abbrev is_denied : Answer → Bool
is_denied denied = true
is_denied _ = false

abbrev is_unknown : Answer → Bool
is_unknown unknown = true
is_unknown _ = false

-- `in {"partial", "not_assessable"}`
abbrev is_hampered : Assessability → Bool
is_hampered assessable = false
is_hampered _ = true

abbrev impact_unknown : ImpactBand → Bool
impact_unknown unknown_impact = true
impact_unknown _ = false

abbrev urgency_unknown : UrgencyBand → Bool
urgency_unknown unknown_urgency = true
urgency_unknown _ = false

abbrev is_sufficient : EvidenceState → Bool
is_sufficient sufficient = true
is_sufficient _ = false

-- `in {"limited", "conflicting"}`
abbrev is_weak : EvidenceState → Bool
is_weak limited = true
is_weak conflicting = true
is_weak _ = false

abbrev has_evidence : EvidenceState → Bool
has_evidence none_found = false
has_evidence _ = true

abbrev is_boundary : PackAuthority → Bool
is_boundary boundary = true
is_boundary _ = false

abbrev is_provisional : PackAuthority → Bool
is_provisional provisional = true
is_provisional _ = false

abbrev is_required : ExpertTrigger → Bool
is_required required = true
is_required _ = false

abbrev is_possible : ExpertTrigger → Bool
is_possible possible = true
is_possible _ = false

-- `in {"duplicate", "absorbed", "isolated_low"}`
abbrev is_secondary : IssueDisposition → Bool
is_secondary standalone = false
is_secondary _ = true

abbrev issue_disposition_text : IssueDisposition → String
issue_disposition_text standalone = "standalone"
issue_disposition_text absorbed = "absorbed"
issue_disposition_text duplicate = "duplicate"
issue_disposition_text isolated_low = "isolated_low"

abbrev not_measured : GradingInput → Bool
not_measured v =
    is_hampered v.assessability
    || (impact_unknown v.impact_band
        || (urgency_unknown v.urgency_band || is_unknown v.executive_materiality))

-- The checks of `_validate` that the types leave over.
unfoldable pub validate : GradingInput → Outcome GradingError (Unit {0})
validate v = do
  check (not (is_accepted v.diagnostic_disposition && is_unknown v.decision_needed))
      accepted_without_decision
  check (not (is_disputed v.diagnostic_disposition && not (is_unknown v.decision_needed)))
      disputed_with_decision
  check
      (not (
        not_measured v
        && (is_nil v.not_assessable_reason_codes && not (is_boundary v.pack_authority))))
      reason_missing

-- What the decision table settles: the grade, its flags and reasons, and whether the cap applied.
pub record Verdict : Type 0 where
  pub primary : PrimaryGrade
  pub secondary : List String
  pub reasons : List String
  pub capped : Bool

abbrev verdict : PrimaryGrade → List String → List String → Bool → Verdict
verdict p s r c = record { primary = p; secondary = s; reasons = r; capped = c }

-- The end of the `if`/`elif` chain of `grade`, from `evidence_state == "sufficient"` on.
unfoldable pub decide_measured : GradingInput → Outcome GradingError Verdict
decide_measured v =
    if is_sufficient v.evidence_state
      && (is_affirmed v.executive_materiality
          && (is_affirmed v.decision_needed && is_accepted v.diagnostic_disposition))
    then ok (
        if is_provisional v.pack_authority
        then verdict immediate_verification []
            ("decision_evidence_sufficient" ∷ "provisional_authority_cap" ∷ []) true
        else verdict decision_required [] ("decision_evidence_sufficient" ∷ []) false)
    else if is_affirmed v.executive_materiality
        && (is_weak v.evidence_state
            || (is_unknown v.decision_needed || is_disputed v.diagnostic_disposition))
    then ok (verdict immediate_verification [] ("verification_required" ∷ []) false)
    else if is_affirmed v.executive_materiality
        && (is_sufficient v.evidence_state
            && (is_denied v.decision_needed
                && (is_accepted v.diagnostic_disposition && v.trackable)))
    then ok (verdict monitor ("delegated_owner_action" ∷ []) ("trackable_owner_action" ∷ []) false)
    else if is_denied v.executive_materiality && (has_evidence v.evidence_state && v.trackable)
    then ok (verdict monitor [] ("low_materiality_trackable" ∷ []) false)
    else raise rule_uncovered

-- The `if`/`elif` chain of `grade`, in its order.
unfoldable pub decide_grade : GradingInput → Outcome GradingError Verdict
decide_grade v =
    if is_boundary v.pack_authority
    then ok (verdict not_assessable_grade [] ("unsupported_domain" ∷ []) false)
    else if is_required v.expert_trigger_state
    then ok (
        verdict expert_review_required
          (if is_affirmed v.executive_materiality && is_affirmed v.decision_needed
            then "executive_decision_after_expert_review" ∷ []
            else [])
          ("expert_trigger_required" ∷ []) false)
    else if not_measured v
    then ok (verdict not_assessable_grade [] v.not_assessable_reason_codes false)
    else if is_secondary v.issue_disposition && is_denied v.executive_materiality
    then ok (verdict appendix_signal [] (issue_disposition_text v.issue_disposition ∷ []) false)
    else decide_measured v

-- Which reason withholds the grade, if one does.
unfoldable pub withheld_reason : GradingInput → Option String
withheld_reason v =
    if is_pending v.diagnostic_disposition
    then some "pending"
    else if is_rejected v.diagnostic_disposition
    then some "rejected"
    else if is_disputed v.diagnostic_disposition && not v.verification_authorized
    then some "unapproved_dispute"
    else none

module _ (input_hash : GradingInput → String) (body_hash : GradeBody → String) where
  -- `_record_id`
  unfoldable pub record_of : GradeBody → GradeRecord
  record_of b = record { body = b; grade_record_id = append "grade_" (slice (body_hash b) 0 24) }

  unfoldable pub withheld_record : GradingInput → String → String → String → GradeRecord
  withheld_record v reason rule_version computed_at = record_of (record {
    issue_id = v.issue_id;
    publication_status = withheld;
    rule_version = rule_version;
    grading_input_hash = input_hash v;
    input_snapshot_hash = input_hash v;
    primary_grade = none;
    secondary_flags = [];
    reason_codes = reason ∷ [];
    applied_threshold_refs = [];
    applied_mission_refs = [];
    applied_approval_refs = [];
    authority_cap_applied = false;
    computed_at = computed_at;
  })

  unfoldable pub published_record : GradingInput → Verdict → String → String → GradeRecord
  published_record v d rule_version computed_at = record_of (record {
    issue_id = v.issue_id;
    publication_status = published;
    rule_version = rule_version;
    grading_input_hash = input_hash v;
    input_snapshot_hash = input_hash v;
    primary_grade = some d.primary;
    secondary_flags = sorted_set (
        d.secondary
        ++ (if is_possible v.expert_trigger_state then "possible_expert_review" ∷ [] else []));
    reason_codes = sorted_set d.reasons;
    applied_threshold_refs = [];
    applied_mission_refs = [];
    applied_approval_refs = [];
    authority_cap_applied = d.capped;
    computed_at = computed_at;
  })

  unfoldable pub grade : GradingInput → String → String → Outcome GradingError GradeRecord
  grade v rule_version computed_at = do
    validate v
    elim (withheld_reason v) [
      | some reason ↦ ok (withheld_record v reason rule_version computed_at)
      | none ↦ do d ← decide_grade v; ok (published_record v d rule_version computed_at)
    ]
