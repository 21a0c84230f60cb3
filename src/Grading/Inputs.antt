-- ===== src/Grading/Inputs.antt =====
-- grading/grader.py: the values of `ENUMS`, the grading input and the grade record.
use Prim.Native.String.{String}
use mathlib.Core.Bool.{Bool}
use mathlib.Core.List.{List}
use mathlib.Core.Option.{Option}

pub data Assessability : Type 0 where
  assessable partial not_assessable : Assessability

pub data EvidenceState : Type 0 where
  sufficient limited conflicting none_found : EvidenceState

pub data ImpactBand : Type 0 where
  critical high medium low unknown_impact : ImpactBand

pub data UrgencyBand : Type 0 where
  immediate near_term routine unknown_urgency : UrgencyBand

-- `True`, `False` or `"unknown"`. The numbers 1 and 0, which Python's membership test takes for the first
-- two, are outside the schema of the input and of this type.
pub data Answer : Type 0 where
  affirmed denied unknown : Answer

pub data ExpertTrigger : Type 0 where
  required possible no_trigger : ExpertTrigger

pub data PackAuthority : Type 0 where
  full provisional boundary : PackAuthority

pub data Disposition : Type 0 where
  accepted rejected disputed pending : Disposition

pub data IssueDisposition : Type 0 where
  standalone absorbed duplicate isolated_low : IssueDisposition

pub data ResponseEligibility : Type 0 where
  eligible needs_verification prohibited : ResponseEligibility

-- `REQUIRED`: exactly these keys.
pub record GradingInput : Type 0 where
  pub issue_id : String
  pub assessability : Assessability
  pub not_assessable_reason_codes : List String
  pub evidence_state : EvidenceState
  pub impact_band : ImpactBand
  pub urgency_band : UrgencyBand
  pub mission_priority_match : Bool
  pub executive_materiality : Answer
  pub decision_needed : Answer
  pub expert_trigger_state : ExpertTrigger
  pub pack_authority : PackAuthority
  pub diagnostic_disposition : Disposition
  pub verification_authorized : Bool
  pub issue_disposition : IssueDisposition
  pub trackable : Bool
  pub response_eligibility : ResponseEligibility
  pub provenance_refs : List String

pub data PrimaryGrade : Type 0 where
  not_assessable_grade expert_review_required appendix_signal decision_required : PrimaryGrade
  immediate_verification monitor : PrimaryGrade

pub data PublicationStatus : Type 0 where
  withheld published : PublicationStatus

-- `primary_grade` is absent from a withheld record. The two hashes, and the three lists of applied
-- references that `grade` leaves empty, are fields as in the source.
pub record GradeBody : Type 0 where
  pub issue_id : String
  pub publication_status : PublicationStatus
  pub rule_version : String
  pub grading_input_hash : String
  pub input_snapshot_hash : String
  pub primary_grade : Option PrimaryGrade
  pub secondary_flags : List String
  pub reason_codes : List String
  pub applied_threshold_refs : List String
  pub applied_mission_refs : List String
  pub applied_approval_refs : List String
  pub authority_cap_applied : Bool
  pub computed_at : String

pub record GradeRecord : Type 0 where
  pub body : GradeBody
  pub open body use *
  pub grade_record_id : String
