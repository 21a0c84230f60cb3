-- ===== src/Workflow/Completion/Findings.antt =====
-- workflow/completion.py: `_finding_valid`. A key that may be missing is an option.
use trusted_ceo_agent.Prelude.{
  String, Bool, true, false, ◌&&◌, ◌||◌, not, Option, none, some, List, filter, is_nil,
  is_empty_text, sorted_set,
}

-- `_DISPOSITIONS`; a value outside of it is `other`.
pub data Disposition : Type 0 where
  substantiated not_substantiated inconclusive merged out_of_scope expert_review_required :
      Disposition
  deferred failed cancelled other : Disposition

-- `in counts`
abbrev pub is_counted : Disposition → Bool
is_counted other = false
is_counted _ = true

-- `in {"failed", "cancelled"}`
abbrev pub is_broken : Disposition → Bool
is_broken failed = true
is_broken cancelled = true
is_broken _ = false

abbrev pub is_deferred : Disposition → Bool
is_deferred deferred = true
is_deferred _ = false

-- `coverage`, each entry telling whether it `is True`.
pub record Coverage : Type 0 where
  pub required_procedures_complete : Bool
  pub counter_evidence_complete : Bool
  pub evidence_coverage_complete : Option Bool
  pub evidence_complete : Bool

-- `expert_review`; a text that is missing is empty.
pub record ExpertReview : Type 0 where
  pub required : Bool
  pub packet_ref : String
  pub decision_boundary : String
  pub owner : String
  pub packet_complete : Bool
  pub conclusion_boundary_complete : Bool
  pub responsible_role : String

pub record Finding : Type 0 where
  pub finding_id : Option String
  pub disposition : Disposition
  pub coverage : Option Coverage
  pub reason_codes : List String
  pub impact_scope_refs : List String
  pub expert_review : Option ExpertReview
  -- `limitation_origin == "data_or_capability"`
  pub limited_by_data : Bool

-- `_sorted_refs`
abbrev pub sorted_refs : List String → List String
sorted_refs values = sorted_set (filter (λ v. not (is_empty_text v)) values)

abbrev evidence_covered : Coverage → Bool
evidence_covered c = elim c.evidence_coverage_complete [ some b ↦ b | none ↦ c.evidence_complete ]

abbrev contract_met : Option ExpertReview → Bool
contract_met none = false
contract_met (some e) =
    (e.required
      && (not (is_empty_text e.packet_ref)
          && (not (is_empty_text e.decision_boundary) && not (is_empty_text e.owner))))
    || (e.required
        && (e.packet_complete
            && (e.conclusion_boundary_complete && not (is_empty_text e.responsible_role))))

abbrev explained : Finding → Bool
explained f =
    not (is_nil (sorted_refs f.reason_codes)) && not (is_nil (sorted_refs f.impact_scope_refs))

-- What each disposition asks for, beyond procedures and counter evidence.
abbrev supported : Finding → Coverage → Bool
supported f c = elim f.disposition [
  | substantiated ↦ evidence_covered c
  | inconclusive ↦ explained f
  | deferred ↦ explained f
  | out_of_scope ↦ explained f
  | expert_review_required ↦ contract_met f.expert_review
  | not_substantiated ↦ true
  | merged ↦ true
  | _ ↦ false
]

-- `_finding_valid`.
unfoldable pub finding_valid : Finding → Bool
finding_valid f = elim f.coverage [
  | none ↦ false
  | some c ↦ c.required_procedures_complete && (c.counter_evidence_complete && supported f c)
]
