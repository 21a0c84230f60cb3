-- ===== src/Conditions/Syntax.antt =====
-- contracts/condition_dsl.py: conditions and their operands. The constructors stand for the checks of the
-- kinds and the keys of the JSON objects.
use trusted_ceo_agent.Prelude.{ℕ, String, Bool, Option, List, [], ◌∷◌}

-- `_REDUCERS`.
pub data Reducer : Type 0 where
  only latest min max sum count : Reducer

-- `literal`: a decimal and a date are texts; an integer is a sign and an absolute value.
pub data Literal : Type 0 where
  decimal_literal : String → Literal
  integer_literal : Bool → ℕ → Literal
  string_literal : String → Literal
  boolean_literal : Bool → Literal
  date_literal : String → Literal

pub record FactRef : Type 0 where
  pub fact_code : String
  pub reducer : Reducer
  pub unit_code : Option String
  pub scope_key : Option String

pub record SignalRef : Type 0 where
  pub signal_code : String
  pub outcome : Option String
  pub scope_key : Option String

pub data Operand : Type 0 where
  literal : Literal → Operand
  fact_ref : FactRef → Operand
  signal_ref : SignalRef → Operand
  mission_ref : String → Operand
  hitl_ref : String → Operand

-- `_COMPARISON_OPERATORS`.
pub data Comparison : Type 0 where
  eq ne gt gte lt lte outcome_is : Comparison

-- `_MEMBERSHIP_OPERATORS` and `_PRESENCE_OPERATORS`.
pub data Membership : Type 0 where
  in_values not_in_values : Membership

pub data Presence : Type 0 where
  exists missing : Presence

mutual
  pub data Expression : Type 0 where
    all_of : Args → Expression
    any_of : Args → Expression
    negation : Expression → Expression
    comparison : Comparison → Operand → Operand → Expression
    membership : Membership → Operand → List Operand → Expression
    presence : Presence → Operand → Expression

  pub data Args : Type 0 where
    no_args : Args
    arg : Expression → Args → Args

-- `_MISSION_ROOTS`.
abbrev pub mission_roots : List String
mission_roots =
    "business_question" ∷ "business_model" ∷ "current_symptoms" ∷ "customer_hypotheses"
    ∷ "decision_context" ∷ "decision_units" ∷ "decision_deadline" ∷ "analysis_horizon"
    ∷ "organization_scope" ∷ "priority_dimensions" ∷ "constraints" ∷ "recent_business_changes"
    ∷ "recent_organization_changes" ∷ "recent_policy_changes" ∷ "included_scopes"
    ∷ "excluded_scopes" ∷ "comparison_preferences" ∷ "materiality_context" ∷ "data_definitions"
    ∷ "confidentiality" ∷ "required_human_roles" ∷ "confirmation" ∷ []

-- `_HITL_ROOTS`.
abbrev pub hitl_roots : List String
hitl_roots =
    "mission_contract" ∷ "mapping" ∷ "scope_narrowing" ∷ "issue_dispositions"
    ∷ "decision_dispositions" ∷ "verification_authorizations" ∷ "issue_groups"
    ∷ "materiality_context" ∷ "requested_counter_checks" ∷ "deep_dive_scope"
    ∷ "response_dispositions" ∷ "expert_routing" ∷ "ceo_wording" ∷ "delivery_scope" ∷ []
