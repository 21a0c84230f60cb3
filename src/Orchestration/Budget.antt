-- ===== src/Orchestration/Budget.antt =====
-- orchestration/budget.py: the work budget policy, its checks, and the budget assessment. Hashing,
-- the schema store and `datetime.fromisoformat` are parameters.
pub mod Coverage
mod Tests
use Prim.Native.String.{slice, len, ◌++◌ as append}
use trusted_ceo_agent.Prelude.{
  ℕ, ◌-◌, String, Bool, ◌&&◌, not, Option, none, some, List, [], ◌∷◌, ◌++◌, map, if◌then◌else◌, leb,
  filter, is_nil, sort, str_le, str_eq, take, contains, sorted_set, has_duplicates, is_empty_text,
  Outcome, ok, raise, ◌>>=◌, ◌>>◌, check,
}
use trusted_ceo_agent.Orchestration.Items.{WorkItem, Profile, worker_limit, is_live, Items}

-- `OVERFLOW_ACTIONS`.
pub data OverflowAction : Type 0 where
  needs_prioritization needs_input deep_review_pending : OverflowAction

-- `EVIDENCE_LIMIT_FIELDS`.
pub record EvidenceLimits : Type 0 where
  pub max_facts : ℕ
  pub max_signals : ℕ
  pub max_observations : ℕ
  pub max_problem_candidates : ℕ
  pub max_causes_per_problem : ℕ
  pub max_counters_per_cause : ℕ
  pub max_verifications_per_problem : ℕ
  pub max_data_requests : ℕ
  pub max_human_questions : ℕ
  pub max_expert_candidates : ℕ
  pub max_payload_bytes : ℕ

-- `BASELINE_EVIDENCE_LIMITS`.
abbrev pub baseline : EvidenceLimits
baseline = record {
  max_facts = 48;
  max_signals = 48;
  max_observations = 12;
  max_problem_candidates = 6;
  max_causes_per_problem = 4;
  max_counters_per_cause = 2;
  max_verifications_per_problem = 3;
  max_data_requests = 8;
  max_human_questions = 8;
  max_expert_candidates = 6;
  max_payload_bytes = 65536;
}

-- `POLICY_FIELDS`, but for `content_hash`.
pub record PolicyBody : Type 0 where
  pub policy_id : String
  pub workload_class : String
  pub max_active_signal_cases : ℕ
  pub max_parallel_workers : ℕ
  pub max_model_attempts_per_task : ℕ
  pub task_timeout : ℕ
  pub case_timeout : ℕ
  pub max_optional_issue_families : ℕ
  pub evidence_packet_limits : EvidenceLimits
  pub overflow_action : OverflowAction
  pub benchmark_refs : List String
  pub approved_concurrency_profile_id : Profile
  pub effective_from : String

pub record Policy : Type 0 where
  pub body : PolicyBody
  pub open body use *
  pub content_hash : String

-- One constructor for each message of `ContractError`.
pub data BudgetError : Type 0 where
  empty_text integer_below_minimum limit_above_baseline too_many_attempts duplicates : BudgetError
  too_many_workers not_a_datetime no_timezone hash_mismatch schema_violation : BudgetError
  no_work_items : BudgetError

-- `_text`.
abbrev text : String → Outcome BudgetError (Unit {0})
text s = check (not (is_empty_text s)) empty_text

-- `_integer`, with the minimum; a value is a natural number, so only the minimum is left to check.
abbrev at_least : ℕ → ℕ → Outcome BudgetError (Unit {0})
at_least minimum n = check (leb minimum n) integer_below_minimum

abbrev limit : ℕ → ℕ → Outcome BudgetError (Unit {0})
limit n bound = do at_least 1 n; check (leb n bound) limit_above_baseline

-- `_limits`, in the sorted order of the fields.
unfoldable pub check_limits : EvidenceLimits → Outcome BudgetError (Unit {0})
check_limits l = do
  limit l.max_causes_per_problem baseline.max_causes_per_problem
  limit l.max_counters_per_cause baseline.max_counters_per_cause
  limit l.max_data_requests baseline.max_data_requests
  limit l.max_expert_candidates baseline.max_expert_candidates
  limit l.max_facts baseline.max_facts
  limit l.max_human_questions baseline.max_human_questions
  limit l.max_observations baseline.max_observations
  limit l.max_payload_bytes baseline.max_payload_bytes
  limit l.max_problem_candidates baseline.max_problem_candidates
  limit l.max_signals baseline.max_signals
  limit l.max_verifications_per_problem baseline.max_verifications_per_problem

-- `_string_set`: the texts are checked one by one, then for duplicates, and come back sorted.
unfoldable pub texts : List String → Outcome BudgetError (Unit {0})
texts [] = ok tt
texts (s ∷ ss) = let rest = texts ss in do text s; rest

unfoldable pub string_set : List String → Outcome BudgetError (List String)
string_set values = do
  texts values
  check (not (has_duplicates values)) duplicates
  ok (sort str_le values)

-- `text[:-1] + "+00:00" if text.endswith("Z") else text`.
unfoldable pub normalized_datetime : String → String
normalized_datetime s =
    if str_eq (slice s (len s - 1) (len s)) "Z" then append (slice s 0 (len s - 1)) "+00:00" else s

-- `fromisoformat` gives `none` where Python raises `ValueError`, and else whether a time zone is set.
module _ (fromisoformat : String → Option Bool) (digest : PolicyBody → String)
    (schema_ok : Policy → Bool) where
  unfoldable pub check_effective_from : String → Outcome BudgetError (Unit {0})
  check_effective_from s = do
    text s
    elim (fromisoformat (normalized_datetime s)) [
      | none ↦ raise not_a_datetime
      | some zoned ↦ check zoned no_timezone
    ]

  -- `_validate_body`.
  unfoldable pub validate_body : PolicyBody → Outcome BudgetError (Unit {0})
  validate_body b = do
    text b.policy_id
    text b.workload_class
    at_least 1 b.max_active_signal_cases
    at_least 1 b.max_parallel_workers
    at_least 1 b.max_model_attempts_per_task
    check (leb b.max_model_attempts_per_task 2) too_many_attempts
    at_least 1 b.task_timeout
    at_least 1 b.case_timeout
    check_limits b.evidence_packet_limits
    string_set b.benchmark_refs
    check (leb b.max_parallel_workers (worker_limit b.approved_concurrency_profile_id))
        too_many_workers
    check_effective_from b.effective_from

  -- `build_work_budget_policy`: `_limits` and `_string_set` come first, for the normalized body.
  pub build_work_budget_policy : PolicyBody → Outcome BudgetError Policy
  build_work_budget_policy given = do
    check_limits given.evidence_packet_limits
    refs ← string_set given.benchmark_refs
    let b = record given { benchmark_refs = refs }
    validate_body b
    let p : Policy = record { body = b; content_hash = digest b }
    check (schema_ok p) schema_violation
    ok p

  -- `verify_work_budget_policy`.
  unfoldable pub verify_work_budget_policy : Policy → Outcome BudgetError (Unit {0})
  verify_work_budget_policy p = do
    validate_body p.body
    check (str_eq p.content_hash (digest p.body)) hash_mismatch
    check (schema_ok p) schema_violation

-- `status` of an assessment.
pub data AssessmentStatus : Type 0 where
  ready : AssessmentStatus
  overflowed : OverflowAction → AssessmentStatus

pub record Assessment : Type 0 where
  pub status : AssessmentStatus
  pub required_task_ids : List String
  pub scheduled_task_ids : List String
  pub deferred_optional_task_ids : List String
  -- each with the reason `optional_budget_deferred`
  pub coverage_records : List String

abbrev pub by_task_id : WorkItem → WorkItem → Bool
by_task_id x y = str_le x.task_id y.task_id

abbrev pub ids : Items → List String
ids = map (λ x. x.task_id)

-- The `unfinished` items.
abbrev pub unfinished : Items → Items
unfinished items = filter (λ x. is_live x.status) (sort by_task_id items)

abbrev pub required_of : Items → Items
required_of = filter (λ x. x.required)

abbrev pub optional_of : Items → Items
optional_of = filter (λ x. not x.required)

-- `selected_families`.
unfoldable pub selected_families : Policy → Items → List String
selected_families p optional =
    take p.max_optional_issue_families (sorted_set (map (λ x. x.issue_family) optional))

-- The assessment of the unfinished items, once everything has been checked.
unfoldable pub assess_items : Policy → ℕ → Items → Assessment
assess_items p elapsed open_items =
    let required = sort str_le (ids (required_of open_items)) in
    let optional = optional_of open_items in
    let families = selected_families p optional in
    let chosen = sort str_le (ids (filter (λ x. contains families x.issue_family) optional)) in
    let deferred =
      sort str_le (ids (filter (λ x. not (contains families x.issue_family)) optional)) in
    if leb p.case_timeout elapsed && not (is_nil required)
    then record {
      status = overflowed p.overflow_action;
      required_task_ids = required;
      scheduled_task_ids = [];
      deferred_optional_task_ids = sort str_le (ids optional);
      coverage_records = sort str_le (ids optional);
    }
    else record {
      status = ready;
      required_task_ids = required;
      scheduled_task_ids = sort str_le (required ++ chosen);
      deferred_optional_task_ids = deferred;
      coverage_records = deferred;
    }

module _ (fromisoformat : String → Option Bool) (digest : PolicyBody → String)
    (schema_ok : Policy → Bool) where
  -- `assess_work_budget`.
  unfoldable pub assess_work_budget : Policy → Items → ℕ → Outcome BudgetError Assessment
  assess_work_budget p items elapsed = do
    verify_work_budget_policy fromisoformat digest schema_ok p
    check (not (is_nil items)) no_work_items
    texts (map (λ x. x.issue_family) (optional_of (unfinished items)))
    ok (assess_items p elapsed (unfinished items))
