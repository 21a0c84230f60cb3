-- ===== src/Orchestration/Budget/Tests.antt =====
-- A budget assessment that can be followed in orchestration/budget.py.
use trusted_ceo_agent.Prelude.{true, false, [], ◌∷◌, ◌≡◌, refl, ok, All}
use trusted_ceo_agent.Orchestration.Items.{Items, is_live}
use trusted_ceo_agent.Orchestration.Budget.{
  Assessment, AssessmentStatus, assess_work_budget, assess_items, verify_work_budget_policy,
  validate_body, check_limits, texts, string_set, normalized_datetime, check_effective_from,
  selected_families,
}
use trusted_ceo_agent.Orchestration.Budget.Coverage.{IsAccounted, assess_work_budget-IsAccounted}
use trusted_ceo_agent.Orchestration.Tests.{item, policy, zoned, policy_digest, any_policy}

-- One required item, and optional ones of two families, of which the policy allows one.
abbrev mixed : Items
mixed =
    item "a" []
    ∷ record (item "b" []) { required = false; issue_family = "y" }
    ∷ record (item "c" []) { required = false; issue_family = "x" }
    ∷ []

abbrev within_budget : Assessment
within_budget = record {
  status = AssessmentStatus.ready;
  required_task_ids = "a" ∷ [];
  scheduled_task_ids = "a" ∷ "c" ∷ [];
  deferred_optional_task_ids = "b" ∷ [];
  coverage_records = "b" ∷ [];
}

mixed-assessed :
    assess_work_budget zoned policy_digest any_policy policy mixed 10 ≡ ok within_budget
unfolding assess_work_budget assess_items verify_work_budget_policy validate_body check_limits texts
    string_set normalized_datetime check_effective_from selected_families
mixed-assessed = refl

assess_work_budget-IsAccounted_example :
    All (λ x. is_live x.status ≡ true → IsAccounted within_budget x) mixed
assess_work_budget-IsAccounted_example =
    assess_work_budget-IsAccounted zoned policy_digest any_policy policy mixed 10 mixed-assessed
