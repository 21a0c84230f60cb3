-- ===== src/Conditions/Tests.antt =====
-- A condition over two facts and an answer of the mission.
use trusted_ceo_agent.Prelude.{◌≤◌, String, Bool, none, some, ◌≡◌, ◌↔◌, refl, str_eq, ok, raise}
use trusted_ceo_agent.Conditions.Syntax.{
  latest, decimal_literal, Operand, literal, fact_ref, mission_ref, gt, exists, Expression, all_of,
  negation, comparison, presence, no_args, arg,
}
use trusted_ceo_agent.Conditions.Validation.{
  pointer_tokens, validate_operand, visit, visit_each, validate_condition, max_nodes, max_depth,
  bad_arg_count, unlisted_root,
}
use trusted_ceo_agent.Conditions.Limits.{size, height, IsWell, validate_condition_iff}

-- In place of `Decimal` and `date.fromisoformat`.
abbrev is_decimal : String → Bool
is_decimal s = str_eq s "0.25"

abbrev is_date : String → Bool
is_date s = str_eq s "2025-01-31"

abbrev cash : Operand
cash =
    fact_ref
      (record { fact_code = "cash"; reducer = latest; unit_code = some "KRW"; scope_key = none })

abbrev condition : Expression
condition = all_of (
    arg (comparison gt cash (literal (decimal_literal "0.25")))
      (arg (negation (presence exists (mission_ref "/constraints/a~1b"))) no_args))

test_condition : validate_condition is_decimal is_date condition ≡ ok tt
unfolding validate_condition visit visit_each validate_operand pointer_tokens
test_condition = refl

-- A condition of no arguments, and a reference outside the list.
test_empty : validate_condition is_decimal is_date (all_of no_args) ≡ raise bad_arg_count
unfolding validate_condition visit visit_each
test_empty = refl

test_unlisted :
    validate_condition is_decimal is_date (presence exists (mission_ref "/secret"))
    ≡ raise unlisted_root
unfolding validate_condition visit visit_each validate_operand pointer_tokens
test_unlisted = refl

validate_condition_iff_example : (validate_condition is_decimal is_date condition ≡ ok tt) ↔ (
    (size condition ≤ max_nodes)
    × (height condition ≤ max_depth)
    × IsWell is_decimal is_date condition)
validate_condition_iff_example = validate_condition_iff is_decimal is_date condition
