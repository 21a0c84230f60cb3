-- ===== src/Conditions/Validation.antt =====
-- contracts/condition_dsl.py: `validate_condition`, with `_pointer_tokens`, `_validate_literal` and
-- `_validate_operand`. A token is the list of its code points. Parameters say which texts `Decimal` reads
-- as a finite number and `date.fromisoformat` as a date.
use trusted_ceo_agent.Prelude.{
  ℕ, suc, ◌==◌, String, Bool, true, false, ◌&&◌, not, List, [], ◌∷◌, ◌++◌, map, any, length, leb,
  str_eq, starts_with, is_empty_text, codes, if◌then◌else◌, Outcome, ok, ◌>>=◌, ◌>>◌, check,
}
use trusted_ceo_agent.Conditions.Syntax.{
  Literal, decimal_literal, date_literal, Operand, literal, fact_ref, signal_ref, mission_ref,
  hitl_ref, Expression, all_of, any_of, negation, comparison, membership, presence, Args, no_args,
  arg, mission_roots, hitl_roots,
}

pub data ConditionError : Type 0 where
  root_pointer bad_escape unlisted_root bad_decimal bad_date no_fact_code no_signal_code :
      ConditionError
  too_many_nodes too_deep bad_arg_count bad_value_count : ConditionError

abbrev pub max_depth : ℕ
max_depth = 8

abbrev pub max_nodes : ℕ
max_nodes = 64

abbrev pub max_args : ℕ
max_args = 16

abbrev Token : Type 0
Token = List ℕ

-- `split("/")`.
abbrev split_slash : Token → List Token
split_slash [] = [] ∷ []
split_slash (c ∷ cs) = elim (split_slash cs) [
  | [] ↦ []
  | t ∷ ts ↦ if c == b'/' then [] ∷ t ∷ ts else (c ∷ t) ∷ ts
]

-- `replace` of `~` and one character by a text.
abbrev replace_escape : ℕ → Token → Token → Token
replace_escape d by [] = []
replace_escape d by (c ∷ []) = c ∷ []
replace_escape d by (c ∷ e ∷ cs) =
    let rest = replace_escape d by cs in
    let next = replace_escape d by (e ∷ cs) in
    if (c == b'~') && (e == d) then by ++ rest else c ∷ next

abbrev unescape : Token → Token
unescape t = replace_escape b'0' (b'~' ∷ []) (replace_escape b'1' (b'/' ∷ []) t)

abbrev has_bad_escape : Token → Bool
has_bad_escape t = any (λ c. c == b'~') (replace_escape b'1' [] (replace_escape b'0' [] t))

abbrev same_token : Token → Token → Bool
same_token [] [] = true
same_token (c ∷ cs) (d ∷ ds) = (c == d) && same_token cs ds
same_token _ _ = false

abbrev first_listed : List String → List Token → Bool
first_listed roots [] = false
first_listed roots (t ∷ ts) = any (λ r. same_token (codes r) t) roots

-- `pointer[1:]`.
abbrev after_slash : Token → Token
after_slash [] = []
after_slash (c ∷ cs) = cs

unfoldable pub pointer_tokens : List String → String → Outcome ConditionError (List Token)
pointer_tokens roots pointer = do
  check (starts_with pointer "/" && not (str_eq pointer "/")) root_pointer
  check (not (any has_bad_escape (split_slash (after_slash (codes pointer))))) bad_escape
  check (first_listed roots (map unescape (split_slash (after_slash (codes pointer)))))
      unlisted_root
  ok (map unescape (split_slash (after_slash (codes pointer))))

abbrev pub arg_count : Args → ℕ
arg_count no_args = 0
arg_count (arg e es) = suc (arg_count es)

abbrev pub in_range : ℕ → Bool
in_range n = leb 1 n && leb n max_args

-- The node's number, counted from 1, and its depth.
abbrev pub enter : ℕ → ℕ → Outcome ConditionError (Unit {0})
enter depth number =
    check (leb number max_nodes) too_many_nodes >> check (leb depth max_depth) too_deep

module _ (is_decimal is_date : String → Bool) where
  abbrev validate_literal : Literal → Outcome ConditionError (Unit {0})
  validate_literal (decimal_literal s) = check (is_decimal s) bad_decimal
  validate_literal (date_literal s) = check (is_date s) bad_date
  validate_literal _ = ok tt

  unfoldable pub validate_operand : Operand → Outcome ConditionError (Unit {0})
  validate_operand (literal l) = validate_literal l
  validate_operand (fact_ref r) = check (not (is_empty_text r.fact_code)) no_fact_code
  validate_operand (signal_ref r) = check (not (is_empty_text r.signal_code)) no_signal_code
  validate_operand (mission_ref p) = do pointer_tokens mission_roots p; ok tt
  validate_operand (hitl_ref p) = do pointer_tokens hitl_roots p; ok tt

  abbrev pub validate_values : List Operand → Outcome ConditionError (Unit {0})
  validate_values [] = ok tt
  validate_values (v ∷ vs) = validate_operand v >> validate_values vs

  -- `visit`: the number of nodes that were visited before it, and afterwards.
  unfoldable mutual
    pub visit : Expression → ℕ → ℕ → Outcome ConditionError ℕ
    visit (all_of args) depth n = do
      enter depth (suc n)
      check (in_range (arg_count args)) bad_arg_count
      visit_each args (suc depth) (suc n)
    visit (any_of args) depth n = do
      enter depth (suc n)
      check (in_range (arg_count args)) bad_arg_count
      visit_each args (suc depth) (suc n)
    visit (negation e) depth n = do enter depth (suc n); visit e (suc depth) (suc n)
    visit (comparison op left right) depth n = do
      enter depth (suc n)
      validate_operand left
      validate_operand right
      ok (suc n)
    visit (membership op left values) depth n = do
      enter depth (suc n)
      validate_operand left
      check (in_range (length values)) bad_value_count
      validate_values values
      ok (suc n)
    visit (presence op operand) depth n = do
      enter depth (suc n)
      validate_operand operand
      ok (suc n)

    pub visit_each : Args → ℕ → ℕ → Outcome ConditionError ℕ
    visit_each no_args depth n = ok n
    visit_each (arg e es) depth n = do m ← visit e depth n; visit_each es depth m

  unfoldable pub validate_condition : Expression → Outcome ConditionError (Unit {0})
  validate_condition e = do visit e 1 0; ok tt
