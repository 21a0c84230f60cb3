-- ===== src/Workflow/Completion/Assessing.antt =====
-- workflow/completion.py: `assess_completion` and `verify_completion_assessment`. The source sorts the
-- documents by their canonical bytes first, which does not show: every list of the assessment is a sorted
-- set.
use mathlib.Core.Bool.{decide}
use trusted_ceo_agent.Prelude.{
  ℕ, String, Bool, true, false, ◌&&◌, ◌||◌, not, Option, none, some, List, [], ◌∷◌, ◌++◌, map,
  filter, count, is_nil, str_eq, is_empty_text, sorted_set, if◌then◌else◌, Outcome, ok, ◌>>◌, check,
}
use trusted_ceo_agent.Workflow.Completion.Findings.{
  Disposition, substantiated, not_substantiated, inconclusive, merged, out_of_scope,
  expert_review_required, deferred, failed, cancelled, is_counted, is_broken, is_deferred, Finding,
  finding_valid, sorted_refs,
}

pub record Case : Type 0 where
  pub case_id : Option String
  pub disposition : Disposition
  pub materiality_review_required : Bool
  -- `status == "terminal"`
  pub ended : Bool

pub record Work : Type 0 where
  pub task_id : Option String
  pub required : Bool
  -- `status == "succeeded"`
  pub succeeded : Bool

pub record Route : Type 0 where
  pub route_id : Option String
  pub required : Bool
  -- `status in _ROUTE_TERMINAL`
  pub ended : Bool

-- `_GATE_FIELDS`, each telling whether it `is True`.
pub record Gates : Type 0 where
  pub cross_finding_join_complete : Bool
  pub cross_domain_integrator_complete : Bool
  pub duplicate_merge_complete : Bool
  pub conflicts_disclosed : Bool
  pub coverage_complete : Bool
  pub final_validator_passed : Bool
  pub tty_final_approval_ready : Bool

-- `limited_basis`; a value that is none of the three is `unknown_basis`.
pub data Basis : Type 0 where
  no_basis data_unavailable user_excluded_scope unknown_basis : Basis

pub record Input : Type 0 where
  pub run_id : String
  pub revision : ℕ
  pub signal_cases : List Case
  pub work_items : List Work
  pub domain_routes : List Route
  pub findings : List Finding
  pub integrity_failure_refs : List String
  pub contract_failure_refs : List String
  pub stale_revision_refs : List String
  pub gates : Gates
  pub coverage_gaps : List String
  pub limited_basis : Basis
  pub user_confirmed_limitations : Bool
  pub expert_review_refs : List String
  pub blind_spot_refs : List String

pub data Status : Type 0 where
  not_ready limited_completion_ready finalization_ready : Status

pub data CompletionError : Type 0 where
  run_missing basis_invalid schema_violation hash_invalid id_invalid : CompletionError
  blocker_bypassed eligibility_inconsistent : CompletionError

abbrev or_unknown : String → Option String → String
or_unknown fallback none = fallback
or_unknown fallback (some s) = s

abbrev pub blocks_case : Case → Bool
blocks_case c =
    (c.materiality_review_required && (not c.ended || not (is_counted c.disposition)))
    || is_broken c.disposition

abbrev pub blocks_work : Work → Bool
blocks_work w = w.required && not w.succeeded

abbrev pub blocks_route : Route → Bool
blocks_route r = r.required && not r.ended

abbrev pub is_limited : Finding → Bool
is_limited f = f.limited_by_data || is_deferred f.disposition

abbrev gate_names : Gates → List (String × Bool)
gate_names g =
    ("cross_finding_join_complete", g.cross_finding_join_complete)
    ∷ ("cross_domain_integrator_complete", g.cross_domain_integrator_complete)
    ∷ ("duplicate_merge_complete", g.duplicate_merge_complete)
    ∷ ("conflicts_disclosed", g.conflicts_disclosed)
    ∷ ("coverage_complete", g.coverage_complete)
    ∷ ("final_validator_passed", g.final_validator_passed)
    ∷ ("tty_final_approval_ready", g.tty_final_approval_ready)
    ∷ []

abbrev pub incomplete_gates : Gates → List (String × Bool)
incomplete_gates g = filter (λ n. not n.1) (gate_names g)

abbrev pub hard_failures : Input → List String
hard_failures v =
    sorted_refs (v.integrity_failure_refs ++ (v.contract_failure_refs ++ v.stale_revision_refs))

unfoldable pub has_blockers : Input → Bool
has_blockers v =
    not (is_nil (filter blocks_case v.signal_cases))
    || (not (is_nil (filter blocks_work v.work_items))
        || (not (is_nil (filter blocks_route v.domain_routes))
            || (not (is_nil (filter (λ f. not (finding_valid f)) v.findings))
                || (not (is_nil (hard_failures v)) || not (is_nil (incomplete_gates v.gates))))))

abbrev pub is_no_basis : Basis → Bool
is_no_basis no_basis = true
is_no_basis _ = false

abbrev pub is_unknown_basis : Basis → Bool
is_unknown_basis unknown_basis = true
is_unknown_basis _ = false

unfoldable pub has_limit : Input → Bool
has_limit v =
    not (is_nil (filter is_limited v.findings))
    || (not (is_nil (sorted_refs v.coverage_gaps)) || not (is_no_basis v.limited_basis))

-- `limited_eligible`, for a basis that is one of the three.
unfoldable pub limited_eligible : Input → Bool
limited_eligible v =
    not (has_blockers v)
    && (has_limit v && (not (is_no_basis v.limited_basis) && v.user_confirmed_limitations))

unfoldable pub status_of : Input → Status
status_of v =
    if has_blockers v || (has_limit v && not (limited_eligible v))
    then not_ready
    else if limited_eligible v
    then limited_completion_ready
    else finalization_ready

unfoldable pub Disposition-discrete : Discrete Disposition
Disposition-discrete = hlevel

abbrev dispositions : List Disposition
dispositions =
    substantiated ∷ not_substantiated ∷ inconclusive ∷ merged ∷ out_of_scope
    ∷ expert_review_required ∷ deferred ∷ failed ∷ cancelled ∷ []

-- `counts`.
unfoldable pub counts : List Case → List (Disposition × ℕ)
unfolding Disposition-discrete
counts cases =
    map (λ d. (d, count (λ c. decide (Disposition-discrete c.disposition d)) cases)) dispositions

-- `semantic`, without the schema's version.
pub record Semantic : Type 0 where
  pub run_id : String
  pub revision : ℕ
  pub status : Status
  pub disposition_counts : List (Disposition × ℕ)
  pub blocking_case_refs : List String
  pub blocking_required_work_refs : List String
  pub blocking_domain_route_refs : List String
  pub invalid_finding_refs : List String
  pub hard_failure_refs : List String
  pub coverage_gaps : List String
  pub expert_review_refs : List String
  pub blind_spot_refs : List String
  pub gate_results : Gates
  pub limited_basis : Basis
  pub user_confirmed_limitations : Bool
  pub limited_completion_eligible : Bool
  pub completion_limitations : List String

pub record Assessment : Type 0 where
  pub assessment_id : String
  pub semantic : Semantic
  pub content_hash : String

abbrev finding_ids : List Finding → List String
finding_ids = map (λ f. or_unknown "<unknown-finding>" f.finding_id)

unfoldable pub semantic_of : Input → Semantic
semantic_of v = record {
  run_id = v.run_id;
  revision = v.revision;
  status = status_of v;
  disposition_counts = counts v.signal_cases;
  blocking_case_refs =
      sorted_set
        (map (λ c. or_unknown "<unknown-case>" c.case_id) (filter blocks_case v.signal_cases));
  blocking_required_work_refs =
      sorted_set
        (map (λ w. or_unknown "<unknown-task>" w.task_id) (filter blocks_work v.work_items));
  blocking_domain_route_refs =
      sorted_set
        (map (λ r. or_unknown "<unknown-route>" r.route_id) (filter blocks_route v.domain_routes));
  invalid_finding_refs = sorted_set (finding_ids (filter (λ f. not (finding_valid f)) v.findings));
  hard_failure_refs = hard_failures v;
  coverage_gaps = sorted_refs v.coverage_gaps;
  expert_review_refs = sorted_refs v.expert_review_refs;
  blind_spot_refs = sorted_refs v.blind_spot_refs;
  gate_results = v.gates;
  limited_basis = v.limited_basis;
  user_confirmed_limitations = v.user_confirmed_limitations;
  limited_completion_eligible = limited_eligible v;
  completion_limitations = sorted_set (
      finding_ids (filter is_limited v.findings)
      ++ (sorted_refs v.coverage_gaps ++ map (λ n. n.0) (incomplete_gates v.gates)));
}

abbrev is_not_ready : Status → Bool
is_not_ready not_ready = true
is_not_ready _ = false

abbrev is_limited_ready : Status → Bool
is_limited_ready limited_completion_ready = true
is_limited_ready _ = false

-- `hard_blocked`.
abbrev hard_blocked : Semantic → Bool
hard_blocked d =
    not (is_nil d.blocking_case_refs)
    || (not (is_nil d.blocking_required_work_refs)
        || (not (is_nil d.blocking_domain_route_refs)
            || (not (is_nil d.invalid_finding_refs)
                || (not (is_nil d.hard_failure_refs)
                    || not (is_nil (incomplete_gates d.gate_results))))))

-- `make_id`, the hash of an assessment without its hash, and the schema are parameters.
module _ (make_id : Semantic → String) (hash : String → Semantic → String)
    (schema_ok : Assessment → Bool) where
  unfoldable pub verify_completion_assessment : Assessment → Outcome CompletionError (Unit {0})
  verify_completion_assessment a = do
    check (schema_ok a) schema_violation
    check (str_eq (hash a.assessment_id a.semantic) a.content_hash) hash_invalid
    check (str_eq (make_id a.semantic) a.assessment_id) id_invalid
    check (not (hard_blocked a.semantic && not (is_not_ready a.semantic.status))) blocker_bypassed
    check (not (a.semantic.limited_completion_eligible && not (is_limited_ready a.semantic.status)))
        eligibility_inconsistent

  abbrev pub assessment_of : Semantic → Assessment
  assessment_of d = record {
    assessment_id = make_id d;
    semantic = d;
    content_hash = hash (make_id d) d;
  }

  unfoldable pub assess_completion : Input → Outcome CompletionError Assessment
  assess_completion v = do
    check (not (is_empty_text v.run_id)) run_missing
    check (not (is_unknown_basis v.limited_basis)) basis_invalid
    verify_completion_assessment (assessment_of (semantic_of v))
    ok (assessment_of (semantic_of v))
