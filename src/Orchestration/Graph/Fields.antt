-- ===== src/Orchestration/Graph/Fields.antt =====
-- orchestration/graph.py: the field checks `_text`, `_hash`, `_string_set` and `_timeout_policy`.
use mathlib.Core.Bool.{decide}
use trusted_ceo_agent.Prelude.{
  String, Bool, true, false, ◌||◌, not, List, [], ◌∷◌, all, any, is_nil, leb, sort, str_le,
  has_duplicates, is_empty_text, is_sha256_text, Outcome, ok, ◌>>◌, check,
}
use trusted_ceo_agent.Orchestration.Items.{
  FailureCode, FailureCode-discrete, TimeoutPolicy, contract_invalid, source_unavailable,
  model_timeout, model_contract_failure,
}

-- One constructor for each message of `ContractError`.
pub data GraphError : Type 0 where
  empty_text not_a_hash duplicates empty_set unsafe_retry integer_below_minimum : GraphError
  duplicate_item no_items dangling_dependency self_dependency cyclic : GraphError
  graph_id_mismatch stale_generation invalid_run_id required_not_subset node_ids_mismatch :
      GraphError
  other_graph other_policy unknown_case too_many_attempts required_mismatch : GraphError
  edges_mismatch duplicate_key dangling_key schema_violation : GraphError

abbrev pub text : String → Outcome GraphError (Unit {0})
text s = check (not (is_empty_text s)) empty_text

-- `_hash`: the text is checked before its form.
abbrev pub hash : String → Outcome GraphError (Unit {0})
hash s = do text s; check (is_sha256_text s) not_a_hash

unfoldable pub texts : List String → Outcome GraphError (Unit {0})
texts [] = ok tt
texts (s ∷ ss) = let rest = texts ss in do text s; rest

-- `_string_set`, sorted.
unfoldable pub string_set : List String → Outcome GraphError (List String)
string_set values = do
  texts values
  check (not (has_duplicates values)) duplicates
  ok (sort str_le values)

-- `_string_set` with `non_empty=True`.
unfoldable pub non_empty_set : List String → Outcome GraphError (List String)
non_empty_set values = do
  texts values
  check (not (has_duplicates values)) duplicates
  check (not (is_nil values)) empty_set
  ok (sort str_le values)

-- `RETRYABLE_FAILURE_CODES`.
abbrev pub is_safe_retry : FailureCode → Bool
is_safe_retry contract_invalid = true
is_safe_retry source_unavailable = true
is_safe_retry model_timeout = true
is_safe_retry model_contract_failure = true
is_safe_retry _ = false

unfoldable pub repeats_code : List FailureCode → Bool
unfolding FailureCode-discrete
repeats_code [] = false
repeats_code (c ∷ cs) = any (λ d. decide (FailureCode-discrete d c)) cs || repeats_code cs

-- The text of a failure code.
abbrev code_text : FailureCode → String
code_text contract_invalid = "contract_invalid"
code_text FailureCode.packet_hash_mismatch = "packet_hash_mismatch"
code_text source_unavailable = "source_unavailable"
code_text model_timeout = "model_timeout"
code_text model_contract_failure = "model_contract_failure"
code_text FailureCode.procedure_failed = "procedure_failed"
code_text FailureCode.required_evidence_missing = "required_evidence_missing"
code_text FailureCode.stale_revision = "stale_revision"
code_text FailureCode.cancelled_by_human = "cancelled_by_human"
code_text FailureCode.resource_exhausted = "resource_exhausted"
code_text FailureCode.unsupported_pack = "unsupported_pack"

abbrev by_code : FailureCode → FailureCode → Bool
by_code a b = str_le (code_text a) (code_text b)

-- `_timeout_policy`. A code is one of `FAILURE_CODES` here, so its text is never empty.
unfoldable pub timeout_policy : TimeoutPolicy → Outcome GraphError TimeoutPolicy
timeout_policy p = do
  check (not (repeats_code p.retryable_failure_codes)) duplicates
  check (all is_safe_retry p.retryable_failure_codes) unsafe_retry
  check (leb 1 p.timeout_seconds) integer_below_minimum
  ok (record p { retryable_failure_codes = sort by_code p.retryable_failure_codes })
