-- ===== src/Analysis/Cases.antt =====
-- analysis/signal_queue.py: the documents of the signal case queue, and `_verify_priority` and
-- `_verify_case`. The canonical hashes and the schema store are parameters.
use Prim.Native.String.{slice, ◌++◌ as append}
use trusted_ceo_agent.Prelude.{
  ℕ, String, Bool, true, false, ◌&&◌, ◌||◌, not, Option, List, [], ◌∷◌, any, all, leb, str_eq,
  contains, codes, ◌==◌, Outcome, ◌>>◌, check,
}

-- `status` of a case.
pub data CaseStatus : Type 0 where
  detected triaged queued investigating needs_prioritization needs_input needs_expert : CaseStatus
  paused terminal : CaseStatus

-- `TERMINAL_DISPOSITIONS`.
pub data Disposition : Type 0 where
  substantiated not_substantiated inconclusive merged out_of_scope expert_review_required :
      Disposition
  deferred failed cancelled : Disposition

abbrev pub is_queued : CaseStatus → Bool
is_queued queued = true
is_queued _ = false

abbrev pub is_investigating : CaseStatus → Bool
is_investigating investigating = true
is_investigating _ = false

abbrev pub is_terminal : CaseStatus → Bool
is_terminal terminal = true
is_terminal _ = false

-- `PAUSE_STATUSES`.
abbrev pub is_pause : CaseStatus → Bool
is_pause needs_prioritization = true
is_pause needs_input = true
is_pause needs_expert = true
is_pause paused = true
is_pause _ = false

-- `FINDING_DISPOSITIONS`.
abbrev pub has_finding : Disposition → Bool
has_finding substantiated = true
has_finding not_substantiated = true
has_finding inconclusive = true
has_finding expert_review_required = true
has_finding _ = false

abbrev pub is_cancelled : Disposition → Bool
is_cancelled cancelled = true
is_cancelled _ = false

-- `PRIORITY_DIMENSIONS`.
pub record Dimensions : Type 0 where
  pub deterministic_risk : ℕ
  pub amount_cash_impact : ℕ
  pub legal_human_impact : ℕ
  pub control_failure : ℕ
  pub urgency : ℕ
  pub data_sufficiency : ℕ
  pub ceo_question_relevance : ℕ

-- The dimensions in `PRIORITY_SORT_ORDER`.
abbrev pub sort_vector_of : Dimensions → List ℕ
sort_vector_of d =
    d.deterministic_risk ∷ d.legal_human_impact ∷ d.control_failure ∷ d.urgency
    ∷ d.amount_cash_impact ∷ d.ceo_question_relevance ∷ d.data_sufficiency ∷ []

-- A priority record, but for the schema's version.
pub record PriorityRecord : Type 0 where
  pub priority_record_id : String
  pub case_id : String
  pub policy_ref : String
  pub dimensions : Dimensions
  pub sort_vector : List ℕ
  pub created_from_hash : String
  pub content_hash : String

-- A signal case, but for the schema's version.
pub record SignalCase : Type 0 where
  pub case_id : String
  pub run_id : String
  pub base_revision : ℕ
  pub case_revision : ℕ
  pub signal_ids : List String
  pub event_id : String
  pub priority_record_ref : String
  pub required_domain_routes : List String
  pub optional_domain_routes : List String
  pub current_stage : ℕ
  pub status : CaseStatus
  pub disposition : Option Disposition
  pub finding_ref : Option String
  pub related_case_ids : List String
  pub checkpoint_ref : Option String
  pub lease_owner : Option String
  pub pause_reason : Option String
  pub terminal_reason : Option String
  pub created_from_hash : String
  pub previous_content_hash : Option String
  pub content_hash : String

-- One constructor for each message of `ContractError`, and `RevisionConflict`.
pub data QueueError : Type 0 where
  empty_text schema_violation id_mismatch vector_mismatch hash_mismatch routes_overlap : QueueError
  self_related no_cases duplicate_case duplicate_priority dangling_case unpaired_priority :
      QueueError
  bad_priority_ref mixed_revisions unknown_case key_reused empty_replay stale_revision : QueueError
  not_investigating not_owner stage_out_of_range stage_skipped not_a_pause not_paused : QueueError
  already_terminal before_last_stage not_a_completion stray_finding missing_priority not_terminal :
      QueueError
  duplicate_entry empty_set unknown_domain dimension_range bad_run_id no_signals no_specs :
      QueueError
  not_deterministic not_triggered_signal conflicting_signal dangling_signal shared_signal :
      QueueError
  conflicting_event conflicting_routes dangling_related related_to_itself : QueueError

-- `str.isspace` of one character, as `strip` tests it.
abbrev is_space : ℕ → Bool
is_space c =
    (leb 9 c && leb c 13)
    || ((leb 28 c && leb c 32)
        || (c == 133
            || (c == 160
                || (c == 5760
                    || ((leb 8192 c && leb c 8202)
                        || (c == 8232
                            || (c == 8233 || (c == 8239 || (c == 8287 || c == 12288)))))))))

-- `not value.strip()`.
unfoldable pub is_blank : String → Bool
is_blank s = all is_space (codes s)

abbrev pub text : String → Outcome QueueError (Unit {0})
text s = check (not (is_blank s)) empty_text

-- `==` on lists of numbers.
abbrev pub same_numbers : List ℕ → List ℕ → Bool
same_numbers [] [] = true
same_numbers (x ∷ xs) (y ∷ ys) = (x == y) && same_numbers xs ys
same_numbers _ _ = false

-- `_content_hash` of a document leaves its own hash out.
module _ (hash : PriorityRecord → String) (schema_ok : PriorityRecord → Bool) where
  unfoldable pub verify_priority : PriorityRecord → Outcome QueueError (Unit {0})
  verify_priority p = do
    check (schema_ok p) schema_violation
    check (str_eq p.priority_record_id (append "priority_" (slice p.created_from_hash 0 24)))
        id_mismatch
    check (same_numbers p.sort_vector (sort_vector_of p.dimensions)) vector_mismatch
    check (str_eq p.content_hash (hash (record p { content_hash = "" }))) hash_mismatch

module _ (hash : SignalCase → String) (schema_ok : SignalCase → Bool) where
  unfoldable pub verify_case : SignalCase → Outcome QueueError (Unit {0})
  verify_case c = do
    check (schema_ok c) schema_violation
    check (str_eq c.case_id (append "case_" (slice c.created_from_hash 0 24))) id_mismatch
    check (not (any (contains c.optional_domain_routes) c.required_domain_routes)) routes_overlap
    check (not (contains c.related_case_ids c.case_id)) self_related
    check (str_eq c.content_hash (hash (record c { content_hash = "" }))) hash_mismatch
