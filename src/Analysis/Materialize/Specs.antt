-- ===== src/Analysis/Materialize/Specs.antt =====
-- analysis/signal_queue.py: the signals, the case specifications and their checks. A record of this type
-- has the specification's fields.
use trusted_ceo_agent.Prelude.{
  String, Bool, true, false, ◌&&◌, not, none, some, List, [], ◌∷◌, ◌++◌, all, any, is_nil, leb,
  sort, str_le, str_eq, contains, has_duplicates, Outcome, ok, ◌>>=◌, ◌>>◌, check,
}
use trusted_ceo_agent.Prelude.Keyed.{get_by, put_by}
use trusted_ceo_agent.Analysis.Cases.{
  Dimensions, QueueError, text, routes_overlap, duplicate_entry, empty_set, unknown_domain,
  dimension_range, not_deterministic, not_triggered_signal, conflicting_signal, schema_violation,
}

-- A signal: the keys that the module reads, and its canonical bytes.
pub record Signal : Type 0 where
  pub signal_id : String
  pub producer : String
  pub outcome : String
  pub bytes : String

pub record Spec : Type 0 where
  pub case_key : String
  pub event_id : String
  pub signal_ids : List String
  pub required_domain_routes : List String
  pub optional_domain_routes : List String
  pub related_case_keys : List String
  pub priority_dimensions : Dimensions

-- `[_text(value, field) for value in values]`.
abbrev texts : List String → Outcome QueueError (Unit {0})
texts [] = ok tt
texts (x ∷ xs) = text x >> texts xs

unfoldable pub string_set : Bool → List String → Outcome QueueError (List String)
string_set non_empty values = do
  texts values
  check (not (has_duplicates values)) duplicate_entry
  check (not (non_empty && is_nil values)) empty_set
  ok (sort str_le values)

-- `DOMAIN_ROUTES`.
abbrev pub domain_routes : List String
domain_routes = "accounting" ∷ "legal" ∷ "labor" ∷ "tax" ∷ []

unfoldable pub domain_set : List String → Outcome QueueError (List String)
domain_set values = do
  result ← string_set false values
  check (all (contains domain_routes) result) unknown_domain
  ok result

-- Each dimension is at most 100.
unfoldable pub dimensions_ok : Dimensions → Bool
dimensions_ok d =
    leb d.deterministic_risk 100
    && (leb d.amount_cash_impact 100
        && (leb d.legal_human_impact 100
            && (leb d.control_failure 100
                && (leb d.urgency 100
                    && (leb d.data_sufficiency 100 && leb d.ceo_question_relevance 100)))))

abbrev pub overlap : List String → List String → Bool
overlap xs ys = any (contains ys) xs

unfoldable pub normalize_spec : Spec → Outcome QueueError Spec
normalize_spec raw = do
  required ← domain_set raw.required_domain_routes
  optional ← domain_set raw.optional_domain_routes
  check (not (overlap required optional)) routes_overlap
  text raw.case_key
  text raw.event_id
  signals ← string_set true raw.signal_ids
  related ← string_set false raw.related_case_keys
  check (dimensions_ok raw.priority_dimensions) dimension_range
  ok (record {
    case_key = raw.case_key;
    event_id = raw.event_id;
    signal_ids = signals;
    required_domain_routes = required;
    optional_domain_routes = optional;
    related_case_keys = related;
    priority_dimensions = raw.priority_dimensions;
  })

-- The loop over the signals, with the dictionary by id so far.
module _ (signal_ok : Signal → Bool) where
  unfoldable pub add_signals : List Signal → List Signal → Outcome QueueError (List Signal)
  add_signals [] known = ok known
  add_signals (s ∷ raws) known = do
    check (str_eq s.producer "deterministic_component") not_deterministic
    check (signal_ok s) schema_violation
    check (not (str_eq s.outcome "not_triggered")) not_triggered_signal
    elim (get_by (λ (r : Signal). r.signal_id) s.signal_id known) [
      | none ↦ add_signals raws (known ++ s ∷ [])
      | some old ↦ do
        check (str_eq old.bytes s.bytes) conflicting_signal
        add_signals raws (put_by (λ (r : Signal). r.signal_id) s known)
    ]
