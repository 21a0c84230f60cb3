-- ===== src/Analysis/Materialize/Merging.antt =====
-- analysis/signal_queue.py: the loops of `materialize_signal_cases` over the specifications.
use trusted_ceo_agent.Prelude.{
  String, not, Option, none, some, List, [], ◌∷◌, ◌++◌, map, all, str_eq, contains, sorted_set,
  if◌then◌else◌, Outcome, ok, ◌>>=◌, ◌>>◌, check,
}
use Prim.Native.Nat.{max}
use trusted_ceo_agent.Prelude.Keyed.{get_by, put_by}
use trusted_ceo_agent.Analysis.Cases.{
  Dimensions, QueueError, dangling_signal, shared_signal, conflicting_event, conflicting_routes,
  dangling_related, related_to_itself,
}
use trusted_ceo_agent.Analysis.Materialize.Specs.{Signal, Spec, normalize_spec, overlap}

-- `merged`, by `case_key`, and `owner_by_signal`.
abbrev pub Specs : Type 0
Specs = List Spec

abbrev pub spec_key : Spec → String
spec_key s = s.case_key

abbrev pub get_spec : String → Specs → Option Spec
get_spec = get_by spec_key

abbrev pub put_spec : Spec → Specs → Specs
put_spec = put_by spec_key

abbrev pub Owners : Type 0
Owners = List (String × String)

abbrev pub owner_of : String → Owners → Option String
owner_of signal [] = none
owner_of signal ((s, k) ∷ owners) =
    let rest = owner_of signal owners in if str_eq s signal then some k else rest

-- The loop over a specification's signals: `setdefault`, and the owner that it gives.
unfoldable pub claim : String → List String → Owners → Outcome QueueError Owners
claim key [] owners = ok owners
claim key (s ∷ signals) owners = elim (owner_of s owners) [
  | none ↦ claim key signals ((s, key) ∷ owners)
  | some k ↦ do check (str_eq k key) shared_signal; claim key signals owners
]

abbrev pub larger_dimensions : Dimensions → Dimensions → Dimensions
larger_dimensions c d = record {
  deterministic_risk = max c.deterministic_risk d.deterministic_risk;
  amount_cash_impact = max c.amount_cash_impact d.amount_cash_impact;
  legal_human_impact = max c.legal_human_impact d.legal_human_impact;
  control_failure = max c.control_failure d.control_failure;
  urgency = max c.urgency d.urgency;
  data_sufficiency = max c.data_sufficiency d.data_sufficiency;
  ceo_question_relevance = max c.ceo_question_relevance d.ceo_question_relevance;
}

abbrev pub joined : Spec → Spec → Spec
joined current spec = record current {
  signal_ids = sorted_set (current.signal_ids ++ spec.signal_ids);
  required_domain_routes =
      sorted_set (current.required_domain_routes ++ spec.required_domain_routes);
  optional_domain_routes =
      sorted_set (current.optional_domain_routes ++ spec.optional_domain_routes);
  related_case_keys = sorted_set (current.related_case_keys ++ spec.related_case_keys);
  priority_dimensions = larger_dimensions current.priority_dimensions spec.priority_dimensions;
}

-- A second specification of a case. An error ends the whole function, so that no half changed one is
-- seen.
unfoldable pub join : Spec → Spec → Outcome QueueError Spec
join current spec = do
  check (str_eq current.event_id spec.event_id) conflicting_event
  check
      (not (
        overlap (joined current spec).required_domain_routes
          (joined current spec).optional_domain_routes))
      conflicting_routes
  ok (joined current spec)

unfoldable pub file_spec : Spec → Specs → Outcome QueueError Specs
file_spec spec merged = elim (get_spec spec.case_key merged) [
  | none ↦ ok (merged ++ spec ∷ [])
  | some current ↦ do both ← join current spec; ok (put_spec both merged)
]

-- The loop over the specifications, with the merged ones and the owners so far.
unfoldable pub merge :
    List Signal → List Spec → Specs → Owners → Outcome QueueError (Specs × Owners)
merge signals [] merged owners = ok (merged, owners)
merge signals (raw ∷ raws) merged owners = do
  spec ← normalize_spec raw
  check (all (contains (map (λ (s : Signal). s.signal_id) signals)) spec.signal_ids) dangling_signal
  owners' ← claim spec.case_key spec.signal_ids owners
  merged' ← file_spec spec merged
  merge signals raws merged' owners'

unfoldable pub check_related : List String → Specs → Outcome QueueError (Unit {0})
check_related keys [] = ok tt
check_related keys (spec ∷ specs) = do
  check (all (contains keys) spec.related_case_keys) dangling_related
  check (not (contains spec.related_case_keys spec.case_key)) related_to_itself
  check_related keys specs

-- `merged[related_key]["related_case_keys"]` with the key added.
unfoldable pub relate : String → String → Specs → Specs
relate key related specs = elim (get_spec related specs) [
  | none ↦ specs
  | some spec ↦
      put_spec (record spec { related_case_keys = sorted_set (spec.related_case_keys ++ key ∷ []) })
        specs
]

abbrev pub relate_all : String → List String → Specs → Specs
relate_all key [] specs = specs
relate_all key (r ∷ rs) specs = relate_all key rs (relate key r specs)

-- The loop that makes the relation symmetric; no case relates to itself, so that the keys that a pass
-- reads are not changed by it.
unfoldable pub symmetric : List String → Specs → Specs
symmetric [] specs = specs
symmetric (key ∷ keys) specs = elim (get_spec key specs) [
  | none ↦ symmetric keys specs
  | some spec ↦ symmetric keys (relate_all key spec.related_case_keys specs)
]
