-- ===== src/Analysis/Materialize/Building.antt =====
-- analysis/signal_queue.py: `materialize_signal_cases`: the identifiers and the documents. The digests
-- and hashes of canonical JSON and the schema store are parameters.
use Prim.Native.String.{slice, ◌++◌ as append}
use trusted_ceo_agent.Prelude.{
  ℕ, String, Bool, not, none, some, List, [], ◌∷◌, map, is_nil, sort, str_le, starts_with, Outcome,
  ok, raise, ◌>>=◌, ◌>>◌, check,
}
use trusted_ceo_agent.Analysis.Cases.{
  queued, Dimensions, sort_vector_of, PriorityRecord, SignalCase, QueueError, text, verify_case,
  verify_priority, bad_run_id, no_signals, no_specs, dangling_related,
}
use trusted_ceo_agent.Analysis.Materialize.Specs.{Signal, Spec, add_signals}
use trusted_ceo_agent.Analysis.Materialize.Merging.{
  Specs, spec_key, get_spec, merge, check_related, symmetric,
}

-- The arguments beside the signals and the specifications.
pub record Setting : Type 0 where
  pub run_id : String
  pub base_revision : ℕ
  pub priority_policy_ref : String

-- What the module takes from SHA-256 over canonical JSON and from the schema store. `case_digest` is the
-- digest of a case's source: the run, the revision, and the specification but for its dimensions.
pub record Documents : Type 0 where
  pub case_digest : String → ℕ → Spec → String
  pub priority_digest : String → String → Dimensions → String
  pub case_hash : SignalCase → String
  pub priority_hash : PriorityRecord → String
  pub case_ok : SignalCase → Bool
  pub priority_ok : PriorityRecord → Bool
  pub signal_ok : Signal → Bool

module _ (docs : Documents) (setting : Setting) where
  abbrev pub source_digest : Spec → String
  source_digest spec = docs.case_digest setting.run_id setting.base_revision spec

  -- `case_id_by_key`.
  abbrev pub case_id_of : Spec → String
  case_id_of spec = append "case_" (slice (source_digest spec) 0 24)

  abbrev pub related_ids : Specs → List String → Outcome QueueError (List String)
  related_ids merged [] = ok []
  related_ids merged (k ∷ keys) = elim (get_spec k merged) [
    | none ↦ raise dangling_related
    | some spec ↦ do ids ← related_ids merged keys; ok (case_id_of spec ∷ ids)
  ]

  abbrev pub priority_of : Spec → PriorityRecord
  priority_of spec =
      let created =
        docs.priority_digest (case_id_of spec) setting.priority_policy_ref
          spec.priority_dimensions in
      let body : PriorityRecord = record {
        priority_record_id = append "priority_" (slice created 0 24);
        case_id = case_id_of spec;
        policy_ref = setting.priority_policy_ref;
        dimensions = spec.priority_dimensions;
        sort_vector = sort_vector_of spec.priority_dimensions;
        created_from_hash = created;
        content_hash = "";
      } in
      record body { content_hash = docs.priority_hash body }

  abbrev pub case_of : Spec → List String → SignalCase
  case_of spec related =
      let body : SignalCase = record {
        case_id = case_id_of spec;
        run_id = setting.run_id;
        base_revision = setting.base_revision;
        case_revision = 0;
        signal_ids = spec.signal_ids;
        event_id = spec.event_id;
        priority_record_ref = (priority_of spec).priority_record_id;
        required_domain_routes = spec.required_domain_routes;
        optional_domain_routes = spec.optional_domain_routes;
        current_stage = 1;
        status = queued;
        disposition = none;
        finding_ref = none;
        related_case_ids = sort str_le related;
        checkpoint_ref = none;
        lease_owner = none;
        pause_reason = none;
        terminal_reason = none;
        created_from_hash = source_digest spec;
        previous_content_hash = none;
        content_hash = "";
      } in
      record body { content_hash = docs.case_hash body }

  -- The loop over the merged specifications.
  unfoldable pub build : Specs → Specs → Outcome QueueError (List (SignalCase × PriorityRecord))
  build merged [] = ok []
  build merged (spec ∷ specs) = do
    verify_priority docs.priority_hash docs.priority_ok (priority_of spec)
    related ← related_ids merged spec.related_case_keys
    verify_case docs.case_hash docs.case_ok (case_of spec related)
    rest ← build merged specs
    ok ((case_of spec related, priority_of spec) ∷ rest)

  -- The merged specifications, in the order of their keys.
  unfoldable pub merged_specs : List Signal → List Spec → Outcome QueueError Specs
  merged_specs signals specs = do
    known ← add_signals docs.signal_ok signals []
    both ← merge known specs [] []
    check_related (map spec_key both.0) both.0
    ok (
        sort (λ (a b : Spec). str_le a.case_key b.case_key)
          (symmetric (map spec_key both.0) both.0))

  unfoldable pub materialize_signal_cases :
      List Signal → List Spec → Outcome QueueError (List SignalCase × List PriorityRecord)
  materialize_signal_cases signals specs = do
    text setting.run_id
    check (starts_with setting.run_id "run_") bad_run_id
    text setting.priority_policy_ref
    check (not (is_nil signals)) no_signals
    check (not (is_nil specs)) no_specs
    merged ← merged_specs signals specs
    made ← build merged merged
    ok (
      sort (λ (c d : SignalCase). str_le c.case_id d.case_id)
          (map (λ (p : SignalCase × PriorityRecord). p.0) made),
      sort (λ (c d : PriorityRecord). str_le c.priority_record_id d.priority_record_id)
          (map (λ (p : SignalCase × PriorityRecord). p.1) made),
    )
