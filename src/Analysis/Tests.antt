-- ===== src/Analysis/Tests.antt =====
-- Two signals, the two related cases that are made of them, and the queue of these cases.
use Prim.Native.String.{slice, ◌++◌ as append}
use trusted_ceo_agent.Prelude.{
  ◌≤◌, String, true, Option, some, List, [], ◌∷◌, ◌≡◌, refl, All, ok, map,
}
use trusted_ceo_agent.Prelude.Keyed.{total}
use trusted_ceo_agent.Analysis.Cases.{
  SignalCase, PriorityRecord, verify_case, verify_priority, is_blank,
}
use trusted_ceo_agent.Analysis.Queue.State.{case_key, Queue, Request, leases}
use trusted_ceo_agent.Analysis.Queue.Methods.{run}
use trusted_ceo_agent.Analysis.Queue.Steps.{IsProper, active}
use trusted_ceo_agent.Analysis.Queue.Starting.{create, add_cases, add_priorities}
use trusted_ceo_agent.Analysis.Materialize.Specs.{
  Signal, Spec, add_signals, string_set, domain_set, dimensions_ok, normalize_spec,
}
use trusted_ceo_agent.Analysis.Materialize.Merging.{
  spec_key, claim, join, file_spec, merge, check_related, relate, symmetric,
}
use trusted_ceo_agent.Analysis.Materialize.Building.{
  Setting, Documents, case_of, priority_of, build, merged_specs, materialize_signal_cases,
}
use trusted_ceo_agent.Analysis.Materialize.Documents.{materialize_exclusive}
use trusted_ceo_agent.Analysis.Materialize.Relations.{relates, symmetric_closure}
use trusted_ceo_agent.Analysis.Pipeline.{Has, materialized_run}

-- Functions in place of the digests, the hashes and the schema store.
abbrev docs : Documents
docs = record {
  case_digest = λ run_id revision spec. append spec.case_key "0123456789abcdef01234567";
  priority_digest = λ id policy dimensions. slice id 5 29;
  case_hash = λ c. "h";
  priority_hash = λ p. "p";
  case_ok = λ c. true;
  priority_ok = λ p. true;
  signal_ok = λ s. true;
}

abbrev setting : Setting
setting = record { run_id = "run_1"; base_revision = 3; priority_policy_ref = "policy" }

abbrev digest : Request → String
digest (leases worker expected) = "lease"
digest _ = "other"

abbrev signal : String → Signal
signal id = record {
  signal_id = id;
  producer = "deterministic_component";
  outcome = "triggered";
  bytes = id;
}

abbrev spec : String → List String → List String → Spec
spec key signals related = record {
  case_key = key;
  event_id = "event";
  signal_ids = signals;
  required_domain_routes = "tax" ∷ [];
  optional_domain_routes = "legal" ∷ "labor" ∷ [];
  related_case_keys = related;
  priority_dimensions = record {
    deterministic_risk = 40;
    amount_cash_impact = 10;
    legal_human_impact = 5;
    control_failure = 0;
    urgency = 50;
    data_sufficiency = 80;
    ceo_question_relevance = 20;
  };
}

abbrev signals : List Signal
signals = signal "s1" ∷ signal "s2" ∷ signal "s3" ∷ []

-- The first case is specified twice, and only the second one names the relation.
abbrev specs : List Spec
specs = spec "a" ("s1" ∷ []) [] ∷ spec "b" ("s3" ∷ []) ("a" ∷ []) ∷ spec "a" ("s2" ∷ []) [] ∷ []

abbrev merged_a : Spec
merged_a = record (spec "a" ("s1" ∷ "s2" ∷ []) ("b" ∷ [])) {
  optional_domain_routes = "labor" ∷ "legal" ∷ [];
}

abbrev merged_b : Spec
merged_b = record (spec "b" ("s3" ∷ []) ("a" ∷ [])) {
  optional_domain_routes = "labor" ∷ "legal" ∷ [];
}

test_merged : merged_specs docs setting signals specs ≡ ok (merged_a ∷ merged_b ∷ [])
unfolding merged_specs add_signals merge normalize_spec string_set domain_set dimensions_ok claim
    file_spec join check_related relate symmetric is_blank
test_merged = refl

abbrev cases : List SignalCase
cases =
    case_of docs setting merged_a ("case_b0123456789abcdef0123456" ∷ [])
    ∷ case_of docs setting merged_b ("case_a0123456789abcdef0123456" ∷ [])
    ∷ []

abbrev priorities : List PriorityRecord
priorities = priority_of docs setting merged_a ∷ priority_of docs setting merged_b ∷ []

test_materialize : materialize_signal_cases docs setting signals specs ≡ ok (cases, priorities)
unfolding materialize_signal_cases build merged_specs add_signals merge normalize_spec string_set
    domain_set dimensions_ok claim file_spec join check_related relate symmetric is_blank
    verify_case verify_priority
test_materialize = refl

abbrev start : Queue
start = record {
  cases = cases;
  history = map (λ (c : SignalCase). (c.case_id, c ∷ [])) cases;
  priorities = priorities;
  revision = 3;
  receipts = [];
}

test_create :
    create docs.case_hash docs.case_ok docs.priority_hash docs.priority_ok cases priorities
    ≡ ok start
unfolding create add_cases add_priorities verify_case verify_priority
test_create = refl

materialize_exclusive_example :
    (owner : String → Option String) × All
      (λ c. All (λ s. owner s ≡ some c.case_id) c.signal_ids)
      cases
materialize_exclusive_example =
    materialize_exclusive docs setting signals specs {cases = cases} {ps = priorities}
      test_materialize

abbrev calls : List (Request × String)
calls = (leases "worker" 3, "k1") ∷ (leases "other" 4, "k2") ∷ []

materialized_run_example :
    (total case_key active (run digest docs.case_hash docs.case_ok start calls).cases ≤ 1)
    × All IsProper (run digest docs.case_hash docs.case_ok start calls).cases
    × (owner : String → Option String) × All
        (Has owner)
        (run digest docs.case_hash docs.case_ok start calls).cases
materialized_run_example =
    materialized_run docs setting digest signals specs {cases = cases} {ps = priorities} {q = start}
      calls test_materialize test_create

-- The merged specifications before they are related to each other.
abbrev one_sided : List Spec
one_sided = record merged_a { related_case_keys = [] } ∷ merged_b ∷ []

test_one_sided : check_related (map spec_key one_sided) one_sided ≡ ok tt
unfolding check_related
test_one_sided = refl

symmetric_closure_example : relates (symmetric (map spec_key one_sided) one_sided) "a" "b" ≡ true
symmetric_closure_example = symmetric_closure one_sided "a" "b" test_one_sided
