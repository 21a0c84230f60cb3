-- ===== src/Analysis/Materialize/Documents.antt =====
-- What `materialize_signal_cases` returns, and the queue that it is given to.
use trusted_ceo_agent.Prelude.{
  String, Bool, not, Option, none, some, List, [], ◌∷◌, map, ◌≡◌, refl, subst, arith, All,
  All-weaken, All-sort, ok, check, bind-ok, sort, str_le, is_nil, starts_with,
}
use trusted_ceo_agent.Prelude.Keyed.{get_by_own, get_by-All, sort-HasUniqueKeys}
use trusted_ceo_agent.Analysis.Cases.{
  queued, SignalCase, PriorityRecord, text, verify_case, verify_priority, no_signals, no_specs,
  bad_run_id,
}
use trusted_ceo_agent.Analysis.Materialize.Specs.{Signal, Spec, add_signals}
use trusted_ceo_agent.Analysis.Materialize.Merging.{
  Specs, spec_key, get_spec, Owners, owner_of, merge, check_related, symmetric,
}
use trusted_ceo_agent.Analysis.Materialize.Exclusive.{
  Owned, IsFiled, merge-IsFiled, symmetric-IsFiled,
}
use trusted_ceo_agent.Analysis.Materialize.Building.{
  Setting, Documents, case_id_of, related_ids, priority_of, case_of, build, merged_specs,
  materialize_signal_cases,
}

-- A case that nothing has happened to.
pub record IsNew (c : SignalCase) : Type 0 where
  pub waiting : c.status ≡ queued
  pub first : (c.current_stage ≡ 1) × (c.case_revision ≡ 0)
  pub free : c.lease_owner ≡ none
  pub undecided : c.disposition ≡ none
  pub without : c.finding_ref ≡ none

module _ (docs : Documents) (setting : Setting) where
  -- What holds of each case that is built of a specification holds of all of them.
  build-All :
      (P : Spec → Type 0) (Q : SignalCase → Type 0)
      → ((spec : Spec) (related : List String) → P spec → Q (case_of docs setting spec related))
      → (merged specs : Specs) {made : List (SignalCase × PriorityRecord)} → All P specs
      → build docs setting merged specs ≡ ok made
      → All Q (map (λ (p : SignalCase × PriorityRecord). p.0) made)
  unfolding build
  build-All P Q each merged [] {made} h e =
      let same : [] ≡ made = ground arith in
      subst (λ m. All Q (map (λ (p : SignalCase × PriorityRecord). p.0) m)) same tt
  build-All P Q each merged (spec ∷ specs) {made} h e =
      let (x, f, e1) =
        bind-ok
          (verify_priority docs.priority_hash docs.priority_ok (priority_of docs setting spec)) _
          {b = made} e in
      let (related, g, e2) =
        bind-ok (related_ids docs setting merged spec.related_case_keys) _ {b = made} e1 in
      let (y, k, e3) =
        bind-ok (verify_case docs.case_hash docs.case_ok (case_of docs setting spec related)) _
          {b = made} e2 in
      let (rest, l, e4) = bind-ok (build docs setting merged specs) _ {b = made} e3 in
      let same : (case_of docs setting spec related, priority_of docs setting spec) ∷ rest ≡ made =
        ground arith in
      subst (λ m. All Q (map (λ (p : SignalCase × PriorityRecord). p.0) m)) same
        (each spec related h.0, build-All P Q each merged specs {made = rest} h.1 l)

  -- The merged specifications have distinct keys, and an owner for each signal.
  merged_specs-IsFiled :
      (signals : List Signal) (specs : List Spec) {ms : Specs}
      → merged_specs docs setting signals specs ≡ ok ms
      → (owners : Owners) × IsFiled owners ms
  unfolding merged_specs
  merged_specs-IsFiled signals specs {ms} h =
      let (known, e, h1) = bind-ok (add_signals docs.signal_ok signals []) _ {b = ms} h in
      let (both, f, h2) = bind-ok (merge known specs [] []) _ {b = ms} h1 in
      let (x, g, h3) = bind-ok (check_related (map spec_key both.0) both.0) _ {b = ms} h2 in
      let filed = merge-IsFiled known specs [] [] {r = both} (tt, tt) f in
      let (unique, owned) = symmetric-IsFiled both.1 (map spec_key both.0) both.0 filed in
      let le : Spec → Spec → Bool = λ a b. str_le a.case_key b.case_key in
      let all_specs = symmetric (map spec_key both.0) both.0 in
      let same : sort le all_specs ≡ ms = ground arith in
      (
        both.1,
        subst (IsFiled both.1) same (
          sort-HasUniqueKeys spec_key le all_specs unique,
          All-sort (Owned both.1) le all_specs owned,
        ),
      )

  -- The case that has a signal.
  abbrev case_of_signal : Owners → Specs → String → Option String
  case_of_signal owners ms s = elim (owner_of s owners) [
    | none ↦ none
    | some k ↦ elim (get_spec k ms) [
      | none ↦ none
      | some spec ↦ some (case_id_of docs setting spec)
    ]
  ]

  case_of_signal_lem :
      (owners : Owners) (ms : Specs) (s : String) (spec : Spec)
      → get_spec spec.case_key ms ≡ some spec
      → owner_of s owners ≡ some spec.case_key
      → case_of_signal owners ms s ≡ some (case_id_of docs setting spec)
  case_of_signal_lem owners ms s spec found own = ground arith

  abbrev case_le : SignalCase → SignalCase → Bool
  case_le c d = str_le c.case_id d.case_id

  -- The cases are those of merged specifications with distinct keys and one owner for each signal.
  record IsMade (cases : List SignalCase) : Type 1 where
    merged : Specs
    owners : Owners
    filed : IsFiled owners merged
    cases-All :
        (Q : SignalCase → Type 0)
        → ((spec : Spec) (related : List String)
            → get_spec spec.case_key merged ≡ some spec
            → Q (case_of docs setting spec related))
        → All Q cases

  materialize-IsMade :
      (signals : List Signal) (specs : List Spec) {cases : List SignalCase}
      {ps : List PriorityRecord}
      → materialize_signal_cases docs setting signals specs ≡ ok (cases, ps)
      → IsMade cases
  unfolding materialize_signal_cases
  materialize-IsMade signals specs {cases} {ps} h =
      let goal : List SignalCase × List PriorityRecord = (cases, ps) in
      let (x, e, h1) = bind-ok (text setting.run_id) _ {b = goal} h in
      let (x2, e2, h2) =
        bind-ok (check (starts_with setting.run_id "run_") bad_run_id) _ {b = goal} h1 in
      let (x3, e3, h3) = bind-ok (text setting.priority_policy_ref) _ {b = goal} h2 in
      let (x4, e4, h4) = bind-ok (check (not (is_nil signals)) no_signals) _ {b = goal} h3 in
      let (x5, e5, h5) = bind-ok (check (not (is_nil specs)) no_specs) _ {b = goal} h4 in
      let (ms, f, h6) = bind-ok (merged_specs docs setting signals specs) _ {b = goal} h5 in
      let (made, g, h7) = bind-ok (build docs setting ms ms) _ {b = goal} h6 in
      let (owners, filed) = merged_specs-IsFiled signals specs {ms = ms} f in
      let found = get_by_own spec_key ms filed.0 in
      let same : sort case_le (map (λ (p : SignalCase × PriorityRecord). p.0) made) ≡ cases =
        ground arith in
      record {
        merged = ms;
        owners = owners;
        filed = filed;
        cases-All = λ Q each. subst (All Q) same (
            All-sort Q case_le (map (λ (p : SignalCase × PriorityRecord). p.0) made) (
              build-All (λ spec. get_spec spec.case_key ms ≡ some spec) Q each ms ms {made = made}
                found g));
      }

  -- Where cases are materialized, each signal stands in the cases of one id only: what a case lists, the
  -- given function sends to the case.
  pub materialize_exclusive :
      (signals : List Signal) (specs : List Spec) {cases : List SignalCase}
      {ps : List PriorityRecord}
      → materialize_signal_cases docs setting signals specs ≡ ok (cases, ps)
      → (owner : String → Option String) × All
          (λ c. All (λ s. owner s ≡ some c.case_id) c.signal_ids)
          cases
  materialize_exclusive signals specs {cases} {ps} h =
      let made = materialize-IsMade signals specs {cases = cases} {ps = ps} h in
      (
        case_of_signal made.owners made.merged,
        made.cases-All
            (λ c. All (λ s. case_of_signal made.owners made.merged s ≡ some c.case_id) c.signal_ids)
            (λ spec related found.
              All-weaken (λ s. case_of_signal_lem made.owners made.merged s spec found)
                spec.signal_ids
                (get_by-All spec_key (Owned made.owners) spec.case_key made.merged {c = spec}
                  made.filed.1 found)),
      )

  pub materialize-IsNew :
      (signals : List Signal) (specs : List Spec) {cases : List SignalCase}
      {ps : List PriorityRecord}
      → materialize_signal_cases docs setting signals specs ≡ ok (cases, ps)
      → All IsNew cases
  materialize-IsNew signals specs {cases} {ps} h =
      (materialize-IsMade signals specs {cases = cases} {ps = ps} h).cases-All IsNew
        (λ spec related found. record {
          waiting = refl;
          first = (refl, refl);
          free = refl;
          undecided = refl;
          without = refl;
        })
