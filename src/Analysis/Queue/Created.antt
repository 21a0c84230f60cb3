-- ===== src/Analysis/Queue/Created.antt =====
-- What holds of the queue that `SignalCaseQueue.__init__` makes, and after any calls of its methods.
use mathlib.Core.List.{append_assoc, append-nil}
use trusted_ceo_agent.Prelude.{
  ℕ, ◌==◌, String, Bool, true, some, List, [], ◌∷◌, ◌++◌, map, ◌≡◌, refl, sym, ◌∙◌, subst, arith,
  all, All, All-snoc, inl, inr, ok, Bool-cases, Option-cases, Outcome-cases, str_eq,
}
use trusted_ceo_agent.Prelude.Keyed.{snoc-HasUniqueKeys, HasUniqueKeys}
use trusted_ceo_agent.Analysis.Cases.{
  SignalCase, PriorityRecord, verify_case, verify_priority, same_numbers, sort_vector_of,
}
use trusted_ceo_agent.Analysis.Queue.State.{Cases, case_key, get, history_of, Queue}
use trusted_ceo_agent.Analysis.Queue.History.{IsLogged}
use trusted_ceo_agent.Analysis.Queue.Choice.{IsStandard}
use trusted_ceo_agent.Analysis.Queue.Starting.{add_cases, add_priorities, create, is_paired}

same_numbers-eq : (xs ys : List ℕ) → same_numbers xs ys ≡ true → xs ≡ ys
same_numbers-eq [] [] h = refl
same_numbers-eq [] (y ∷ ys) h = absurd (ground arith)
same_numbers-eq (x ∷ xs) [] h = absurd (ground arith)
same_numbers-eq (x ∷ xs) (y ∷ ys) h = ground (arith, same_numbers-eq xs ys)

module _ (hash : SignalCase → String) (schema_ok : SignalCase → Bool)
    (priority_hash : PriorityRecord → String) (priority_ok : PriorityRecord → Bool) where
  add_cases-HasUniqueKeys :
      (raws cases : Cases) {r : Cases}
      → HasUniqueKeys case_key cases
      → add_cases hash schema_ok priority_hash priority_ok raws cases ≡ ok r
      → HasUniqueKeys case_key r × (r ≡ cases ++ raws)
  unfolding add_cases
  add_cases-HasUniqueKeys [] cases {r} h e =
      let same : cases ≡ r = ground arith in
      (subst (HasUniqueKeys case_key) same h, sym same ∙ sym (append-nil cases))
  add_cases-HasUniqueKeys (c ∷ raws) cases {r} h e =
      elim (Outcome-cases (verify_case hash schema_ok c)) [
        | inr (x, v) ↦ absurd (ground arith)
        | inl (x, v) ↦ elim (Option-cases (get c.case_id cases)) [
          | inr (d, n) ↦ absurd (ground arith)
          | inl n ↦
              let (unique, same) =
                add_cases-HasUniqueKeys raws (cases ++ c ∷ []) {r = r}
                  (snoc-HasUniqueKeys case_key c cases h n) (ground arith) in
              (unique, same ∙ append_assoc cases (c ∷ []) raws)
        ]
      ]

  verified-IsStandard :
      (p : PriorityRecord) {x : Unit {0}}
      → verify_priority priority_hash priority_ok p ≡ ok x
      → IsStandard p
  unfolding verify_priority
  verified-IsStandard p {x} h =
      elim (Bool-cases (same_numbers p.sort_vector (sort_vector_of p.dimensions))) [
        | inl e ↦ same_numbers-eq p.sort_vector (sort_vector_of p.dimensions) e
        | inr e ↦ absurd (ground arith)
      ]

  add_priorities-IsStandard :
      (cases : Cases) (raws ps : List PriorityRecord) {r : List PriorityRecord}
      → All IsStandard ps
      → add_priorities hash schema_ok priority_hash priority_ok cases raws ps ≡ ok r
      → All IsStandard r
  unfolding add_priorities
  add_priorities-IsStandard cases [] ps {r} h e =
      let same : ps ≡ r = ground arith in subst (All IsStandard) same h
  add_priorities-IsStandard cases (p ∷ raws) ps {r} h e =
      elim (Outcome-cases (verify_priority priority_hash priority_ok p)) [
        | inr (x, v) ↦ absurd (ground arith)
        | inl (x, v) ↦
            add_priorities-IsStandard cases raws (ps ++ p ∷ []) {r = r}
              (All-snoc IsStandard ps p h (verified-IsStandard p v)) (ground arith)
      ]

  logged_alone :
      (cases : Cases) (id : String) {c : SignalCase}
      → get id cases ≡ some c
      → history_of id (map (λ (d : SignalCase). (d.case_id, d ∷ [])) cases) ≡ some (c ∷ [])
  logged_alone [] id {c} h = absurd (ground arith)
  logged_alone (d ∷ cases) id {c} h = elim (Bool-cases (str_eq d.case_id id)) [
    | inl e ↦ let same : d ≡ c = ground arith in rw (e, same) refl
    | inr e ↦ rw e (logged_alone cases id {c = c} (ground arith))
  ]

  -- What `create` promises of the queue.
  pub record IsSound (raws : List SignalCase) (q : Queue) : Type 0 where
    pub kept : q.cases ≡ raws
    pub unique : HasUniqueKeys case_key q.cases
    pub logged : IsLogged hash q
    pub paired : all (is_paired q.priorities) q.cases ≡ true
    pub level : all (λ (d : SignalCase). d.base_revision == q.revision) q.cases ≡ true
    pub standard : All IsStandard q.priorities
    pub unused : q.receipts ≡ []

  -- A queue that `__init__` has accepted holds the given cases, with distinct ids; the history of each is a
  -- chain that ends in it; each names a priority record of its own, and all priority records
  -- have their dimensions in the policy's order as their vectors; and the queue's revision is the base
  -- revision of all of them.
  pub create-IsSound :
      (raws : List SignalCase) (records : List PriorityRecord) {q : Queue}
      → create hash schema_ok priority_hash priority_ok raws records ≡ ok q
      → IsSound raws q
  unfolding create
  create-IsSound [] records {q} h = absurd (ground arith)
  create-IsSound (c ∷ raws) records {q} h =
      elim (Outcome-cases (add_cases hash schema_ok priority_hash priority_ok (c ∷ raws) [])) [
        | inr (x, e) ↦ absurd (ground arith)
        | inl (cases, e) ↦
            elim (Outcome-cases
              (add_priorities hash schema_ok priority_hash priority_ok cases records [])) [
                | inr (x, f) ↦ absurd (ground arith)
                | inl (ps, f) ↦
                    let (unique, same) = add_cases-HasUniqueKeys (c ∷ raws) [] {r = cases} tt e in
                    let made : Queue = record {
                      cases = cases;
                      history = map (λ (d : SignalCase). (d.case_id, d ∷ [])) cases;
                      priorities = ps;
                      revision = c.base_revision;
                      receipts = [];
                    } in
                    let q_made : made ≡ q = ground arith in
                    let pairs : all (is_paired ps) cases ≡ true = ground arith in
                    let levels : all (λ (d : SignalCase). d.base_revision == c.base_revision) cases
                        ≡ true =
                      ground arith in
                    subst (IsSound (c ∷ raws)) q_made (record {
                      kept = same;
                      unique = unique;
                      logged = λ id d got. (d ∷ [], logged_alone cases id {c = d} got, refl);
                      paired = pairs;
                      level = levels;
                      standard = add_priorities-IsStandard cases records [] {r = ps} tt f;
                      unused = refl;
                    })
              ]
      ]
