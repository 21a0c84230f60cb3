-- ===== src/Orchestration/Budget/Coverage.antt =====
-- The budget assessment accounts for every unfinished item.
use trusted_ceo_agent.Prelude.{
  ℕ, String, Bool, true, false, ◌&&◌, ◌||◌, not, Option, List, [], ◌∷◌, ◌++◌, ◌≡◌, refl, ap, ◌∙◌,
  subst, arith, inl, inr, All, All-unsort, filter, sort, insert_sorted, str_le, str_eq, str_eq_refl,
  contains, leb, is_nil, if◌then◌else◌, Bool-cases, ok,
}
use trusted_ceo_agent.Orchestration.Items.{WorkItem, Items, is_live}
use trusted_ceo_agent.Orchestration.Budget.{
  Policy, PolicyBody, Assessment, AssessmentStatus, ids, unfinished, required_of, optional_of,
  selected_families, by_task_id, assess_items, assess_work_budget,
}

contains-insert_sorted :
    (a : String) (xs : List String) (s : String)
    → contains (insert_sorted str_le a xs) s ≡ contains (a ∷ xs) s
contains-insert_sorted a [] s = refl
contains-insert_sorted a (x ∷ xs) s = ground (arith, contains-insert_sorted a xs s)

contains-sort : (xs : List String) (s : String) → contains (sort str_le xs) s ≡ contains xs s
contains-sort [] s = refl
contains-sort (x ∷ xs) s =
    contains-insert_sorted x (sort str_le xs) s ∙ ap (λ b. str_eq x s || b) (contains-sort xs s)

contains-++ :
    (xs ys : List String) (s : String) → contains (xs ++ ys) s ≡ (contains xs s || contains ys s)
contains-++ [] ys s = refl
contains-++ (x ∷ xs) ys s = ground (arith, contains-++ xs ys s)

All-imp :
    (P Q : WorkItem → Type 0) (xs : Items) → ((x : WorkItem) → P x → Q x) → All P xs → All Q xs
All-imp P Q [] f h = tt
All-imp P Q (x ∷ xs) f h = (f x h.0, All-imp P Q xs f h.1)

ids-filter :
    (q : WorkItem → Bool) (xs : Items)
    → All (λ y. q y ≡ true → contains (ids (filter q xs)) y.task_id ≡ true) xs
ids-filter q [] = tt
ids-filter q (x ∷ xs) = (
  λ kept. ground (arith, str_eq_refl x.task_id),
  All-imp _ _ xs (λ y found kept. ground (arith, found kept)) (ids-filter q xs),
)

unfiltered :
    (P : WorkItem → Type 0) (q : WorkItem → Bool) (xs : Items)
    → All P (filter q xs)
    → All (λ x. q x ≡ true → P x) xs
unfiltered P q [] h = tt
unfiltered P q (x ∷ xs) h = go (unfiltered P q xs) (q x) refl h
  where
    go :
        (All P (filter q xs) → All (λ y. q y ≡ true → P y) xs)
        → (b : Bool) → q x ≡ b
        → All P (if b then x ∷ filter q xs else filter q xs)
        → All (λ y. q y ≡ true → P y) (x ∷ xs)
    go ih true e k = (λ kept. k.0, ih k.1)
    go ih false e k = (λ kept. absurd (ground arith), ih k)

All-both : (P Q : WorkItem → Type 0) (xs : Items) → All P xs → All Q xs → All (λ x. P x × Q x) xs
All-both P Q [] h k = tt
All-both P Q (x ∷ xs) h k = ((h.0, k.0), All-both P Q xs h.1 k.1)

-- Where an assessment names an item.
pub record IsAccounted (a : Assessment) (x : WorkItem) : Type 0 where
  pub required : x.required ≡ true → contains a.required_task_ids x.task_id ≡ true
  pub scheduled :
      x.required ≡ true
      → a.status ≡ AssessmentStatus.ready
      → contains a.scheduled_task_ids x.task_id ≡ true
  pub optional :
      x.required ≡ false
      → (contains a.scheduled_task_ids x.task_id || contains a.deferred_optional_task_ids x.task_id)
        ≡ true

contains-schedule :
    (xs ys : List String) (s : String)
    → contains (sort str_le (sort str_le xs ++ sort str_le ys)) s ≡ (contains xs s || contains ys s)
contains-schedule xs ys s =
    rw
      (
        contains-sort (sort str_le xs ++ sort str_le ys) s,
        contains-++ (sort str_le xs) (sort str_le ys) s,
        contains-sort xs s,
        contains-sort ys s,
      )
      refl

module _ (p : Policy) (elapsed : ℕ) (xs : Items) where
  abbrev chosen : WorkItem → Bool
  chosen x = contains (selected_families p (optional_of xs)) x.issue_family

  abbrev over : Bool
  over = leb p.case_timeout elapsed && not (is_nil (sort str_le (ids (required_of xs))))

  -- Where the lists that the assessment sorts name an item.
  abbrev IsListed : WorkItem → Type 0
  IsListed x =
      (x.required ≡ true → contains (ids (required_of xs)) x.task_id ≡ true)
      × ((not x.required ≡ true → contains (ids (optional_of xs)) x.task_id ≡ true)
          × ((not x.required ≡ true
                → chosen x ≡ true
                → contains (ids (filter chosen (optional_of xs))) x.task_id ≡ true)
              × (not x.required ≡ true
                  → not (chosen x) ≡ true
                  → contains (ids (filter (λ y. not (chosen y)) (optional_of xs))) x.task_id
                    ≡ true)))

  listed : All IsListed xs
  listed = All-both _ _ xs (ids-filter (λ x. x.required) xs) (
      All-both _ _ xs (ids-filter (λ x. not x.required) xs) (
        All-both _ _ xs (unfiltered _ (λ x. not x.required) xs (ids-filter chosen (optional_of xs)))
          (unfiltered _ (λ x. not x.required) xs
            (ids-filter (λ x. not (chosen x)) (optional_of xs)))))

  accounted : (x : WorkItem) → IsListed x → IsAccounted (assess_items p elapsed xs) x
  unfolding assess_items
  accounted x h = elim (Bool-cases over) [
    | inl e ↦ rw e (record {
      required = λ r. contains-sort (ids (required_of xs)) x.task_id ∙ h.0 r;
      scheduled = λ r ready. absurd (ground arith);
      optional = λ n. contains-sort (ids (optional_of xs)) x.task_id ∙ h.1.0 (ap not n);
    })
    | inr e ↦ rw e (record {
      required = λ r. contains-sort (ids (required_of xs)) x.task_id ∙ h.0 r;
      scheduled = λ r ready.
          contains-schedule (ids (required_of xs)) (ids (filter chosen (optional_of xs))) x.task_id
          ∙ rw (h.0 r) refl;
      optional = λ n. elim (Bool-cases (chosen x)) [
        | inl c ↦ ground (
          arith,
          contains-schedule (ids (required_of xs)) (ids (filter chosen (optional_of xs))) x.task_id,
          h.1.1.0 (ap not n) c,
        )
        | inr c ↦ ground (
          arith,
          contains-sort (ids (filter (λ y. not (chosen y)) (optional_of xs))) x.task_id,
          h.1.1.1 (ap not n) (ap not c),
        )
      ];
    })
  ]

module _ (fromisoformat : String → Option Bool) (digest : PolicyBody → String)
    (schema_ok : Policy → Bool) where
  -- An assessment that `assess_work_budget` returns leaves out no unfinished item: a required one is
  -- among the required ids, and scheduled where the status is `ready`; an optional one is scheduled
  -- or deferred.
  pub assess_work_budget-IsAccounted :
      (p : Policy) (items : Items) (elapsed : ℕ) {a : Assessment}
      → assess_work_budget fromisoformat digest schema_ok p items elapsed ≡ ok a
      → All (λ x. is_live x.status ≡ true → IsAccounted a x) items
  unfolding assess_work_budget
  assess_work_budget-IsAccounted p items elapsed {a} h =
      let same : assess_items p elapsed (unfinished items) ≡ a = ground arith in
      let found =
        All-imp _ (IsAccounted (assess_items p elapsed (unfinished items))) (unfinished items)
          (accounted p elapsed (unfinished items)) (listed p elapsed (unfinished items)) in
      subst (λ b. All (λ x. is_live x.status ≡ true → IsAccounted b x) items) same
        (All-unsort _ by_task_id items (
          unfiltered (IsAccounted (assess_items p elapsed (unfinished items)))
            (λ x. is_live x.status) (sort by_task_id items) found))
