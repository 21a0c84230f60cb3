-- ===== src/Workflow/Completion/Readiness.antt =====
-- What readiness for finalization rests on.
use trusted_ceo_agent.Prelude.{
  Bool, true, false, not, List, [], ◌∷◌, ◌≡◌, ◌≢◌, ◌↔◌, ◌&&◌, refl, ap, sym, ◌∙◌, String, ok, arith,
  All, filter, is_nil, Bool-cases, inl, inr,
}
use trusted_ceo_agent.Workflow.Completion.Findings.{is_counted, is_broken, finding_valid}
use trusted_ceo_agent.Workflow.Completion.Assessing.{
  Input, Case, Semantic, Assessment, assessment_of, assess_completion, semantic_of, not_ready,
  blocks_case, blocks_work, blocks_route, has_blockers, has_limit, limited_eligible, hard_failures,
  incomplete_gates, status_of, is_no_basis, is_unknown_basis,
}

none_left :
    {A : Type 0} (q : A → Bool) (P : A → Type 0) (xs : List A)
    → ((x : A) → q x ≡ false → P x)
    → is_nil (filter q xs) ≡ true
    → All P xs
none_left q P [] f h = tt
none_left q P (x ∷ xs) f h = elim (Bool-cases (q x)) [
  | inl e ↦ absurd (ground arith)
  | inr e ↦ (f x e, none_left q P xs f (ground arith))
]

some_left :
    {A : Type 0} (q : A → Bool) (P : A → Type 0) (xs : List A)
    → ((x : A) → P x → q x ≡ false)
    → All P xs
    → is_nil (filter q xs) ≡ true
some_left q P [] f h = refl
some_left q P (x ∷ xs) f h = rw (f x h.0) (some_left q P xs f h.1)

-- What the code asks of a run before it may end. A case has to be over, with a disposition that is
-- counted, only if it requires a materiality review; any other case may still be open. No case at all may
-- have failed or been cancelled, all required work has succeeded, all required routes have ended, all
-- findings are valid, nothing has failed hard and every gate is passed.
pub record IsFinishable (v : Input) : Type 0 where
  pub reviewed :
      All
        (λ c.
          c.materiality_review_required ≡ true
          → (c.ended ≡ true) × (is_counted c.disposition ≡ true))
        v.signal_cases
  pub unbroken : All (λ c. is_broken c.disposition ≡ false) v.signal_cases
  pub work : All (λ w. w.required ≡ true → w.succeeded ≡ true) v.work_items
  pub routes : All (λ r. r.required ≡ true → r.ended ≡ true) v.domain_routes
  pub valid : All (λ f. finding_valid f ≡ true) v.findings
  pub failures : hard_failures v ≡ []
  pub gates : incomplete_gates v.gates ≡ []

-- Whatever limits the result is one of the two bases and has been confirmed.
abbrev pub HasConfirmedLimits : Input → Type 0
HasConfirmedLimits v =
    has_limit v ≡ true
    → (is_no_basis v.limited_basis ≡ false) × (v.user_confirmed_limitations ≡ true)

is_nil-empty : {A : Type 0} (xs : List A) → is_nil xs ≡ true → xs ≡ []
is_nil-empty [] h = refl
is_nil-empty (x ∷ xs) h = absurd (ground arith)

unblocked-IsFinishable : (v : Input) → has_blockers v ≡ false → IsFinishable v
unfolding has_blockers
unblocked-IsFinishable v h = record {
  reviewed =
      none_left blocks_case _ v.signal_cases (λ c e r. (ground arith, ground arith)) (ground arith);
  unbroken = none_left blocks_case _ v.signal_cases (λ c e. ground arith) (ground arith);
  work = none_left blocks_work _ v.work_items (λ w e r. ground arith) (ground arith);
  routes = none_left blocks_route _ v.domain_routes (λ w e r. ground arith) (ground arith);
  valid = none_left (λ f. not (finding_valid f)) _ v.findings (λ f e. ground arith) (ground arith);
  failures = is_nil-empty (hard_failures v) (ground arith);
  gates = is_nil-empty (incomplete_gates v.gates) (ground arith);
}

unblocked_case :
    (c : Case)
    → (c.materiality_review_required ≡ true → (c.ended ≡ true) × (is_counted c.disposition ≡ true))
      × (is_broken c.disposition ≡ false)
    → blocks_case c ≡ false
unblocked_case c (review, sound) = elim (Bool-cases c.materiality_review_required) [
  | inl e ↦ let (over, counted) = review e in ground arith
  | inr e ↦ ground arith
]

All-zip :
    {A : Type 0} (P Q : A → Type 0) (xs : List A) → All P xs → All Q xs → All (λ x. P x × Q x) xs
All-zip P Q [] h k = tt
All-zip P Q (x ∷ xs) h k = ((h.0, k.0), All-zip P Q xs h.1 k.1)

IsFinishable-unblocked : (v : Input) → IsFinishable v → has_blockers v ≡ false
unfolding has_blockers
IsFinishable-unblocked v h =
    let cases =
      some_left blocks_case _ v.signal_cases unblocked_case
        (All-zip _ _ v.signal_cases h.reviewed h.unbroken) in
    let work = some_left blocks_work _ v.work_items (λ w k. asks w.required w.succeeded k) h.work in
    let routes =
      some_left blocks_route _ v.domain_routes (λ r k. asks r.required r.ended k) h.routes in
    let found = some_left (λ f. not (finding_valid f)) _ v.findings (λ f k. rw k refl) h.valid in
    rw (cases, work, routes, found, h.failures, h.gates) refl
  where
    asks : (required met : Bool) → (required ≡ true → met ≡ true) → (required && not met) ≡ false
    asks true met k = rw (k refl) refl
    asks false met k = refl

status-unblocked :
    (v : Input)
    → is_unknown_basis v.limited_basis ≡ false
    → (status_of v ≢ not_ready) ↔ ((has_blockers v ≡ false) × HasConfirmedLimits v)
unfolding status_of limited_eligible
status-unblocked v known = (
  λ h. elim (Bool-cases (has_blockers v)) [
    | inl b ↦ absurd (h (rw b refl))
    | inr b ↦ (
      b,
      λ l. elim (Bool-cases (limited_eligible v)) [
        | inl e ↦ (ground arith, ground arith)
        | inr e ↦ absurd (h (ground arith))
      ],
    )
  ],
  λ (free, confirmed) e. elim (Bool-cases (has_limit v)) [
    | inl l ↦ let (based, agreed) = confirmed l in absurd (ground arith)
    | inr l ↦ absurd (ground arith)
  ],
)

module _ (make_id : Semantic → String) (hash : String → Semantic → String)
    (schema_ok : Assessment → Bool) where
  -- An assessment that is made of a run says something else than `not_ready` if and only if the run is
  -- finishable (every case that requires a materiality review is over with a counted disposition, no case
  -- has failed or been cancelled, required work has succeeded, required routes have ended, all findings
  -- are valid, nothing has failed hard, every gate is passed) and its limits, if it has any, have a
  -- basis and are confirmed by the user. A case that requires no review may still be open.
  pub assess_completion-IsFinishable :
      (v : Input) {a : Assessment}
      → assess_completion make_id hash schema_ok v ≡ ok a
      → (a.semantic.status ≢ not_ready) ↔ (IsFinishable v × HasConfirmedLimits v)
  unfolding assess_completion semantic_of
  assess_completion-IsFinishable v {a} h =
      let made : assessment_of make_id hash schema_ok (semantic_of v) ≡ a = ground arith in
      let known : is_unknown_basis v.limited_basis ≡ false = ground arith in
      let at_status : status_of v ≡ a.semantic.status =
        ap (λ (b : Assessment). b.semantic.status) made in
      let (there, back) = status-unblocked v known in
      (
        λ ready.
            let (free, confirmed) = there (λ e. ready (sym at_status ∙ e)) in
            (unblocked-IsFinishable v free, confirmed),
        λ (finishable, confirmed) e.
            back (IsFinishable-unblocked v finishable, confirmed) (at_status ∙ e),
      )
