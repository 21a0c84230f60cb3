-- ===== src/Workflow/Transition/Gates.antt =====
-- Which event lets a run pass into a region of statuses. A blocked run counts as being where it
-- resumes.
use mathlib.Core.List.{Memᴰ}
use trusted_ceo_agent.Prelude.{
  Bool, true, false, Option, none, some, List, [], ◌∷◌, ◌≡◌, ◌≢◌, ◌⊎◌, refl, sym, ap, subst, inl,
  inr, arith, All, Outcome, ok, raise, Bool-cases, Option-cases,
}
use mathlib.Core.Logic.{if_pos, if_neg}
use trusted_ceo_agent.Workflow.States.{
  Status, Event, Context, State, Status-discrete, Event-discrete, blocked, failed, cancelled,
  stopped_by_human, resume, integrity_failure, cancel, stop,
}
use trusted_ceo_agent.Workflow.Rules.{Rule, Entry, table, rules_for, first_target}
use trusted_ceo_agent.Workflow.Transition.{
  TransitionError, invalid_event, transition, dispatch, by_table, enter, resume_blocked, after, run,
}

abbrev pub resolve : Option Status → Option Status → Option Status
resolve (some blocked) resumes = resumes
resolve st resumes = st

abbrev pub effective : State → Option Status
effective s = resolve s.status s.resume_state

resolve_ne :
    (st : Status) (resumes : Option Status) → st ≢ blocked → resolve (some st) resumes ≡ some st
resolve_ne blocked resumes h = absurd (h refl)
resolve_ne _ resumes h = refl

no_rules-blocked : (event : Event) → rules_for table blocked event ≡ []
unfolding rules_for Status-discrete
no_rules-blocked event = refl

pub by_table-enter :
    (s t : State) (current : Status) (event : Event) (c : Context)
    → by_table s current event c ≡ ok t
    → (current ≢ blocked)
      × (enter s current event c (first_target (rules_for table current event) c) ≡ ok t)
unfolding by_table
by_table-enter s t current event c h = (not_blocked, entered (rules_for table current event) h)
  where
    of_rules : List Rule → Outcome TransitionError State
    of_rules rs = elim rs [
      | [] ↦ raise invalid_event
      | r ∷ rest ↦ enter s current event c (first_target (r ∷ rest) c)
    ]

    entered :
        (rs : List Rule) → of_rules rs ≡ ok t → enter s current event c (first_target rs c) ≡ ok t
    entered [] e = ground arith
    entered (r ∷ rest) e = e

    not_blocked : current ≢ blocked
    not_blocked e =
        let none_there : rules_for table current event ≡ [] = rw e (no_rules-blocked event) in
        ground arith

abbrev pub inside : (Status → Bool) → Option Status → Bool
inside R none = false
inside R (some st) = R st

pub resume_blocked-resumes :
    (s t : State) (c : Context)
    → resume_blocked s c ≡ ok t
    → (r : Status) × (r ≢ blocked) × (s.resume_state ≡ some r) × (t.status ≡ some r)
unfolding resume_blocked
resume_blocked-resumes s t c h = elim (Option-cases s.resume_state) [
  | inl e ↦ absurd (ground arith)
  | inr (r, e) ↦ (r, (λ p. ground arith), e, ground arith)
]

-- `X` is asked of a step from outside (`false`) to inside (`true`), and nothing of any other.
abbrev pub Crossing : Bool → Bool → Type 0 → Type 0
Crossing false true X = X
Crossing _ _ X = Unit {0}

crossed : (a b : Bool) (X : Type 0) → Crossing a b X → a ≡ false → b ≡ true → X
crossed false true X h p q = h
crossed true true X h p q = absurd (ground arith)
crossed _ false X h p q = absurd (ground arith)

module _ (R : Status → Bool) (gate : Event) (G : Context → Bool) where
  -- The rule does not pass into the region, or it is the gate's and its guard asks for `G`.
  abbrev pub RuleOk : Status → Event → Rule → Type 0
  RuleOk source event r =
      Crossing (R source) (R r.target)
        ((event ≡ gate) × ((c : Context) → r.guard c ≡ true → G c ≡ true))

  abbrev pub EntryOk : Entry → Type 0
  EntryOk e = All (RuleOk e.source e.event) e.rules

  rules_for-RuleOk :
      (es : List Entry) (current : Status) (event : Event)
      → All EntryOk es
      → All (RuleOk current event) (rules_for es current event)
  unfolding rules_for
  rules_for-RuleOk [] current event h = tt
  rules_for-RuleOk (e ∷ es) current event h = elim (Status-discrete e.source current) [
    | yes p ↦ elim (Event-discrete e.event event) [
      | yes q ↦
          rw (if_pos _ p, if_pos _ q)
            (subst (λ st. All (RuleOk st event) e.rules) p
              (subst (λ ev. All (RuleOk e.source ev) e.rules) q h.0))
      | no q ↦ rw (if_pos _ p, if_neg _ q) (rules_for-RuleOk es current event h.1)
    ]
    | no p ↦ rw (if_neg _ p) (rules_for-RuleOk es current event h.1)
  ]

  first_target-RuleOk :
      (rs : List Rule) (source : Status) (event : Event) (c : Context) (t : Status)
      → All (RuleOk source event) rs
      → first_target rs c ≡ some t
      → R source ≡ false
      → R t ≡ true
      → (event ≡ gate) × (G c ≡ true)
  unfolding first_target
  first_target-RuleOk [] source event c t h e out into = ground arith
  first_target-RuleOk (r ∷ rs) source event c t h e out into = elim (Bool-cases (r.guard c)) [
    | inl g ↦
        let same : r.target ≡ t = ground arith in
        let (at_gate, asks) =
          crossed (R source) (R r.target) _ h.0 out (subst (λ st. R st ≡ true) (sym same) into) in
        (at_gate, asks c g)
    | inr g ↦ first_target-RuleOk rs source event c t h.1 (ground arith) out into
  ]

  -- What the section's theorems ask of the region: the table passes into it only by the gate, and
  -- no other branch of `transition` does.
  pub record IsGuarded : Type 0 where
    pub entries : All EntryOk table
    pub not_blocked : R blocked ≡ false
    pub not_failed : R failed ≡ false
    pub not_cancelled : R cancelled ≡ false
    pub not_stopped : R stopped_by_human ≡ false

  enter-effective :
      (s t : State) (current : Status) (event : Event) (c : Context) (o : Option Status)
      → enter s current event c o ≡ ok t
      → (effective t ≡ some current) ⊎ ((effective t ≡ o) × (o ≢ none))
  unfolding enter
  enter-effective s t current event c none h = ground arith
  enter-effective s t current event c (some blocked) h = inl (ground arith)
  enter-effective s t current event c (some _) h = inr (ground arith)

  by_table-gate :
      (s t : State) (current : Status) (event : Event) (c : Context)
      → IsGuarded
      → s.status ≡ some current
      → by_table s current event c ≡ ok t
      → inside R (effective s) ≡ false
      → inside R (effective t) ≡ true
      → (event ≡ gate) × (G c ≡ true)
  by_table-gate s t current event c guarded at h out into =
      let (free, entered) = by_table-enter s t current event c h in
      let here : effective s ≡ some current = rw at (resolve_ne current s.resume_state free) in
      let outside : R current ≡ false = rw here at out in
      elim (enter-effective s t current event c (first_target (rules_for table current event) c)
        entered) [
          | inl stays ↦ ground (arith, stays)
          | inr (moved, found) ↦
              elim (Option-cases (first_target (rules_for table current event) c)) [
                | inl e ↦ absurd (found e)
                | inr (target, e) ↦
                    first_target-RuleOk (rules_for table current event) current event c target
                      (rules_for-RuleOk table current event guarded.entries) e outside
                      (rw (moved, e) at into)
              ]
        ]

  resume_blocked-gate :
      (s t : State) (c : Context)
      → s.status ≡ some blocked
      → resume_blocked s c ≡ ok t
      → inside R (effective s) ≡ false
      → inside R (effective t) ≡ true
      → ⊥
  resume_blocked-gate s t c at h out into =
      let (r, free, resumes, there) = resume_blocked-resumes s t c h in
      let after_it : effective t ≡ some r = rw there (resolve_ne r t.resume_state free) in
      let before_it : effective s ≡ some r = rw at resumes in ground (arith, after_it, before_it)

  dispatch-gate :
      (s t : State) (current : Status) (event : Event) (c : Context)
      → IsGuarded
      → s.status ≡ some current
      → dispatch s current event c ≡ ok t
      → inside R (effective s) ≡ false
      → inside R (effective t) ≡ true
      → (event ≡ gate) × (G c ≡ true)
  unfolding dispatch
  dispatch-gate s t current integrity_failure c g at h out into =
      absurd (ground (arith, g.not_failed))
  dispatch-gate s t current cancel c g at h out into = absurd (ground (arith, g.not_cancelled))
  dispatch-gate s t current stop c g at h out into = absurd (ground (arith, g.not_stopped))
  dispatch-gate s t blocked resume c g at h out into =
      absurd (resume_blocked-gate s t c at h out into)
  dispatch-gate s t current event c g at h out into =
      by_table-gate s t current event c g at h out into

  transition-gate :
      (s t : State) (event : Event) (c : Context)
      → IsGuarded
      → transition s event c ≡ ok t
      → inside R (effective s) ≡ false
      → inside R (effective t) ≡ true
      → (event ≡ gate) × (G c ≡ true)
  unfolding transition
  transition-gate s t event c g h out into = elim (Option-cases s.status) [
    | inl e ↦ absurd (ground arith)
    | inr (current, e) ↦ dispatch-gate s t current event c g e (ground arith) out into
  ]

  -- A run that begins outside the region and ends inside it has had the gate's event, in a
  -- context that the gate's guard accepts.
  pub run-gate :
      (s : State) (es : List (Event × Context))
      → IsGuarded
      → inside R (effective s) ≡ false
      → inside R (effective (run s es)) ≡ true
      → (c : Context) × Memᴰ (gate, c) es × (G c ≡ true)
  unfolding run after
  run-gate s [] g out into = absurd (ground arith)
  run-gate s ((e, c) ∷ es) g out into = go (λ u. run-gate u es g) (transition s e c) refl into
    where
      Found : List (Event × Context) → Type 0
      Found l = (k : Context) × Memᴰ (gate, k) l × (G k ≡ true)

      later : Found es → Found ((e, c) ∷ es)
      later (k, m, asks) = (k, Memᴰ.tail m, asks)

      go :
          ((u : State)
            → inside R (effective u) ≡ false
            → inside R (effective (run u es)) ≡ true
            → Found es)
          → (o : Outcome TransitionError State) → transition s e c ≡ o
          → inside R (effective (run (after s o) es)) ≡ true
          → Found ((e, c) ∷ es)
      go ih (raise x) p i = later (ih s out i)
      go ih (ok t) p i = elim (Bool-cases (inside R (effective t))) [
        | inl entered ↦
            let (at_gate, asks) = transition-gate s t e c g p out entered in
            (c, Memᴰ.head (ap {B = Event × Context} (λ x. (x, c)) (sym at_gate)), asks)
        | inr still_out ↦ later (ih t still_out i)
      ]
