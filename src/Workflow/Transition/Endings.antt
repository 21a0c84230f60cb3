-- ===== src/Workflow/Transition/Endings.antt =====
-- Blocked runs, and the way back from them.
use trusted_ceo_agent.Prelude.{
  ℕ, true, false, ◌||◌, Option, none, some, List, [], ◌∷◌, ◌≡◌, ◌≢◌, refl, sym, ap, ◌∙◌, inl, inr,
  arith, Outcome, ok, raise, Bool-cases, Option-cases,
}
use trusted_ceo_agent.Workflow.States.{
  Status, Event, Context, State, is_terminal, blocked, resume, stop, cancel, integrity_failure,
}
use trusted_ceo_agent.Workflow.Rules.{table, rules_for, first_target}
use trusted_ceo_agent.Workflow.Transition.{
  TransitionError, transition, dispatch, enter, resume_blocked, after, run, is_blocked,
  same_revision,
}
use trusted_ceo_agent.Workflow.Transition.Gates.{by_table-enter, resume_blocked-resumes}

-- A blocked run knows a status to resume in, which is neither terminal nor `blocked`.
abbrev pub CanResume : Option Status → Type 0
CanResume o = (r : Status) × (o ≡ some r) × ((is_terminal r || is_blocked r) ≡ false)

abbrev pub IsResumable : State → Type 0
IsResumable s = s.status ≡ some blocked → CanResume s.resume_state

is_blocked_ne : (st : Status) → st ≢ blocked → is_blocked st ≡ false
is_blocked_ne blocked h = absurd (h refl)
is_blocked_ne _ h = refl

enter-IsResumable :
    (s t : State) (current : Status) (event : Event) (c : Context) (o : Option Status)
    → is_terminal current ≡ false
    → current ≢ blocked
    → enter s current event c o ≡ ok t
    → IsResumable t
unfolding enter
enter-IsResumable s t current event c none live free h = ground arith
enter-IsResumable s t current event c (some blocked) live free h =
    λ at. (current, ground arith, ground (arith, is_blocked_ne current free))
enter-IsResumable s t current event c (some _) live free h = λ at. absurd (ground arith)

dispatch-IsResumable :
    (s t : State) (current : Status) (event : Event) (c : Context)
    → is_terminal current ≡ false
    → dispatch s current event c ≡ ok t
    → IsResumable t
unfolding dispatch
dispatch-IsResumable s t current integrity_failure c live h = λ at. absurd (ground arith)
dispatch-IsResumable s t current cancel c live h = λ at. absurd (ground arith)
dispatch-IsResumable s t current stop c live h = λ at. absurd (ground arith)
dispatch-IsResumable s t blocked resume c live h =
    let (r, free, resumes, there) = resume_blocked-resumes s t c h in
    λ at. absurd (free (ground arith))
dispatch-IsResumable s t current event c live h =
    let (free, entered) = by_table-enter s t current event c h in
    enter-IsResumable s t current event c (first_target (rules_for table current event) c) live free
      entered

transition-IsResumable :
    (s t : State) (e : Event) (c : Context) → transition s e c ≡ ok t → IsResumable t
unfolding transition
transition-IsResumable s t e c h = elim (Option-cases s.status) [
  | inl none_there ↦ absurd (ground arith)
  | inr (current, at) ↦ elim (Bool-cases (is_terminal current)) [
    | inl over ↦ absurd (ground arith)
    | inr live ↦ dispatch-IsResumable s t current e c live (ground arith)
  ]
]

-- Whatever the events, a blocked run can be resumed: its `resume_state` is a status of the
-- workflow, not terminal and not `blocked`, if that held at the start.
pub run-IsResumable :
    (s : State) (es : List (Event × Context)) → IsResumable s → IsResumable (run s es)
unfolding run
run-IsResumable s [] h = h
run-IsResumable s ((e, c) ∷ es) h =
    run-IsResumable (after s (transition s e c)) es (kept (transition s e c) refl)
  where
    kept : (o : Outcome TransitionError State) → transition s e c ≡ o → IsResumable (after s o)
    kept (ok t) p = unfold after in transition-IsResumable s t e c p
    kept (raise x) p = unfold after in h

-- What a block and a resume leave: the document as it was, with the two fields of the block empty.
abbrev pub unblocked : State → State
unblocked s = record s { resume_state = none; blocker = none }

enter-blocked :
    (s t : State) (current : Status) (event : Event) (c : Context) (o : Option Status)
    → enter s current event c o ≡ ok t
    → t.status ≡ some blocked
    → (t.resume_state ≡ some current)
      × (unblocked t ≡ record (unblocked s) { status = some blocked })
unfolding enter
enter-blocked s t current event c none h at = absurd (ground arith)
enter-blocked s t current event c (some blocked) h at = ground arith
enter-blocked s t current event c (some _) h at = absurd (ground arith)

-- What a transition into `blocked` has kept of the document that it came from.
abbrev BlockedFrom : State → State → Type 0
BlockedFrom s t =
    (current : Status) × (s.status ≡ some current)
    × ((is_terminal current || is_blocked current) ≡ false)
    × (t.resume_state ≡ some current)
    × (unblocked t ≡ record (unblocked s) { status = some blocked })

dispatch-BlockedFrom :
    (s t : State) (current : Status) (event : Event) (c : Context)
    → s.status ≡ some current
    → is_terminal current ≡ false
    → dispatch s current event c ≡ ok t
    → t.status ≡ some blocked
    → BlockedFrom s t
unfolding dispatch
dispatch-BlockedFrom s t current integrity_failure c at live h b = absurd (ground arith)
dispatch-BlockedFrom s t current cancel c at live h b = absurd (ground arith)
dispatch-BlockedFrom s t current stop c at live h b = absurd (ground arith)
dispatch-BlockedFrom s t blocked resume c at live h b =
    let (r, free, resumes, there) = resume_blocked-resumes s t c h in absurd (free (ground arith))
dispatch-BlockedFrom s t current event c at live h b =
    let (free, entered) = by_table-enter s t current event c h in
    let (from, same) =
      enter-blocked s t current event c (first_target (rules_for table current event) c) entered
        b in
    (current, at, ground (arith, is_blocked_ne current free), from, same)

transition-BlockedFrom :
    (s t : State) (e : Event) (c : Context)
    → transition s e c ≡ ok t
    → t.status ≡ some blocked
    → BlockedFrom s t
unfolding transition
transition-BlockedFrom s t e c h b = elim (Option-cases s.status) [
  | inl none_there ↦ absurd (ground arith)
  | inr (current, at) ↦ elim (Bool-cases (is_terminal current)) [
    | inl over ↦ absurd (ground arith)
    | inr live ↦ dispatch-BlockedFrom s t current e c at live (ground arith) b
  ]
]

same_revision_refl : (r : Option ℕ) → same_revision r r ≡ true
same_revision_refl none = refl
same_revision_refl (some n) = ground arith

resume_lem :
    (t : State) (k : Context) (current : Status)
    → t.status ≡ some blocked
    → k.blocker_resolved ≡ true
    → same_revision k.expected_revision t.revision ≡ true
    → t.resume_state ≡ some current
    → (is_terminal current || is_blocked current) ≡ false
    → transition t resume k ≡ ok (record (unblocked t) { status = some current })
unfolding transition dispatch resume_blocked
resume_lem t k current b resolved agree from live = rw (b, not_over, resolved, agree, from, live)
  where
    not_over : is_terminal blocked ≡ false
    not_over = unfold is_terminal in refl

-- A transition that blocks a run is undone by `resume`, once the blocker is resolved and the
-- caller names the document's revision: status and all other fields are as they were, and the two
-- fields of the block are empty.
pub block_resume :
    (s t : State) (e : Event) (c k : Context)
    → transition s e c ≡ ok t
    → t.status ≡ some blocked
    → k.blocker_resolved ≡ true
    → k.expected_revision ≡ s.revision
    → transition t resume k ≡ ok (unblocked s)
block_resume s t e c k h b resolved current_revision =
    let (current, at, live, from, same) = transition-BlockedFrom s t e c h b in
    let fresh : k.expected_revision ≡ t.revision = ground arith in
    let agree : same_revision k.expected_revision t.revision ≡ true =
      rw fresh (same_revision_refl t.revision) in
    resume_lem t k current b resolved agree from live
    ∙ ap {A = State} (λ u. ok (record u { status = some current })) same
    ∙ ap {A = Option Status} (λ st. ok (record (unblocked s) { status = st })) (sym at)
