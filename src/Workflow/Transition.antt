-- ===== src/Workflow/Transition.antt =====
-- workflow/state_machine.py: `transition`.
pub mod Gates
pub mod Approvals
pub mod Endings
pub mod Progress
pub mod Finals
mod Tests
use trusted_ceo_agent.Prelude.{
  ℕ, String, Bool, true, false, ◌&&◌, ◌||◌, not, Option, none, some, List, [], ◌∷◌, ◌==◌,
  if◌then◌else◌, Outcome, ok, raise,
}
use trusted_ceo_agent.Workflow.States.{
  Status, Event, Context, State, Blocker, named, by_event, is_terminal, failed, cancelled,
  stopped_by_human, blocked, resume, integrity_failure, cancel, stop,
}
use trusted_ceo_agent.Workflow.Rules.{table, rules_for, first_target}

-- One constructor for each `raise ContractError`.
pub data TransitionError : Type 0 where
  unknown_state terminal_state blocker_unresolved resume_stale no_resume_state : TransitionError
  invalid_event guard_rejected : TransitionError

abbrev same_revision : Option ℕ → Option ℕ → Bool
same_revision none none = true
same_revision (some a) (some b) = a == b
same_revision _ _ = false

abbrev is_blocked : Status → Bool
is_blocked blocked = true
is_blocked _ = false

abbrev reason_or_default : Option String → String
reason_or_default none = "integrity_failure"
reason_or_default (some r) = r

abbrev blocker_or_event : Option String → Event → Blocker
blocker_or_event none e = by_event e
blocker_or_event (some b) e = named b

-- `current == "blocked" and event == "resume"`.
pub resume_blocked : State → Context → Outcome TransitionError State
resume_blocked s c =
    if not c.blocker_resolved
    then raise blocker_unresolved
    else if not (same_revision c.expected_revision s.revision)
    then raise resume_stale
    else elim s.resume_state [
      | none ↦ raise no_resume_state
      | some r ↦
          if is_terminal r || is_blocked r
          then raise no_resume_state
          else ok (record s { status = some r; resume_state = none; blocker = none })
    ]

-- The end of the loop over the rules: the new document, or the guard's refusal.
pub enter : State → Status → Event → Context → Option Status → Outcome TransitionError State
enter s current event c none = raise guard_rejected
enter s current event c (some blocked) = ok (record s {
  status = some blocked;
  resume_state = some current;
  blocker = some (blocker_or_event c.blocker event);
})
enter s current event c (some target) = ok (record s { status = some target })

pub by_table : State → Status → Event → Context → Outcome TransitionError State
by_table s current event c = elim (rules_for table current event) [
  | [] ↦ raise invalid_event
  | r ∷ rs ↦ enter s current event c (first_target (r ∷ rs) c)
]

-- The branches on the event, in the source's order.
pub dispatch : State → Status → Event → Context → Outcome TransitionError State
dispatch s current integrity_failure c =
    ok (record s { status = some failed; failure_reason = some (reason_or_default c.reason) })
dispatch s current cancel c = ok (record s { status = some cancelled })
dispatch s current stop c = ok (record s { status = some stopped_by_human })
dispatch s blocked resume c = resume_blocked s c
dispatch s current event c = by_table s current event c

pub transition : State → Event → Context → Outcome TransitionError State
transition s event c = elim s.status [
  | none ↦ raise unknown_state
  | some current ↦ if is_terminal current then raise terminal_state else dispatch s current event c
]

-- A caller that catches `ContractError` keeps the document that it had.
pub after : State → Outcome TransitionError State → State
after s (ok t) = t
after s (raise e) = s

pub run : State → List (Event × Context) → State
run s [] = s
run s ((e, c) ∷ es) = run (after s (transition s e c)) es
