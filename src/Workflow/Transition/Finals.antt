-- ===== src/Workflow/Transition/Finals.antt =====
-- Which statuses a run never leaves.
use trusted_ceo_agent.Prelude.{
  true, none, some, List, [], ◌∷◌, ◌≡◌, ◌↔◌, ◌⊎◌, refl, ap, inl, inr, arith, raise,
}
use trusted_ceo_agent.Workflow.States.{
  Status, Event, Context, State, is_terminal, finalized, failed, stopped_by_human, cancelled,
  cancel,
}
use trusted_ceo_agent.Workflow.Transition.{terminal_state, transition, dispatch, after, run}
use trusted_ceo_agent.Workflow.Transition.Progress.{passing}

-- A document with this status.
abbrev pub at_status : Status → State → State
at_status st s = record s { status = some st }

-- A status at which a run stays with its whole document, whatever the document and the events.
abbrev pub IsAbsorbing : Status → Type 0
IsAbsorbing st =
    (s : State) (es : List (Event × Context)) → run (at_status st s) es ≡ at_status st s

-- The four ends of a run.
abbrev pub IsEnd : Status → Type 0
IsEnd st = (st ≡ finalized) ⊎ ((st ≡ failed) ⊎ ((st ≡ stopped_by_human) ⊎ (st ≡ cancelled)))

terminal-IsAbsorbing : (st : Status) → is_terminal st ≡ true → IsAbsorbing st
unfolding run after transition
terminal-IsAbsorbing st ends s [] = refl
terminal-IsAbsorbing st ends s ((e, c) ∷ es) =
    rw (refused, after) (terminal-IsAbsorbing st ends s es)
  where
    refused : transition (at_status st s) e c ≡ raise terminal_state
    refused = unfold transition in rw ends refl

IsEnd-IsAbsorbing : (st : Status) → IsEnd st → IsAbsorbing st
unfolding is_terminal
IsEnd-IsAbsorbing st (inl e) = rw e (terminal-IsAbsorbing finalized refl)
IsEnd-IsAbsorbing st (inr (inl e)) = rw e (terminal-IsAbsorbing failed refl)
IsEnd-IsAbsorbing st (inr (inr (inl e))) = rw e (terminal-IsAbsorbing stopped_by_human refl)
IsEnd-IsAbsorbing st (inr (inr (inr e))) = rw e (terminal-IsAbsorbing cancelled refl)

-- An empty document.
abbrev nothing : State
nothing = record {
  status = none;
  revision = none;
  resume_state = none;
  blocker = none;
  failure_reason = none;
}

IsAbsorbing-IsEnd : (st : Status) → IsAbsorbing st → IsEnd st
unfolding run after transition dispatch is_terminal
IsAbsorbing-IsEnd finalized h = inl refl
IsAbsorbing-IsEnd failed h = inr (inl refl)
IsAbsorbing-IsEnd stopped_by_human h = inr (inr (inl refl))
IsAbsorbing-IsEnd cancelled h = inr (inr (inr refl))
IsAbsorbing-IsEnd st h =
    let moved = ap (λ (t : State). t.status) (h nothing ((cancel, passing) ∷ [])) in
    absurd (ground arith)

-- A run stays where it is, with its whole document and whatever events follow, at exactly four statuses:
-- `finalized`, `failed`, `stopped_by_human` and `cancelled`; no other status, `blocked` included, is such.
pub IsAbsorbing-IsEnd_iff : (st : Status) → IsAbsorbing st ↔ IsEnd st
IsAbsorbing-IsEnd_iff st = (IsAbsorbing-IsEnd st, IsEnd-IsAbsorbing st)
