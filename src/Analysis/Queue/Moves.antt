-- ===== src/Analysis/Queue/Moves.antt =====
-- The moves of a signal case, and that every call of the queue's methods makes one of them or none.
use trusted_ceo_agent.Prelude.{
  ℕ, ◌+◌, ◌≤◌, String, true, false, Option, none, some, is_some, List, [], ◌∷◌, ◌≡◌, subst, arith,
  any, All, inl, inr, ok, bind-ok, Bool-cases, Option-cases,
}
use trusted_ceo_agent.Analysis.Cases.{
  CaseStatus, Disposition, SignalCase, PriorityRecord, queued, is_queued, is_investigating,
  is_terminal, is_pause, has_finding, is_cancelled, cancelled,
}
use trusted_ceo_agent.Analysis.Queue.State.{Cases, get, Queue, owned_investigating}
use trusted_ceo_agent.Analysis.Queue.Methods.{
  Ranked, ranked, precedes, vector_of, first_of, leased, closed, advance_change, pause_change,
  resume_change, cancel_change, complete_change,
}

-- How a case may change, in a queue with these cases.
pub data Step (cases : Cases) (c : SignalCase) : SignalCase → Type 0 where
  leased_to :
      (worker : String)
      → is_queued c.status ≡ true
      → any (λ d. is_investigating d.status) cases ≡ false
      → Step cases c (leased c worker)
  advanced :
      (stage : ℕ)
      → is_investigating c.status ≡ true
      → stage ≡ c.current_stage + 1
      → stage ≤ 5
      → Step cases c (record c { current_stage = stage })
  held_up :
      (status : CaseStatus) (reason : String)
      → is_investigating c.status ≡ true
      → is_pause status ≡ true
      → Step cases c (record c { status = status; lease_owner = none; pause_reason = some reason })
  put_back :
      is_pause c.status ≡ true
      → Step cases c (record c { status = queued; pause_reason = none; lease_owner = none })
  called_off :
      (reason : String)
      → is_terminal c.status ≡ false
      → Step cases c (closed c cancelled none reason)
  concluded :
      (disposition : Disposition) (finding : Option String) (reason : String)
      → is_investigating c.status ≡ true
      → c.current_stage ≡ 5
      → is_cancelled disposition ≡ false
      → is_some finding ≡ has_finding disposition
      → Step cases c (closed c disposition finding reason)

owned_lem :
    (id worker : String) (q : Queue) {c : SignalCase}
    → owned_investigating id worker q ≡ ok c
    → (get id q.cases ≡ some c) × (is_investigating c.status ≡ true)
owned_lem id worker q h = elim (Option-cases (get id q.cases)) [
  | inl e ↦ absurd (ground arith)
  | inr (c, e) ↦ ground arith
]

-- A change of a case that the queue holds.
abbrev pub IsStep : Queue → SignalCase × SignalCase → Type 0
IsStep q (c, u) = (id : String) × (get id q.cases ≡ some c) × Step q.cases c u

pub advance_change-IsStep :
    (id worker : String) (stage : ℕ) (q : Queue) {p : SignalCase × SignalCase}
    → advance_change id worker stage q ≡ ok p
    → IsStep q p
unfolding advance_change
advance_change-IsStep id worker stage q {p} h =
    let (c, owned, rest) = bind-ok (owned_investigating id worker q) _ {b = p} h in
    let (found, at_work) = owned_lem id worker q owned in
    let same : (c, record c { current_stage = stage }) ≡ p = ground arith in
    subst (IsStep q) same (id, found, Step.advanced stage at_work (ground arith) (ground arith))

pub pause_change-IsStep :
    (id worker : String) (status : CaseStatus) (reason : String) (q : Queue)
    {p : SignalCase × SignalCase}
    → pause_change id worker status reason q ≡ ok p
    → IsStep q p
unfolding pause_change
pause_change-IsStep id worker status reason q {p} h =
    let (c, owned, rest) = bind-ok (owned_investigating id worker q) _ {b = p} h in
    let (found, at_work) = owned_lem id worker q owned in
    let same : (c, record c { status = status; lease_owner = none; pause_reason = some reason })
        ≡ p =
      ground arith in
    subst (IsStep q) same (id, found, Step.held_up status reason at_work (ground arith))

pub resume_change-IsStep :
    (id : String) (q : Queue) {p : SignalCase × SignalCase} → resume_change id q ≡ ok p → IsStep q p
unfolding resume_change
resume_change-IsStep id q {p} h = elim (Option-cases (get id q.cases)) [
  | inl e ↦ absurd (ground arith)
  | inr (c, e) ↦
      let same : (c, record c { status = queued; pause_reason = none; lease_owner = none }) ≡ p =
        ground arith in
      subst (IsStep q) same (id, e, Step.put_back (ground arith))
]

pub cancel_change-IsStep :
    (id reason : String) (q : Queue) {p : SignalCase × SignalCase}
    → cancel_change id reason q ≡ ok p
    → IsStep q p
unfolding cancel_change
cancel_change-IsStep id reason q {p} h = elim (Option-cases (get id q.cases)) [
  | inl e ↦ absurd (ground arith)
  | inr (c, e) ↦
      let same : (c, closed c cancelled none reason) ≡ p = ground arith in
      subst (IsStep q) same (id, e, Step.called_off reason (ground arith))
]

pub complete_change-IsStep :
    (id worker : String) (d : Disposition) (finding : Option String) (reason : String) (q : Queue)
    {p : SignalCase × SignalCase}
    → complete_change id worker d finding reason q ≡ ok p
    → IsStep q p
unfolding complete_change
complete_change-IsStep id worker d finding reason q {p} h =
    let (c, owned, rest) = bind-ok (owned_investigating id worker q) _ {b = p} h in
    let (found, at_work) = owned_lem id worker q owned in
    let same : (c, closed c d finding reason) ≡ p = ground arith in
    subst (IsStep q) same (
      id,
      found,
      Step.concluded d finding reason at_work (ground arith) (ground arith) (ground arith),
    )

-- The best candidate is one of the queued cases.
pub first_of-All :
    (P : SignalCase → Type 0) (r : Ranked) (rs : List Ranked)
    → P r.1
    → All (λ (s : Ranked). P s.1) rs
    → P (first_of r rs).1
unfolding first_of
first_of-All P r [] h hs = h
first_of-All P r (s ∷ rs) h hs = elim (Bool-cases (precedes r.0 r.1.case_id s.0 s.1.case_id)) [
  | inl e ↦ rw (e, first_of) (first_of-All P r rs h hs.1)
  | inr e ↦ rw (e, first_of) (first_of-All P s rs hs.0 hs.1)
]

pub ranked-All :
    (P : SignalCase → Type 0) (ps : List PriorityRecord) (cs : Cases) {rs : List Ranked}
    → All P cs
    → ranked ps cs ≡ some rs
    → All (λ (s : Ranked). P s.1) rs
unfolding ranked
ranked-All P ps [] {rs} h e = let same : [] ≡ rs = ground arith in subst (All _) same tt
ranked-All P ps (c ∷ cs) {rs} h e = elim (Option-cases (ranked ps cs)) [
  | inl n ↦ absurd (ground arith)
  | inr (ss, n) ↦ elim (Option-cases (vector_of ps c)) [
    | inl m ↦ absurd (ground arith)
    | inr (v, m) ↦
        let same : (v, c) ∷ ss ≡ rs = ground arith in
        subst (All (λ (s : Ranked). P s.1)) same (h.0, ranked-All P ps cs h.1 n)
  ]
]
