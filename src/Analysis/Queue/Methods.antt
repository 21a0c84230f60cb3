-- ===== src/Analysis/Queue/Methods.antt =====
-- analysis/signal_queue.py: the methods `lease`, `advance`, `pause`, `resume`, `cancel`, `complete` and
-- `assert_all_terminal` of `SignalCaseQueue`.
use trusted_ceo_agent.Prelude.{
  ℕ, ◌+◌, ◌==◌, String, Bool, true, false, ◌&&◌, not, Option, none, some, List, [], ◌∷◌, all, any,
  filter, find, is_some, ltb, leb, str_le, str_eq, if◌then◌else◌, Outcome, ok, raise, ◌>>=◌, ◌>>◌,
  check,
}
use Prim.Native.Nat.{max}
use trusted_ceo_agent.Analysis.Cases.{
  CaseStatus, Disposition, SignalCase, PriorityRecord, QueueError, text, queued, investigating,
  terminal, is_queued, is_investigating, is_terminal, is_pause, has_finding, is_cancelled,
  cancelled, unknown_case, stage_out_of_range, stage_skipped, not_a_pause, not_paused,
  already_terminal, before_last_stage, not_a_completion, stray_finding, missing_priority,
  not_terminal,
}
use trusted_ceo_agent.Analysis.Queue.State.{
  Cases, get, Queue, Request, leases, advances, pauses, resumes, cancels, completes, Answer, begin,
  remember, remembered, resolve, resolve_lease, owned_investigating, replace,
}

-- `self._priorities[ref]["sort_vector"]`.
abbrev pub vector_of : List PriorityRecord → SignalCase → Option (List ℕ)
vector_of ps c = elim (find (λ p. str_eq p.priority_record_id c.priority_record_ref) ps) [
  | none ↦ none
  | some p ↦ some p.sort_vector
]

-- The order of the tuples of negated values, and the id: the larger value comes first. All vectors have
-- seven values.
unfoldable pub precedes : List ℕ → String → List ℕ → String → Bool
precedes (a ∷ as_) i (b ∷ bs) j =
    let rest = precedes as_ i bs j in if ltb b a then true else if ltb a b then false else rest
precedes _ i _ j = str_le i j

abbrev pub Ranked : Type 0
Ranked = List ℕ × SignalCase

-- The candidates with their vectors; `none` where one has no priority.
unfoldable pub ranked : List PriorityRecord → Cases → Option (List Ranked)
ranked ps [] = some []
ranked ps (c ∷ cs) = elim (ranked ps cs) [
  | none ↦ none
  | some rs ↦ elim (vector_of ps c) [ none ↦ none | some v ↦ some ((v, c) ∷ rs) ]
]

-- `min(candidates, key=order)`: the first one that none before it precedes.
unfoldable pub first_of : Ranked → List Ranked → Ranked
first_of best [] = best
first_of best (r ∷ rs) =
    first_of (if precedes best.0 best.1.case_id r.0 r.1.case_id then best else r) rs

abbrev pub leased : SignalCase → String → SignalCase
leased c worker = record c {
  status = investigating;
  current_stage = max 2 c.current_stage;
  lease_owner = some worker;
  pause_reason = none;
}

-- What a method writes: the case that it found and the case with its changes, or its refusal.
abbrev pub Change : Type 0
Change = Outcome QueueError (SignalCase × SignalCase)

unfoldable pub advance_change : String → String → ℕ → Queue → Change
advance_change id worker stage q = do
  c ← owned_investigating id worker q
  check (leb 2 stage && leb stage 5) stage_out_of_range
  check (stage == c.current_stage + 1) stage_skipped
  ok (c, record c { current_stage = stage })

unfoldable pub pause_change : String → String → CaseStatus → String → Queue → Change
pause_change id worker status reason q = do
  c ← owned_investigating id worker q
  check (is_pause status) not_a_pause
  text reason
  ok (c, record c { status = status; lease_owner = none; pause_reason = some reason })

unfoldable pub resume_change : String → Queue → Change
resume_change id q = elim (get id q.cases) [
  | none ↦ raise not_paused
  | some c ↦ do
    check (is_pause c.status) not_paused
    ok (c, record c { status = queued; pause_reason = none; lease_owner = none })
]

-- What `cancel` and `complete` write.
abbrev pub closed : SignalCase → Disposition → Option String → String → SignalCase
closed c disposition finding reason = record c {
  status = terminal;
  disposition = some disposition;
  finding_ref = finding;
  lease_owner = none;
  pause_reason = none;
  terminal_reason = some reason;
}

unfoldable pub cancel_change : String → String → Queue → Change
cancel_change id reason q = elim (get id q.cases) [
  | none ↦ raise unknown_case
  | some c ↦ do
    check (not (is_terminal c.status)) already_terminal
    text reason
    ok (c, closed c cancelled none reason)
]

-- A finding is named for the dispositions that conclude with one, and for no other.
abbrev check_finding : Disposition → Option String → Outcome QueueError (Unit {0})
check_finding d none = check (not (has_finding d)) QueueError.empty_text
check_finding d (some f) = if has_finding d then text f else raise stray_finding

unfoldable pub complete_change :
    String → String → Disposition → Option String → String → Queue → Change
complete_change id worker disposition finding reason q = do
  c ← owned_investigating id worker q
  check (c.current_stage == 5) before_last_stage
  check (not (is_cancelled disposition)) not_a_completion
  check_finding disposition finding
  text reason
  ok (c, closed c disposition finding reason)

module _ (digest : Request → String) (hash : SignalCase → String)
    (schema_ok : SignalCase → Bool) where
  -- The end of `lease`, for the queued cases.
  unfoldable pub lease_best : String → Request → String → Cases → Queue → Answer (Option SignalCase)
  lease_best key request worker candidates q = elim (ranked q.priorities candidates) [
    | none ↦ (raise missing_priority, q)
    | some [] ↦ (ok none, remember digest key request none q)
    | some (r ∷ rs) ↦
        remembered digest key request
          (replace hash schema_ok (first_of r rs).1 (leased (first_of r rs).1 worker) q)
  ]

  unfoldable pub lease_fresh : String → Request → String → Queue → Answer (Option SignalCase)
  lease_fresh key request worker q =
      if any (λ c. is_investigating c.status) q.cases
      then (ok none, remember digest key request none q)
      else lease_best key request worker (filter (λ c. is_queued c.status) q.cases) q

  unfoldable pub lease : String → ℕ → String → Queue → Answer (Option SignalCase)
  lease worker expected key q = elim (text worker) [
    | raise e ↦ (raise e, q)
    | ok _ ↦
        resolve_lease (begin digest key (leases worker expected) q) q
          (lease_fresh key (leases worker expected) worker q)
  ]

  -- The rest of a method: `_replace` and `_remember`.
  unfoldable pub apply : String → Request → Change → Queue → Answer (Option SignalCase)
  apply key request (raise e) q = (raise e, q)
  apply key request (ok (c, u)) q = remembered digest key request (replace hash schema_ok c u q)

  unfoldable pub advance : String → String → ℕ → ℕ → String → Queue → Answer (Option SignalCase)
  advance id worker stage expected key q =
      let request = advances id worker stage expected in
      resolve (begin digest key request q) q
        (apply key request (advance_change id worker stage q) q)

  unfoldable pub pause :
      String → String → CaseStatus → String → ℕ → String → Queue → Answer (Option SignalCase)
  pause id worker status reason expected key q =
      let request = pauses id worker status reason expected in
      resolve (begin digest key request q) q
        (apply key request (pause_change id worker status reason q) q)

  unfoldable pub resume : String → ℕ → String → Queue → Answer (Option SignalCase)
  resume id expected key q =
      let request = resumes id expected in
      resolve (begin digest key request q) q (apply key request (resume_change id q) q)

  unfoldable pub cancel : String → String → ℕ → String → Queue → Answer (Option SignalCase)
  cancel id reason expected key q =
      let request = cancels id reason expected in
      resolve (begin digest key request q) q (apply key request (cancel_change id reason q) q)

  unfoldable pub complete :
      String
      → String
      → Disposition
      → Option String
      → String
      → ℕ
      → String
      → Queue
      → Answer (Option SignalCase)
  complete id worker disposition finding reason expected key q =
      let request = completes id worker disposition finding reason expected in
      resolve (begin digest key request q) q
        (apply key request (complete_change id worker disposition finding reason q) q)

  -- A request, given to its method with an idempotency key.
  unfoldable pub call : Request → String → Queue → Answer (Option SignalCase)
  call (leases worker expected) key q = lease worker expected key q
  call (advances id worker stage expected) key q = advance id worker stage expected key q
  call (pauses id worker status reason expected) key q =
      pause id worker status reason expected key q
  call (resumes id expected) key q = resume id expected key q
  call (cancels id reason expected) key q = cancel id reason expected key q
  call (completes id worker disposition finding reason expected) key q =
      complete id worker disposition finding reason expected key q

  -- What is left of a history of calls.
  unfoldable pub run : Queue → List (Request × String) → Queue
  run q [] = q
  run q ((request, key) ∷ calls) = run (call request key q).1 calls

-- `assert_all_terminal`.
unfoldable pub assert_all_terminal : Queue → Outcome QueueError (Unit {0})
assert_all_terminal q =
    check (all (λ c. is_terminal c.status && is_some c.disposition) q.cases) not_terminal
