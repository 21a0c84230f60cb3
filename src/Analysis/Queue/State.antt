-- ===== src/Analysis/Queue/State.antt =====
-- analysis/signal_queue.py: the state of `SignalCaseQueue`, its constructor and the helpers of its
-- methods. A method gives what it returns or raises, beside the queue that it leaves.
use trusted_ceo_agent.Prelude.{
  ℕ, suc, ◌==◌, String, Bool, false, Option, none, some, List, [], ◌∷◌, ◌++◌, str_eq, if◌then◌else◌,
  Outcome, ok, raise, ◌>>◌, check,
}
use trusted_ceo_agent.Prelude.Keyed.{get_by, put_by}
use trusted_ceo_agent.Analysis.Cases.{
  CaseStatus, Disposition, SignalCase, PriorityRecord, QueueError, verify_case, is_blank, text,
  is_investigating, unknown_case, empty_text, key_reused, empty_replay, stale_revision,
  not_investigating, not_owner,
}

-- `self._cases`, a dictionary by `case_id` in its order of insertion.
abbrev pub Cases : Type 0
Cases = List SignalCase

abbrev pub case_key : SignalCase → String
case_key c = c.case_id

abbrev pub get : String → Cases → Option SignalCase
get = get_by case_key

abbrev pub put : SignalCase → Cases → Cases
put = put_by case_key

-- `self._history`, by `case_id` too; each list begins with the oldest record.
abbrev pub Histories : Type 0
Histories = List (String × List SignalCase)

abbrev pub history_of : String → Histories → Option (List SignalCase)
history_of id [] = none
history_of id ((j, h) ∷ hs) = let rest = history_of id hs in if str_eq j id then some h else rest

-- `self._history[case_id].append(u)`.
abbrev pub append_to : String → SignalCase → Histories → Histories
append_to id u [] = []
append_to id u ((j, h) ∷ hs) =
    let rest = append_to id u hs in if str_eq j id then (j, h ++ u ∷ []) ∷ hs else (j, h) ∷ rest

-- `self._idempotency`: the hash of a request, and what it returned.
abbrev pub Receipts : Type 0
Receipts = List (String × String × Option SignalCase)

abbrev pub receipt : String → Receipts → Option (String × Option SignalCase)
receipt key [] = none
receipt key ((j, h, r) ∷ rs) =
    let rest = receipt key rs in if str_eq j key then some (h, r) else rest

pub record Queue : Type 0 where
  pub cases : Cases
  pub history : Histories
  pub priorities : List PriorityRecord
  pub revision : ℕ
  pub receipts : Receipts

-- The request that a method builds from its arguments.
pub data Request : Type 0 where
  leases : String → ℕ → Request
  advances : String → String → ℕ → ℕ → Request
  pauses : String → String → CaseStatus → String → ℕ → Request
  resumes : String → ℕ → Request
  cancels : String → String → ℕ → Request
  completes : String → String → Disposition → Option String → String → ℕ → Request

abbrev pub expected_of : Request → ℕ
expected_of (leases worker expected) = expected
expected_of (advances id worker stage expected) = expected
expected_of (pauses id worker status reason expected) = expected
expected_of (resumes id expected) = expected
expected_of (cancels id reason expected) = expected
expected_of (completes id worker disposition finding reason expected) = expected

abbrev pub Answer : Type 0 → Type 0
Answer A = Outcome QueueError A × Queue

-- What `_idempotent_replay` and `_check_revision` decide before a method does anything.
pub data Begun : Type 0 where
  refused : QueueError → Begun
  replayed : Option SignalCase → Begun
  fresh : Begun

module _ (digest : Request → String) where
  unfoldable pub begin : String → Request → Queue → Begun
  begin key request q = if is_blank key then refused empty_text else elim (receipt key q.receipts) [
    | some (h, r) ↦ if str_eq h (digest request) then replayed r else refused key_reused
    | none ↦ if expected_of request == q.revision then fresh else refused stale_revision
  ]

  -- `_remember`: the key is new, since a known one has been replayed or refused.
  abbrev pub remember : String → Request → Option SignalCase → Queue → Queue
  remember key request r q = record q { receipts = (key, digest request, r) ∷ q.receipts }

  -- The end of a method that has replaced a case.
  abbrev pub remembered : String → Request → Answer SignalCase → Answer (Option SignalCase)
  remembered key request (ok u, q) = (ok (some u), remember key request (some u) q)
  remembered key request (raise e, q) = (raise e, q)

-- What a method does with `begin`'s decision; only `lease` may have returned nothing.
abbrev pub resolve : Begun → Queue → Answer (Option SignalCase) → Answer (Option SignalCase)
resolve (refused e) q body = (raise e, q)
resolve (replayed none) q body = (raise empty_replay, q)
resolve (replayed (some c)) q body = (ok (some c), q)
resolve fresh q body = body

abbrev pub resolve_lease : Begun → Queue → Answer (Option SignalCase) → Answer (Option SignalCase)
resolve_lease (refused e) q body = (raise e, q)
resolve_lease (replayed r) q body = (ok r, q)
resolve_lease fresh q body = body

-- `_owned_investigating`.
abbrev pub owned_investigating : String → String → Queue → Outcome QueueError SignalCase
owned_investigating id worker q = elim (get id q.cases) [
  | none ↦ raise unknown_case
  | some c ↦ do
    check (is_investigating c.status) not_investigating
    text worker
    check (elim c.lease_owner [ none ↦ false | some o ↦ str_eq o worker ]) not_owner
    ok c
]

module _ (hash : SignalCase → String) (schema_ok : SignalCase → Bool) where
  -- The changed case with its new revision and hashes.
  abbrev pub stamped : SignalCase → SignalCase → SignalCase
  stamped c u =
      let body : SignalCase = record u {
        case_revision = suc c.case_revision;
        previous_content_hash = some c.content_hash;
        content_hash = "";
      } in
      record body { content_hash = hash body }

  -- The queue with a new record of a case.
  abbrev pub written : SignalCase → Queue → Queue
  written u q = record q {
    cases = put u q.cases;
    history = append_to u.case_id u q.history;
    revision = suc q.revision;
  }

  -- `_replace`, for the current case and the case with its changes.
  unfoldable pub replace : SignalCase → SignalCase → Queue → Answer SignalCase
  replace c changed q = elim (verify_case hash schema_ok (stamped c changed)) [
    | raise e ↦ (raise e, q)
    | ok _ ↦ (ok (stamped c changed), written (stamped c changed) q)
  ]
