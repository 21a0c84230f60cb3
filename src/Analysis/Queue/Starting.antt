-- ===== src/Analysis/Queue/Starting.antt =====
-- analysis/signal_queue.py: `SignalCaseQueue.__init__`, its accessors, and the queues that it makes.
use trusted_ceo_agent.Prelude.{
  ◌==◌, String, Bool, false, none, some, is_some, is_none, List, [], ◌∷◌, ◌++◌, map, any, all, find,
  Outcome, ok, raise, ◌>>=◌, ◌>>◌, check, sort, str_le, str_eq,
}
use trusted_ceo_agent.Analysis.Cases.{
  SignalCase, PriorityRecord, QueueError, verify_case, verify_priority, no_cases, duplicate_case,
  duplicate_priority, dangling_case, unpaired_priority, bad_priority_ref, mixed_revisions,
  unknown_case,
}
use trusted_ceo_agent.Analysis.Queue.State.{Cases, get, history_of, Queue}

abbrev pub has_id : String → PriorityRecord → Bool
has_id id p = str_eq p.priority_record_id id

-- The reference of a case names a priority record of this case.
abbrev pub is_paired : List PriorityRecord → SignalCase → Bool
is_paired ps c = elim (find (has_id c.priority_record_ref) ps) [
  | none ↦ false
  | some p ↦ str_eq p.case_id c.case_id
]

module _ (hash : SignalCase → String) (schema_ok : SignalCase → Bool)
    (priority_hash : PriorityRecord → String) (priority_ok : PriorityRecord → Bool) where
  -- The loop over the cases, with the cases filed so far.
  unfoldable pub add_cases : List SignalCase → Cases → Outcome QueueError Cases
  add_cases [] cases = ok cases
  add_cases (c ∷ raws) cases = do
    verify_case hash schema_ok c
    check (is_none (get c.case_id cases)) duplicate_case
    add_cases raws (cases ++ c ∷ [])

  -- The loop over the priority records.
  unfoldable pub add_priorities :
      Cases → List PriorityRecord → List PriorityRecord → Outcome QueueError (List PriorityRecord)
  add_priorities cases [] ps = ok ps
  add_priorities cases (p ∷ raws) ps = do
    verify_priority priority_hash priority_ok p
    check (is_none (find (has_id p.priority_record_id) ps)) duplicate_priority
    check (is_some (get p.case_id cases)) dangling_case
    add_priorities cases raws (ps ++ p ∷ [])

  -- No priority record dangles, so that the two sets of ids are equal if each case has one.
  unfoldable pub create : List SignalCase → List PriorityRecord → Outcome QueueError Queue
  create [] records = raise no_cases
  create (c ∷ raws) records = do
    cases ← add_cases (c ∷ raws) []
    priorities ← add_priorities cases records []
    check (all (λ d. any (λ (p : PriorityRecord). str_eq p.case_id d.case_id) priorities) cases)
        unpaired_priority
    check (all (is_paired priorities) cases) bad_priority_ref
    check (all (λ (d : SignalCase). d.base_revision == c.base_revision) cases) mixed_revisions
    ok (record {
      cases = cases;
      history = map (λ (d : SignalCase). (d.case_id, d ∷ [])) cases;
      priorities = priorities;
      revision = c.base_revision;
      receipts = [];
    })

-- `cases`.
abbrev pub cases_of : Queue → List SignalCase
cases_of q = sort (λ (c d : SignalCase). str_le c.case_id d.case_id) q.cases

-- `history`.
abbrev pub history : String → Queue → Outcome QueueError (List SignalCase)
history id q = elim (history_of id q.history) [ none ↦ raise unknown_case | some h ↦ ok h ]
