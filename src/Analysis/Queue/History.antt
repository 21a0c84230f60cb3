-- ===== src/Analysis/Queue/History.antt =====
-- The histories of the cases: append only, and linked by the records' hashes.
use trusted_ceo_agent.Prelude.{
  suc, String, Bool, false, some, List, [], ◌∷◌, ◌++◌, ◌≡◌, refl, sym, ◌∙◌, subst, arith, inl, inr,
  Bool-cases, str_eq, str_eq_iff,
}
use trusted_ceo_agent.Prelude.Keyed.{HasUniqueKeys, get_by-put_by_self, get_by-put_by_ne}
use trusted_ceo_agent.Analysis.Cases.{SignalCase}
use trusted_ceo_agent.Analysis.Queue.State.{
  case_key, get, put, Histories, history_of, append_to, Queue, Request, stamped,
}
use trusted_ceo_agent.Analysis.Queue.Methods.{run}
use trusted_ceo_agent.Analysis.Queue.Refinement.{Move, still, noted, changed}
use trusted_ceo_agent.Analysis.Queue.Invariants.{run-keeps, stamped_id}

history_of-append_to_self :
    (id : String) (u : SignalCase) (hs : Histories) {h : List SignalCase}
    → history_of id hs ≡ some h
    → history_of id (append_to id u hs) ≡ some (h ++ u ∷ [])
history_of-append_to_self id u [] e = absurd (ground arith)
history_of-append_to_self id u ((j, x) ∷ hs) {h} e = elim (Bool-cases (str_eq j id)) [
  | inl here ↦ let same : x ≡ h = ground arith in rw (here, same, here) refl
  | inr there ↦ rw (there, there) (history_of-append_to_self id u hs {h = h} (ground arith))
]

history_of-append_to_ne :
    (id k : String) (u : SignalCase) (hs : Histories)
    → str_eq id k ≡ false
    → history_of k (append_to id u hs) ≡ history_of k hs
history_of-append_to_ne id k u [] h = refl
history_of-append_to_ne id k u ((j, x) ∷ hs) h =
    ground
      (arith, history_of-append_to_ne id k u hs h, str_eq_iff j id, str_eq_iff j k, str_eq_iff id k)

module _ (hash : SignalCase → String) where
  -- A record names the hash of the record before it, counts one revision more, and carries its own hash.
  pub record Linked (before after : SignalCase) : Type 0 where
    pub previous : after.previous_content_hash ≡ some before.content_hash
    pub counted : after.case_revision ≡ suc before.case_revision
    pub hashed : after.content_hash ≡ hash (record after { content_hash = "" })

  -- A linked list of records that ends in a case.
  abbrev pub IsChain : List SignalCase → SignalCase → Type 0
  IsChain [] c = ⊥
  IsChain (h ∷ []) c = h ≡ c
  IsChain (h ∷ k ∷ hs) c = Linked h k × IsChain (k ∷ hs) c

  append-IsChain :
      (hs : List SignalCase) (c u : SignalCase)
      → IsChain hs c
      → Linked c u
      → IsChain (hs ++ u ∷ []) u
  append-IsChain [] c u h link = absurd h
  append-IsChain (x ∷ []) c u h link = (subst (λ y. Linked y u) (sym h) link, refl)
  append-IsChain (x ∷ y ∷ hs) c u h link = (h.0, append-IsChain (y ∷ hs) c u h.1 link)

  -- The history of each case is a chain that ends in it.
  abbrev pub IsLogged : Queue → Type 0
  IsLogged q =
      (id : String) (c : SignalCase)
      → get id q.cases ≡ some c
      → (hs : List SignalCase) × (history_of id q.history ≡ some hs) × IsChain hs c

module _ (digest : Request → String) (hash : SignalCase → String)
    (schema_ok : SignalCase → Bool) where
  Move-IsLogged : (q t : Queue) → Move digest hash schema_ok q t → IsLogged hash q → IsLogged hash t
  Move-IsLogged q t still h = h
  Move-IsLogged q t (noted key request) h = h
  Move-IsLogged q t (changed key request j c u found step e) h =
      let v = stamped hash schema_ok c u in
      let at : u.case_id ≡ j = stamped_id digest hash schema_ok q j c u found step in
      λ id d got. elim (Bool-cases (str_eq u.case_id id)) [
        | inl same ↦
            let own : u.case_id ≡ id = (str_eq_iff u.case_id id).0 same in
            let old : get id q.cases ≡ some c =
              subst (λ k. get k q.cases ≡ some c) (sym at ∙ own) found in
            let here : get id (put v q.cases) ≡ some v =
              subst (λ k. get k (put v q.cases) ≡ some v) own
                (get_by-put_by_self case_key v c q.cases
                  (subst (λ k. get k q.cases ≡ some c) (sym own) old)) in
            let v_d : v ≡ d = ground (arith, here, got) in
            let (hs, there, chain) = h id c old in
            (
              hs ++ v ∷ [],
              subst (λ k. history_of id (append_to k v q.history) ≡ some (hs ++ v ∷ [])) (sym own)
                  (history_of-append_to_self id v q.history {h = hs} there),
              subst (λ w. IsChain hash (hs ++ v ∷ []) w) v_d
                  (append-IsChain hash hs c v chain
                    (record { previous = refl; counted = refl; hashed = refl })),
            )
        | inr other ↦
            let (hs, there, chain) =
              h id d (sym (get_by-put_by_ne case_key id v q.cases other) ∙ got) in
            (hs, history_of-append_to_ne u.case_id id v q.history other ∙ there, chain)
      ]

  -- Every history of calls keeps the audit trail: the history of each case is linked, record by record, by
  -- revisions that count one by one and by the hashes of the records, and it ends in the case as it is.
  pub run-IsLogged :
      (q : Queue) (calls : List (Request × String))
      → HasUniqueKeys case_key q.cases
      → IsLogged hash q
      → IsLogged hash (run digest hash schema_ok q calls)
  run-IsLogged q calls unique h =
      run-keeps digest hash schema_ok (IsLogged hash) Move-IsLogged q calls unique h

abbrev pub IsPrefix : List SignalCase → List SignalCase → Type 0
IsPrefix [] ys = Unit
IsPrefix (x ∷ xs) [] = ⊥
IsPrefix (x ∷ xs) (y ∷ ys) = (x ≡ y) × IsPrefix xs ys

IsPrefix-refl : (xs : List SignalCase) → IsPrefix xs xs
IsPrefix-refl [] = tt
IsPrefix-refl (x ∷ xs) = (refl, IsPrefix-refl xs)

append-IsPrefix :
    (xs ys : List SignalCase) (u : SignalCase) → IsPrefix xs ys → IsPrefix xs (ys ++ u ∷ [])
append-IsPrefix [] ys u h = tt
append-IsPrefix (x ∷ xs) [] u h = absurd h
append-IsPrefix (x ∷ xs) (y ∷ ys) u h = (h.0, append-IsPrefix xs ys u h.1)

module _ (digest : Request → String) (hash : SignalCase → String)
    (schema_ok : SignalCase → Bool) where
  -- A history that begins with certain records.
  abbrev Begins : String → List SignalCase → Queue → Type 0
  Begins id hs q = (ks : List SignalCase) × (history_of id q.history ≡ some ks) × IsPrefix hs ks

  Move-Begins :
      (id : String) (hs : List SignalCase) (q t : Queue)
      → Move digest hash schema_ok q t
      → Begins id hs q
      → Begins id hs t
  Move-Begins id hs q t still h = h
  Move-Begins id hs q t (noted key request) h = h
  Move-Begins id hs q t (changed key request j c u found step e) (ks, there, begins) =
      let v = stamped hash schema_ok c u in
      elim (Bool-cases (str_eq u.case_id id)) [
        | inl same ↦ (
          ks ++ v ∷ [],
          subst (λ k. history_of id (append_to k v q.history) ≡ some (ks ++ v ∷ []))
              (sym ((str_eq_iff u.case_id id).0 same))
              (history_of-append_to_self id v q.history {h = ks} there),
          append-IsPrefix hs ks v begins,
        )
        | inr other ↦ (ks, history_of-append_to_ne u.case_id id v q.history other ∙ there, begins)
      ]

  -- A history of a case is append only: what has been recorded stays, in its order, whatever is asked of
  -- the queue afterwards.
  pub history_grows :
      (q : Queue) (calls : List (Request × String)) (id : String) (hs : List SignalCase)
      → HasUniqueKeys case_key q.cases
      → history_of id q.history ≡ some hs
      → (ks : List SignalCase) × (history_of id (run digest hash schema_ok q calls).history
          ≡ some ks)
        × IsPrefix hs ks
  history_grows q calls id hs unique h =
      run-keeps digest hash schema_ok (Begins id hs) (Move-Begins id hs) q calls unique
        (hs, h, IsPrefix-refl hs)
