-- ===== src/Orchestration/Refresh/Settling.antt =====
-- `_refresh` eases the items, and its loop ends where no pending item can move.
use trusted_ceo_agent.Prelude.{
  ℕ, zero, suc, ◌+◌, ◌≤◌, ◌<◌, String, Bool, true, false, none, some, List, [], ◌∷◌, ◌≡◌, ◌⊎◌, refl,
  ap, ◌∙◌, subst, inl, inr, arith, All, All-unsort, map, str_eq, str_eq_iff, str_le, Bool-cases,
  Option-cases,
}
use trusted_ceo_agent.Orchestration.Items.{WorkItem, Items, get, put, is_pending}
use trusted_ceo_agent.Orchestration.Easing.{
  Eases, Pointwise, Eases-all_refl, Eases-all_trans, Eases-put, task_id-get,
}
use trusted_ceo_agent.Orchestration.Refresh.{
  dependencies, advance_at, pass, settle, settled, pending_count, sorted_ids,
}
use trusted_ceo_agent.Orchestration.Refresh.Steps.{Moves, advance-Moves, Waits, advance-Waits}

advance_at-get :
    (id : String) (items : Items) (y : WorkItem)
    → advance_at id items ≡ some y
    → (x : WorkItem) × (get id items ≡ some x) × Moves x y × (y.task_id ≡ id)
unfolding advance_at
advance_at-get id items y h = elim (Option-cases (get id items)) [
  | inl e ↦ absurd (ground arith)
  | inr (x, e) ↦
      let m = advance-Moves x y (dependencies x.dependency_ids items) (ground arith) in
      (x, e, m, m.2 ∙ task_id-get id items x e)
]

pending_count-put :
    (items : Items) (x y : WorkItem)
    → get y.task_id items ≡ some x
    → is_pending x.status ≡ true
    → is_pending y.status ≡ false
    → pending_count (put y items) + 1 ≡ pending_count items
pending_count-put [] x y h p q = ground arith
pending_count-put (z ∷ zs) x y h p q = ground (arith, pending_count-put zs x y)

Eases-advance_at :
    (id : String) (items : Items) (y : WorkItem)
    → advance_at id items ≡ some y
    → Pointwise Eases items (put y items) × (pending_count (put y items) + 1 ≡ pending_count items)
Eases-advance_at id items y h =
    let (x, found, (p, q, same, eases), at) = advance_at-get id items y h in
    let here : get y.task_id items ≡ some x = rw at found in
    (Eases-put items x y here eases, pending_count-put items x y here p q)

-- What a pass does: it eases the items; with `changed` at the end it took one out of `pending`,
-- or was told so; without, it changed nothing and nothing can move.
pub record Passed (ids : List String) (items after : Items) (before now : Bool) : Type 0 where
  pub eases : Pointwise Eases items after
  pub fewer : pending_count after ≤ pending_count items
  pub moved : (now ≡ false) ⊎ ((before ≡ true) ⊎ (pending_count after < pending_count items))
  pub stuck :
      (now ≡ true)
      ⊎ ((before ≡ false) × (after ≡ items) × All (λ id. advance_at id items ≡ none) ids)

pass-Passed :
    (ids : List String) (items : Items) (changed : Bool)
    → Passed ids items (pass ids items changed).0 changed (pass ids items changed).1
unfolding pass
pass-Passed [] items true = record {
  eases = Eases-all_refl items;
  fewer = omega arith;
  moved = inr (inl refl);
  stuck = inl refl;
}
pass-Passed [] items false = record {
  eases = Eases-all_refl items;
  fewer = omega arith;
  moved = inl refl;
  stuck = inr (refl, refl, tt);
}
pass-Passed (id ∷ ids) items changed = elim (Option-cases (advance_at id items)) [
  | inl e ↦ rw (e, pass) (still (pass-Passed ids items changed) e)
  | inr (y, e) ↦
      rw (e, pass) (moving y (pass-Passed ids (put y items) true) (Eases-advance_at id items y e))
]
  where
    still :
        {after : Items} {now : Bool}
        → Passed ids items after changed now
        → advance_at id items ≡ none
        → Passed (id ∷ ids) items after changed now
    still p e = record {
      eases = p.eases;
      fewer = p.fewer;
      moved = p.moved;
      stuck = elim p.stuck [ inl n ↦ inl n | inr (b, same, rest) ↦ inr (b, same, (e, rest)) ];
    }

    moving :
        (y : WorkItem) {after : Items} {now : Bool}
        → Passed ids (put y items) after true now
        → Pointwise Eases items (put y items)
          × (pending_count (put y items) + 1 ≡ pending_count items)
        → Passed (id ∷ ids) items after changed now
    moving y {after = after} p (eases, fewer) = record {
      eases = Eases-all_trans items (put y items) after eases p.eases;
      fewer = omega (arith, p.fewer, fewer);
      moved = inr (inr (omega (arith, p.fewer, fewer)));
      stuck = elim p.stuck [ inl n ↦ inl n | inr (b, same, rest) ↦ absurd (ground arith) ];
    }

-- No id of the list can move its item.
abbrev Stuck : List String → Items → Type 0
Stuck ids items = All (λ id. advance_at id items ≡ none) ids

-- With more fuel than pending items the loop ends by its test.
settle-Stuck :
    (fuel : ℕ) (ids : List String) (items : Items)
    → pending_count items < fuel
    → Pointwise Eases items (settle fuel ids items) × Stuck ids (settle fuel ids items)
unfolding settle
settle-Stuck zero ids items h = absurd (omega arith)
settle-Stuck (suc fuel) ids items h =
    let p = pass-Passed ids items false in
    elim (Bool-cases (pass ids items false).1) [
      | inl e ↦ rw (e, settle) (again p (settle-Stuck fuel ids (pass ids items false).0 (less p e)))
      | inr e ↦ rw (e, settle) (ended p e)
    ]
  where
    less :
        Passed ids items (pass ids items false).0 false (pass ids items false).1
        → (pass ids items false).1 ≡ true
        → pending_count (pass ids items false).0 < fuel
    less p e = ground (arith, p.moved)

    again :
        Passed ids items (pass ids items false).0 false (pass ids items false).1
        → Pointwise Eases (pass ids items false).0 (settle fuel ids (pass ids items false).0)
          × Stuck ids (settle fuel ids (pass ids items false).0)
        → Pointwise Eases items (settle fuel ids (pass ids items false).0)
          × Stuck ids (settle fuel ids (pass ids items false).0)
    again p (eases, stuck) = (
      Eases-all_trans items (pass ids items false).0 (settle fuel ids (pass ids items false).0)
          p.eases eases,
      stuck,
    )

    ended :
        Passed ids items (pass ids items false).0 false (pass ids items false).1
        → (pass ids items false).1 ≡ false
        → Pointwise Eases items (pass ids items false).0 × Stuck ids (pass ids items false).0
    ended p e = elim p.stuck [
      | inl n ↦ absurd (ground arith)
      | inr (b, same, rest) ↦ (p.eases, rw same rest)
    ]

settled-Stuck :
    (items : Items)
    → Pointwise Eases items (settled items) × Stuck (sorted_ids items) (settled items)
unfolding settled
settled-Stuck items =
    settle-Stuck (suc (pending_count items)) (sorted_ids items) items (omega arith)

pub Eases-settled : (items : Items) → Pointwise Eases items (settled items)
Eases-settled items = (settled-Stuck items).0

task_id-Eases : (x y : WorkItem) → Eases x y → x.task_id ≡ y.task_id
task_id-Eases x y (inl p) = ap (λ (w : WorkItem). w.task_id) p
task_id-Eases x y (inr e) = ap (λ (w : WorkItem). w.task_id) e.same_work

-- An item that is found after the easing has an id that the items had before.
All-at :
    (P : String → Type 0) (xs ys : Items) (id : String) {y : WorkItem}
    → Pointwise Eases xs ys
    → All P (map (λ x. x.task_id) xs)
    → get id ys ≡ some y
    → P id
All-at P [] [] id h k g = absurd (ground arith)
All-at P (x ∷ xs) (z ∷ zs) id {y} h k g = elim (Bool-cases (str_eq z.task_id id)) [
  | inl e ↦
      let at : x.task_id ≡ id = task_id-Eases x z h.0 ∙ (str_eq_iff z.task_id id).0 e in
      subst P at k.0
  | inr e ↦ All-at P xs zs id {y = y} h.1 k.1 (ground arith)
]
All-at P [] (z ∷ zs) id h k g = absurd h
All-at P (x ∷ xs) [] id h k g = absurd h

-- After `_refresh` no pending item is overlooked: each one that is found by its id waits for a
-- dependency that is not terminal, or has a required dependency that did not succeed and is with
-- a human.
pub settled-Waits :
    (items : Items) (id : String) {x : WorkItem}
    → get id (settled items) ≡ some x
    → is_pending x.status ≡ true
    → Waits x (settled items)
unfolding advance_at
settled-Waits items id {x} found waiting =
    let (eases, stuck) = settled-Stuck items in
    let at_ids =
      All-unsort (λ id. advance_at id (settled items) ≡ none) str_le (map (λ x. x.task_id) items)
        stuck in
    let no_move : advance_at id (settled items) ≡ none =
      All-at (λ id. advance_at id (settled items) ≡ none) items (settled items) id {y = x} eases
        at_ids found in
    advance-Waits x (settled items) (ground arith) waiting
