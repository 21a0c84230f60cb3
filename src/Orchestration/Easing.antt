-- ===== src/Orchestration/Easing.antt =====
-- How one item, and a list of items, may change while no worker takes anything.
use trusted_ceo_agent.Prelude.{
  ℕ, ◌≤◌, String, Bool, true, false, ◌&&◌, Option, none, some, [], ◌∷◌, ◌≡◌, ◌⊎◌, refl, sym, ap,
  ◌∙◌, subst, inl, inr, arith, All, count, str_eq, str_eq_iff, Bool-cases,
}
use trusted_ceo_agent.Orchestration.Items.{pending, WorkItem, Items, get, put, is_active, is_live}

-- The part of an item that no method writes.
abbrev pub work_of : WorkItem → WorkItem
work_of x = record x {
  attempt = 0;
  status = pending;
  lease_owner = none;
  result_ref = none;
  result_hash = none;
  failure_code = none;
}

-- A live item that becomes another: the same work and the same number of attempts, and it is
-- held by nobody or by the worker who held it.
pub record Eased (x y : WorkItem) : Type 0 where
  pub live : is_live x.status ≡ true
  pub same_work : work_of x ≡ work_of y
  pub same_attempt : x.attempt ≡ y.attempt
  pub held :
      (is_active y.status ≡ false) ⊎ ((is_active x.status ≡ true) × (x.lease_owner ≡ y.lease_owner))

abbrev pub Eases : WorkItem → WorkItem → Type 0
Eases x y = (x ≡ y) ⊎ Eased x y

-- An item that nobody holds afterwards.
pub released-Eases :
    (x y : WorkItem)
    → is_live x.status ≡ true
    → work_of x ≡ work_of y
    → x.attempt ≡ y.attempt
    → is_active y.status ≡ false
    → Eases x y
released-Eases x y live same attempt free =
    inr (record { live = live; same_work = same; same_attempt = attempt; held = inl free })

-- The lists have the same length, and the entries are related one by one.
abbrev pub Pointwise : (WorkItem → WorkItem → Type 0) → Items → Items → Type 0
Pointwise R [] [] = Unit
Pointwise R (x ∷ xs) (y ∷ ys) = R x y × Pointwise R xs ys
Pointwise R _ _ = ⊥

Eased-trans : (x y z : WorkItem) → Eased x y → Eased y z → Eased x z
Eased-trans x y z h k = record {
  live = h.live;
  same_work = h.same_work ∙ k.same_work;
  same_attempt = h.same_attempt ∙ k.same_attempt;
  held = ground (arith, h.held, k.held);
}

pub Eases-trans : (x y z : WorkItem) → Eases x y → Eases y z → Eases x z
Eases-trans x y z (inl p) k = subst (λ w. Eases w z) (sym p) k
Eases-trans x y z (inr h) (inl q) = subst (λ w. Eases x w) q (inr h)
Eases-trans x y z (inr h) (inr k) = inr (Eased-trans x y z h k)

pub Eases-all_refl : (xs : Items) → Pointwise Eases xs xs
Eases-all_refl [] = tt
Eases-all_refl (x ∷ xs) = (inl refl, Eases-all_refl xs)

pub Eases-all_trans :
    (xs ys zs : Items) → Pointwise Eases xs ys → Pointwise Eases ys zs → Pointwise Eases xs zs
Eases-all_trans [] [] [] h k = tt
Eases-all_trans (x ∷ xs) (y ∷ ys) (z ∷ zs) h k =
    (Eases-trans x y z h.0 k.0, Eases-all_trans xs ys zs h.1 k.1)
Eases-all_trans [] [] (z ∷ zs) h k = absurd k
Eases-all_trans (x ∷ xs) (y ∷ ys) [] h k = absurd k
Eases-all_trans [] (y ∷ ys) zs h k = absurd h
Eases-all_trans (x ∷ xs) [] zs h k = absurd h

-- An item that is found by an id has it.
pub task_id-get :
    (id : String) (items : Items) (x : WorkItem) → get id items ≡ some x → x.task_id ≡ id
task_id-get id [] x h = ground arith
task_id-get id (y ∷ ys) x h = ground (arith, str_eq_iff y.task_id id, task_id-get id ys x)

-- Writing back an item that has eased.
pub Eases-put :
    (items : Items) (x y : WorkItem)
    → get y.task_id items ≡ some x
    → Eases x y
    → Pointwise Eases items (put y items)
Eases-put [] x y h e = tt
Eases-put (z ∷ zs) x y h e = elim (Bool-cases (str_eq z.task_id y.task_id)) [
  | inl here ↦ rw here (subst (λ w. Eases w y) (ground arith) e, Eases-all_refl zs)
  | inr there ↦ rw there (inl refl, Eases-put zs x y (ground arith) e)
]

-- The workers' share: entries that are active and whose owner passes a test.
abbrev pub held_by : (Option String → Bool) → WorkItem → Bool
held_by f x = is_active x.status && f x.lease_owner

held_by-Eases :
    (f : Option String → Bool) (x y : WorkItem)
    → Eases x y
    → held_by f y ≡ true
    → held_by f x ≡ true
held_by-Eases f x y (inl p) h = subst (λ w. held_by f w ≡ true) (sym p) h
held_by-Eases f x y (inr e) h = ground (arith, e.held)

-- Easing never adds to what is held.
pub count-held-Eases :
    (f : Option String → Bool) (xs ys : Items)
    → Pointwise Eases xs ys
    → count (held_by f) ys ≤ count (held_by f) xs
count-held-Eases f [] [] h = omega arith
count-held-Eases f (x ∷ xs) (y ∷ ys) h =
    ground (arith, held_by-Eases f x y h.0, count-held-Eases f xs ys h.1)
count-held-Eases f [] (y ∷ ys) h = absurd h
count-held-Eases f (x ∷ xs) [] h = absurd h

attempt-Eases : (x y : WorkItem) → Eases x y → x.attempt ≡ y.attempt
attempt-Eases x y (inl p) = ap (λ (w : WorkItem). w.attempt) p
attempt-Eases x y (inr e) = e.same_attempt

pub attempts-Eases :
    (bound : ℕ) (xs ys : Items)
    → Pointwise Eases xs ys
    → All (λ x. x.attempt ≤ bound) xs
    → All (λ x. x.attempt ≤ bound) ys
attempts-Eases bound [] [] h k = tt
attempts-Eases bound (x ∷ xs) (y ∷ ys) h k =
    (subst (λ n. n ≤ bound) (attempt-Eases x y h.0) k.0, attempts-Eases bound xs ys h.1 k.1)
attempts-Eases bound [] (y ∷ ys) h k = absurd h
attempts-Eases bound (x ∷ xs) [] h k = absurd h
