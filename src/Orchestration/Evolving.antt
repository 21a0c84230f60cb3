-- ===== src/Orchestration/Evolving.antt =====
-- How an item may change over any calls: its work stays, and a terminal item stays as it is.
use trusted_ceo_agent.Prelude.{
  String, true, false, some, [], ◌∷◌, ◌≡◌, ◌⊎◌, refl, sym, ap, ◌∙◌, subst, inl, inr, arith, All,
  str_eq, str_eq_refl, Bool-cases,
}
use trusted_ceo_agent.Orchestration.Items.{WorkItem, Items, get, put, is_live, is_terminal}
use trusted_ceo_agent.Orchestration.Easing.{Eases, Pointwise, work_of}

-- Unchanged, or not terminal and still the same work.
abbrev pub Evolves : WorkItem → WorkItem → Type 0
Evolves x y = (x ≡ y) ⊎ ((is_terminal x.status ≡ false) × (work_of x ≡ work_of y))

live_not_terminal : (x : WorkItem) → is_live x.status ≡ true → is_terminal x.status ≡ false
live_not_terminal x h = ground arith

pub Eases-Evolves : (xs ys : Items) → Pointwise Eases xs ys → Pointwise Evolves xs ys
Eases-Evolves [] [] h = tt
Eases-Evolves (x ∷ xs) (y ∷ ys) h = (one h.0, Eases-Evolves xs ys h.1)
  where
    one : Eases x y → Evolves x y
    one (inl p) = inl p
    one (inr e) = inr (live_not_terminal x e.live, e.same_work)
Eases-Evolves [] (y ∷ ys) h = absurd h
Eases-Evolves (x ∷ xs) [] h = absurd h

Evolves-trans : (x y z : WorkItem) → Evolves x y → Evolves y z → Evolves x z
Evolves-trans x y z (inl p) k = subst (λ w. Evolves w z) (sym p) k
Evolves-trans x y z (inr h) (inl q) = subst (λ w. Evolves x w) q (inr h)
Evolves-trans x y z (inr h) (inr k) = inr (h.0, h.1 ∙ k.1)

pub Evolves-all_refl : (xs : Items) → Pointwise Evolves xs xs
Evolves-all_refl [] = tt
Evolves-all_refl (x ∷ xs) = (inl refl, Evolves-all_refl xs)

pub Evolves-all_trans :
    (xs ys zs : Items) → Pointwise Evolves xs ys → Pointwise Evolves ys zs → Pointwise Evolves xs zs
Evolves-all_trans [] [] [] h k = tt
Evolves-all_trans (x ∷ xs) (y ∷ ys) (z ∷ zs) h k =
    (Evolves-trans x y z h.0 k.0, Evolves-all_trans xs ys zs h.1 k.1)
Evolves-all_trans [] [] (z ∷ zs) h k = absurd k
Evolves-all_trans (x ∷ xs) (y ∷ ys) [] h k = absurd k
Evolves-all_trans [] (y ∷ ys) zs h k = absurd h
Evolves-all_trans (x ∷ xs) [] zs h k = absurd h

pub Evolves-put :
    (items : Items) (x y : WorkItem)
    → get y.task_id items ≡ some x
    → Evolves x y
    → Pointwise Evolves items (put y items)
Evolves-put [] x y h e = tt
Evolves-put (z ∷ zs) x y h e = elim (Bool-cases (str_eq z.task_id y.task_id)) [
  | inl here ↦ rw here (subst (λ w. Evolves w y) (ground arith) e, Evolves-all_refl zs)
  | inr there ↦ rw there (inl refl, Evolves-put zs x y (ground arith) e)
]

-- No two items have one id.
abbrev pub HasUniqueIds : Items → Type 0
HasUniqueIds [] = Unit
HasUniqueIds (x ∷ xs) = All (λ y. str_eq x.task_id y.task_id ≡ false) xs × HasUniqueIds xs

task_id-Evolves : (x y : WorkItem) → Evolves x y → x.task_id ≡ y.task_id
task_id-Evolves x y (inl p) = ap (λ (w : WorkItem). w.task_id) p
task_id-Evolves x y (inr e) = ap (λ (w : WorkItem). w.task_id) e.1

All-apart-Evolves :
    (a b : WorkItem) (xs ys : Items)
    → a.task_id ≡ b.task_id
    → Pointwise Evolves xs ys
    → All (λ y. str_eq a.task_id y.task_id ≡ false) xs
    → All (λ y. str_eq b.task_id y.task_id ≡ false) ys
All-apart-Evolves a b [] [] same h k = tt
All-apart-Evolves a b (x ∷ xs) (y ∷ ys) same h k = (
  subst (λ i. str_eq b.task_id i ≡ false) (task_id-Evolves x y h.0)
      (subst (λ i. str_eq i x.task_id ≡ false) same k.0),
  All-apart-Evolves a b xs ys same h.1 k.1,
)
All-apart-Evolves a b [] (y ∷ ys) same h k = absurd h
All-apart-Evolves a b (x ∷ xs) [] same h k = absurd h

pub HasUniqueIds-Evolves :
    (xs ys : Items) → Pointwise Evolves xs ys → HasUniqueIds xs → HasUniqueIds ys
HasUniqueIds-Evolves [] [] h k = tt
HasUniqueIds-Evolves (x ∷ xs) (y ∷ ys) h k = (
  All-apart-Evolves x y xs ys (task_id-Evolves x y h.0) h.1 k.0,
  HasUniqueIds-Evolves xs ys h.1 k.1,
)
HasUniqueIds-Evolves [] (y ∷ ys) h k = absurd h
HasUniqueIds-Evolves (x ∷ xs) [] h k = absurd h

found_behind :
    (z : WorkItem) (all_items xs : Items)
    → All (λ y. str_eq z.task_id y.task_id ≡ false) xs
    → All (λ y. get y.task_id all_items ≡ some y) xs
    → All (λ y. get y.task_id (z ∷ all_items) ≡ some y) xs
found_behind z all_items [] h k = tt
found_behind z all_items (x ∷ xs) h k = (rw h.0 k.0, found_behind z all_items xs h.1 k.1)

-- With unique ids every item is found by its own.
pub get_own : (xs : Items) → HasUniqueIds xs → All (λ y. get y.task_id xs ≡ some y) xs
get_own [] h = tt
get_own (x ∷ xs) h = (rw (str_eq_refl x.task_id), found_behind x xs xs h.0 (get_own xs h.1))

-- A terminal item that is found by its id is found so afterwards too, unchanged.
pub get-Evolves :
    (xs ys : Items) (id : String) (x : WorkItem)
    → Pointwise Evolves xs ys
    → get id xs ≡ some x
    → is_terminal x.status ≡ true
    → get id ys ≡ some x
get-Evolves [] [] id x h g t = absurd (ground arith)
get-Evolves (a ∷ xs) (b ∷ ys) id x h g t = elim (Bool-cases (str_eq a.task_id id)) [
  | inl e ↦
      let same : a ≡ x = ground arith in
      let there : str_eq b.task_id id ≡ true =
        subst (λ i. str_eq i id ≡ true) (task_id-Evolves a b h.0) e in
      rw there
        (ap some (sym (ended h.0 (subst (λ w. is_terminal w.status ≡ true) (sym same) t)) ∙ same))
  | inr e ↦
      let there : str_eq b.task_id id ≡ false =
        subst (λ i. str_eq i id ≡ false) (task_id-Evolves a b h.0) e in
      rw there (get-Evolves xs ys id x h.1 (ground arith) t)
]
  where
    ended : Evolves a b → is_terminal a.status ≡ true → a ≡ b
    ended (inl p) k = p
    ended (inr e) k = absurd (ground arith)
get-Evolves [] (b ∷ ys) id x h g t = absurd h
get-Evolves (a ∷ xs) [] id x h g t = absurd h

pub get-put :
    (items : Items) (id : String) (x y : WorkItem)
    → get id items ≡ some x
    → y.task_id ≡ id
    → get id (put y items) ≡ some y
get-put [] id x y g same = absurd (ground arith)
get-put (z ∷ zs) id x y g same = ground (arith, str_eq_refl id, get-put zs id x y)
