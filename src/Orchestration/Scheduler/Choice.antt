-- ===== src/Orchestration/Scheduler/Choice.antt =====
-- What `lease` chooses: an item of the scheduler that is ready.
use trusted_ceo_agent.Prelude.{
  ℕ, ◌+◌, ◌≤◌, String, Bool, true, false, ◌&&◌, Option, some, List, [], ◌∷◌, ◌≡◌, refl, arith,
  subst, All, All-sort, count, filter, length, map, is_nil, ltb, contains, dedupe, str_eq,
  if◌then◌else◌, Bool-cases, inl, inr,
}
use trusted_ceo_agent.Orchestration.Items.{WorkItem, Items, put, is_ready, owned_by}
use trusted_ceo_agent.Orchestration.Easing.{held_by}
use trusted_ceo_agent.Orchestration.Scheduler.State.{Scheduler}
use trusted_ceo_agent.Orchestration.Scheduler.Leasing.{
  candidate, choose, head?, active_items, owns_active, by_case,
}

module _ (P : WorkItem → Type 0) where
  All-filter : (p : WorkItem → Bool) (xs : Items) → All P xs → All P (filter p xs)
  All-filter p [] h = tt
  All-filter p (x ∷ xs) h = either (p x) (h.0, All-filter p xs h.1) (All-filter p xs h.1)
    where
      either :
          (b : Bool)
          → All P (x ∷ filter p xs)
          → All P (filter p xs)
          → All P (if b then x ∷ filter p xs else filter p xs)
      either true h k = h
      either false h k = k

  head?-All : (xs : Items) (x : WorkItem) → All P xs → head? xs ≡ some x → P x
  head?-All [] x h e = absurd (ground arith)
  head?-All (y ∷ ys) x h e = let q : y ≡ x = cc in subst P q h.0

  choose-All :
      (bound : ℕ) (cases : List String) (xs : Items) (x : WorkItem)
      → All P xs
      → choose bound cases xs ≡ some x
      → P x
  unfolding choose
  choose-All bound cases [] x h e = absurd (ground arith)
  choose-All bound [] (y ∷ ys) x h e =
      head?-All (filter (λ z. str_eq z.signal_case_id y.signal_case_id) (y ∷ ys)) x
        (All-filter (λ z. str_eq z.signal_case_id y.signal_case_id) (y ∷ ys) h) e
  choose-All bound (c ∷ cases) (y ∷ ys) x h e =
      go (is_nil same && ltb (length (dedupe (c ∷ cases))) bound) e
    where
      same : Items
      same = filter (λ z. contains (c ∷ cases) z.signal_case_id) (y ∷ ys)

      go : (b : Bool) → (if b then some y else head? same) ≡ some x → P x
      go true p = let q : y ≡ x = cc in subst P q h.0
      go false p =
          head?-All same x (All-filter (λ z. contains (c ∷ cases) z.signal_case_id) (y ∷ ys) h) p

  -- What holds of all items holds of the chosen one.
  pub candidate-All : (s : Scheduler) (x : WorkItem) → All P s.items → candidate s ≡ some x → P x
  unfolding candidate
  candidate-All s x h e =
      choose-All s.policy.max_active_signal_cases
        (map (λ y. y.signal_case_id) (active_items s.items)) _ x
        (All-sort P by_case (filter (λ y. is_ready y.status) s.items)
          (All-filter (λ y. is_ready y.status) s.items h))
        e

  pub All-put : (items : Items) (y : WorkItem) → All P items → P y → All P (put y items)
  All-put [] y h py = tt
  All-put (x ∷ xs) y h py = elim (Bool-cases (str_eq x.task_id y.task_id)) [
    | inl e ↦ rw e (py, h.1)
    | inr e ↦ rw e (h.0, All-put xs y h.1 py)
  ]

filter-is_ready :
    (xs : Items) → All (λ x. is_ready x.status ≡ true) (filter (λ x. is_ready x.status) xs)
filter-is_ready [] = tt
filter-is_ready (x ∷ xs) = elim (Bool-cases (is_ready x.status)) [
  | inl e ↦ rw e (e, filter-is_ready xs)
  | inr e ↦ rw e (filter-is_ready xs)
]

-- The chosen item is ready.
pub candidate-ready :
    (s : Scheduler) (x : WorkItem) → candidate s ≡ some x → is_ready x.status ≡ true
unfolding candidate
candidate-ready s x e =
    choose-All (λ y. is_ready y.status ≡ true) s.policy.max_active_signal_cases
      (map (λ y. y.signal_case_id) (active_items s.items)) _ x
      (All-sort (λ y. is_ready y.status ≡ true) by_case (filter (λ y. is_ready y.status) s.items)
        (filter-is_ready s.items))
      e

pub count-put :
    (f : Option String → Bool) (items : Items) (y : WorkItem)
    → count (held_by f) (put y items) ≤ count (held_by f) items + (if held_by f y then 1 else 0)
count-put f [] y = ground arith
count-put f (x ∷ xs) y = ground (arith, count-put f xs y)

-- The number of active items, as `lease` counts it.
pub length-active : (xs : Items) → length (active_items xs) ≡ count (held_by (λ _. true)) xs
length-active [] = refl
length-active (x ∷ xs) = ground (arith, length-active xs)

pub unowned-count :
    (worker : String) (xs : Items)
    → owns_active worker xs ≡ false
    → count (held_by (owned_by worker)) xs ≡ 0
unowned-count worker [] h = refl
unowned-count worker (x ∷ xs) h = ground (arith, unowned-count worker xs)
