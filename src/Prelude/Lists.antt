-- ===== src/Prelude/Lists.antt =====
-- Lists with Boolean tests, lengths in the native numbers, and insertion sort.
use Prim.Native.Nat.{ℕ, zero, suc, ◌+◌}
use mathlib.Core.Path.{◌≡◌, refl}
use mathlib.Core.Bool.{Bool, true, false, ◌&&◌, ◌||◌}
use mathlib.Core.List.{List, [], ◌∷◌, ◌++◌}
use mathlib.Core.Option.{Option, none, some}
use trusted_ceo_agent.Prelude.Tests.{if◌then◌else◌}

module _ {ℓ} {A : Type ℓ} where
  abbrev pub length : List A → ℕ
  length [] = 0
  length (x ∷ xs) = suc (length xs)

  abbrev pub any : (A → Bool) → List A → Bool
  any p [] = false
  any p (x ∷ xs) = p x || any p xs

  abbrev pub all : (A → Bool) → List A → Bool
  all p [] = true
  all p (x ∷ xs) = p x && all p xs

  abbrev pub filter : (A → Bool) → List A → List A
  filter p [] = []
  filter p (x ∷ xs) = let rest = filter p xs in if p x then x ∷ rest else rest

  -- `next((x for x in xs if p(x)), None)`
  abbrev pub find : (A → Bool) → List A → Option A
  find p [] = none
  find p (x ∷ xs) = let rest = find p xs in if p x then some x else rest

  abbrev pub count : (A → Bool) → List A → ℕ
  count p [] = 0
  count p (x ∷ xs) = (if p x then 1 else 0) + count p xs

  abbrev pub is_nil : List A → Bool
  is_nil [] = true
  is_nil (x ∷ xs) = false

  abbrev pub All {κ} : (A → Type κ) → List A → Type κ
  All P [] = Unit
  All P (x ∷ xs) = P x × All P xs

  abbrev pub insert_sorted : (A → A → Bool) → A → List A → List A
  insert_sorted le a [] = a ∷ []
  insert_sorted le a (x ∷ xs) =
      let rest = insert_sorted le a xs in if le a x then a ∷ x ∷ xs else x ∷ rest

  -- `sorted`; it keeps the order of equal entries
  abbrev pub sort : (A → A → Bool) → List A → List A
  sort le [] = []
  sort le (x ∷ xs) = insert_sorted le x (sort le xs)

  abbrev pub take : ℕ → List A → List A
  take zero xs = []
  take (suc n) [] = []
  take (suc n) (x ∷ xs) = x ∷ take n xs

module _ {ℓ κ} {A : Type ℓ} (P : A → Type κ) where
  pub All-insert_sorted :
      (le : A → A → Bool) (a : A) (xs : List A) → P a → All P xs → All P (insert_sorted le a xs)
  All-insert_sorted le a [] h hs = (h, tt)
  All-insert_sorted le a (x ∷ xs) h hs =
      either (le a x) (h, (hs.0, hs.1)) (hs.0, All-insert_sorted le a xs h hs.1)
    where
      either :
          (b : Bool)
          → All P (a ∷ x ∷ xs)
          → All P (x ∷ insert_sorted le a xs)
          → All P (if b then a ∷ x ∷ xs else x ∷ insert_sorted le a xs)
      either true h k = h
      either false h k = k

  pub All-sort : (le : A → A → Bool) (xs : List A) → All P xs → All P (sort le xs)
  All-sort le [] hs = tt
  All-sort le (x ∷ xs) hs = All-insert_sorted le x (sort le xs) hs.0 (All-sort le xs hs.1)

module _ {ℓ κ} {A : Type ℓ} (P : A → Type κ) where
  pub All-snoc : (xs : List A) (a : A) → All P xs → P a → All P (xs ++ a ∷ [])
  All-snoc [] a hs h = (h, tt)
  All-snoc (x ∷ xs) a hs h = (hs.0, All-snoc xs a hs.1 h)

  All-uninsert :
      (le : A → A → Bool) (a : A) (xs : List A) → All P (insert_sorted le a xs) → P a × All P xs
  All-uninsert le a [] h = (h.0, tt)
  All-uninsert le a (x ∷ xs) h = either (All-uninsert le a xs) (le a x) h
    where
      put_back :
          (All P (insert_sorted le a xs) → P a × All P xs)
          → All P (x ∷ insert_sorted le a xs)
          → P a × All P (x ∷ xs)
      put_back ih k = let (pa, rest) = ih k.1 in (pa, (k.0, rest))

      either :
          (All P (insert_sorted le a xs) → P a × All P xs)
          → (b : Bool) → All P (if b then a ∷ x ∷ xs else x ∷ insert_sorted le a xs)
          → P a × All P (x ∷ xs)
      either ih true k = (k.0, k.1)
      either ih false k = put_back ih k

  -- What holds of all entries of a sorted list holds of all entries.
  pub All-unsort : (le : A → A → Bool) (xs : List A) → All P (sort le xs) → All P xs
  All-unsort le [] h = tt
  All-unsort le (x ∷ xs) h =
      let (px, rest) = All-uninsert le x (sort le xs) h in (px, All-unsort le xs rest)

-- What is kept satisfies the test, beside what all entries satisfy.
module _ {ℓ κ} {A : Type ℓ} (P : A → Type κ) where
  pub All-filter :
      (q : A → Bool) (xs : List A) → All P xs → All (λ x. P x × (q x ≡ true)) (filter q xs)
  All-filter q [] h = tt
  All-filter q (x ∷ xs) h = either (q x) refl (All-filter q xs h.1)
    where
      either :
          (b : Bool)
          → q x ≡ b
          → All (λ y. P y × (q y ≡ true)) (filter q xs)
          → All (λ y. P y × (q y ≡ true)) (if b then x ∷ filter q xs else filter q xs)
      either true e k = ((h.0, e), k)
      either false e k = k

pub All-weaken {ℓ κ μ} :
    {A : Type ℓ} {P : A → Type κ} {Q : A → Type μ}
    → ((x : A) → P x → Q x)
    → (xs : List A) → All P xs
    → All Q xs
All-weaken f [] h = tt
All-weaken f (x ∷ xs) h = (f x h.0, All-weaken f xs h.1)

module _ {ℓ κ} {A : Type ℓ} (P : A → Type κ) where
  pub All-append : (xs ys : List A) → All P xs → All P ys → All P (xs ++ ys)
  All-append [] ys h k = k
  All-append (x ∷ xs) ys h k = (h.0, All-append xs ys h.1 k)
