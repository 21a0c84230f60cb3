-- ===== src/Prelude/Keyed.antt =====
-- A dictionary kept as the list of its values, each with its key, in the order of insertion.
use Prim.Native.Nat.{ℕ, ◌+◌}
use Prim.Native.String.{String}
use mathlib.Core.Path.{◌≡◌, refl, subst}
use mathlib.Core.Logic.{inl, inr}
use mathlib.Core.Bool.{Bool, false}
use mathlib.Core.List.{List, [], ◌∷◌, ◌++◌}
use mathlib.Core.Option.{Option, none, some}
use native.Mathlib.Omega.{arith}
use trusted_ceo_agent.Prelude.Tests.{if◌then◌else◌, Bool-cases}
use trusted_ceo_agent.Prelude.Lists.{
  All-sort, All-snoc, All-insert_sorted, insert_sorted, sort, find, All,
}
use trusted_ceo_agent.Prelude.Texts.{str_eq, str_eq_iff, str_eq_refl}

module _ {A : Type 0} (key : A → String) where
  abbrev pub get_by : String → List A → Option A
  get_by k xs = find (λ x. str_eq (key x) k) xs

  abbrev pub put_by : A → List A → List A
  put_by u [] = []
  put_by u (x ∷ xs) = let rest = put_by u xs in if str_eq (key x) (key u) then u ∷ xs else x ∷ rest

  -- No two values have one key.
  abbrev pub HasUniqueKeys : List A → Type 0
  HasUniqueKeys [] = Unit
  HasUniqueKeys (x ∷ xs) = All (λ y. str_eq (key x) (key y) ≡ false) xs × HasUniqueKeys xs

  pub get_by-key : (k : String) (xs : List A) {c : A} → get_by k xs ≡ some c → key c ≡ k
  get_by-key k [] h = absurd (ground arith)
  get_by-key k (x ∷ xs) {c} h = elim (Bool-cases (str_eq (key x) k)) [
    | inl e ↦
        let same : x ≡ c = ground arith in subst (λ y. key y ≡ k) same ((str_eq_iff (key x) k).0 e)
    | inr e ↦ get_by-key k xs (ground arith)
  ]

  pub get_by-put_by_self :
      (u c : A) (xs : List A) → get_by (key u) xs ≡ some c → get_by (key u) (put_by u xs) ≡ some u
  get_by-put_by_self u c [] h = absurd (ground arith)
  get_by-put_by_self u c (x ∷ xs) h = ground (arith, get_by-put_by_self u c xs, str_eq_refl (key u))

  pub get_by-put_by_ne :
      (k : String) (u : A) (xs : List A)
      → str_eq (key u) k ≡ false
      → get_by k (put_by u xs) ≡ get_by k xs
  get_by-put_by_ne k u [] h = refl
  get_by-put_by_ne k u (x ∷ xs) h = ground (
    arith,
    get_by-put_by_ne k u xs h,
    str_eq_iff (key x) (key u),
    str_eq_iff (key x) k,
    str_eq_iff (key u) k,
  )

  -- The sum of a measure over the values changes by the one that is written.
  abbrev pub total : (A → ℕ) → List A → ℕ
  total f [] = 0
  total f (x ∷ xs) = f x + total f xs

  pub total-put_by :
      (f : A → ℕ) (u c : A) (xs : List A)
      → get_by (key u) xs ≡ some c
      → total f (put_by u xs) + f c ≡ total f xs + f u
  total-put_by f u c [] h = absurd (ground arith)
  total-put_by f u c (x ∷ xs) h = ground (arith, total-put_by f u c xs)

  found_behind :
      (z : A) (all xs : List A)
      → All (λ y. str_eq (key z) (key y) ≡ false) xs
      → All (λ y. get_by (key y) all ≡ some y) xs
      → All (λ y. get_by (key y) (z ∷ all) ≡ some y) xs
  found_behind z all [] h k = tt
  found_behind z all (x ∷ xs) h k = (rw h.0 k.0, found_behind z all xs h.1 k.1)

  -- With unique keys every value is found by its own.
  pub get_by_own : (xs : List A) → HasUniqueKeys xs → All (λ y. get_by (key y) xs ≡ some y) xs
  get_by_own [] h = tt
  get_by_own (x ∷ xs) h = (rw (str_eq_refl (key x)), found_behind x xs xs h.0 (get_by_own xs h.1))

  apart-put_by :
      (z u : A) (xs : List A)
      → All (λ y. str_eq (key z) (key y) ≡ false) xs
      → All (λ y. str_eq (key z) (key y) ≡ false) (put_by u xs)
  apart-put_by z u [] h = tt
  apart-put_by z u (x ∷ xs) h = elim (Bool-cases (str_eq (key x) (key u))) [
    | inl e ↦
        rw e (subst (λ k. str_eq (key z) k ≡ false) ((str_eq_iff (key x) (key u)).0 e) h.0, h.1)
    | inr e ↦ rw e (h.0, apart-put_by z u xs h.1)
  ]

  pub put_by-HasUniqueKeys : (u : A) (xs : List A) → HasUniqueKeys xs → HasUniqueKeys (put_by u xs)
  put_by-HasUniqueKeys u [] h = tt
  put_by-HasUniqueKeys u (x ∷ xs) h = elim (Bool-cases (str_eq (key x) (key u))) [
    | inl e ↦
        let same = (str_eq_iff (key x) (key u)).0 e in
        rw e (subst (λ k. All (λ y. str_eq k (key y) ≡ false) xs) same h.0, h.1)
    | inr e ↦ rw e (apart-put_by x u xs h.0, put_by-HasUniqueKeys u xs h.1)
  ]

  pub put_by-All : (P : A → Type 0) (u : A) (xs : List A) → All P xs → P u → All P (put_by u xs)
  put_by-All P u [] h k = tt
  put_by-All P u (x ∷ xs) h k = elim (Bool-cases (str_eq (key x) (key u))) [
    | inl e ↦ rw e (k, h.1)
    | inr e ↦ rw e (h.0, put_by-All P u xs h.1 k)
  ]

  pub get_by-All :
      (P : A → Type 0) (k : String) (xs : List A) {c : A} → All P xs → get_by k xs ≡ some c → P c
  get_by-All P k [] h e = absurd (ground arith)
  get_by-All P k (x ∷ xs) {c} h e = elim (Bool-cases (str_eq (key x) k)) [
    | inl here ↦ let same : x ≡ c = ground arith in subst P same h.0
    | inr there ↦ get_by-All P k xs h.1 (ground arith)
  ]

  -- A value whose key is new goes to the end.
  pub snoc-HasUniqueKeys :
      (c : A) (xs : List A)
      → HasUniqueKeys xs
      → get_by (key c) xs ≡ none
      → HasUniqueKeys (xs ++ c ∷ [])
  snoc-HasUniqueKeys c [] h e = (tt, tt)
  snoc-HasUniqueKeys c (x ∷ xs) h e = elim (Bool-cases (str_eq (key x) (key c))) [
    | inl same ↦ absurd (ground arith)
    | inr other ↦ (All-snoc _ xs c h.0 other, snoc-HasUniqueKeys c xs h.1 (ground arith))
  ]

  insert_sorted-HasUniqueKeys :
      (le : A → A → Bool) (a : A) (xs : List A)
      → All (λ y. str_eq (key a) (key y) ≡ false) xs
      → HasUniqueKeys xs
      → HasUniqueKeys (insert_sorted le a xs)
  insert_sorted-HasUniqueKeys le a [] apart h = (tt, tt)
  insert_sorted-HasUniqueKeys le a (x ∷ xs) apart h = elim (Bool-cases (le a x)) [
    | inl e ↦ rw e (apart, h)
    | inr e ↦ rw e (
      All-insert_sorted (λ y. str_eq (key x) (key y) ≡ false) le a xs
          (ground (arith, apart.0, str_eq_iff (key a) (key x), str_eq_iff (key x) (key a))) h.0,
      insert_sorted-HasUniqueKeys le a xs apart.1 h.1,
    )
  ]

  pub sort-HasUniqueKeys :
      (le : A → A → Bool) (xs : List A) → HasUniqueKeys xs → HasUniqueKeys (sort le xs)
  sort-HasUniqueKeys le [] h = tt
  sort-HasUniqueKeys le (x ∷ xs) h =
      insert_sorted-HasUniqueKeys le x (sort le xs)
        (All-sort (λ y. str_eq (key x) (key y) ≡ false) le xs h.0) (sort-HasUniqueKeys le xs h.1)
