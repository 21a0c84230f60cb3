-- ===== src/Prelude/Texts.antt =====
-- Text tests. Python orders text by code points, as `compare` does.
use Prim.Native.String.{String, compare}
use mathlib.Core.Path.{◌≡◌, refl}
use native.Mathlib.Omega.{arith}
use mathlib.Core.Bool.{Bool, false, not, ◌||◌, ◌&&◌}
use mathlib.Core.List.{List, [], ◌∷◌, ◌++◌}
use Prim.Native.Nat.{ℕ}
use Prim.Native.Char.{code}
use trusted_ceo_agent.Prelude.Lists.{
  insert_sorted, filter, sort, length, all, All, All-sort, All-filter, All-weaken,
}
use trusted_ceo_agent.Prelude.Tests.{leb, ◌==◌}
use text.Mathlib.Text.{is_le}
pub use text.Mathlib.Text.{◌==◌ as str_eq, starts_with}
pub use text.Mathlib.TextEquality.{eq_iff as str_eq_iff}
pub use text.Mathlib.TextPositions.{eq_refl as str_eq_refl}

abbrev pub str_le : String → String → Bool
str_le a b = is_le (compare a b)

-- `if not value` for a text
abbrev pub is_empty_text : String → Bool
is_empty_text s = str_eq s ""

abbrev pub contains : List String → String → Bool
contains [] s = false
contains (x ∷ xs) s = str_eq x s || contains xs s

-- `set(values)`, in the order of the first occurrences
abbrev pub dedupe : List String → List String
dedupe [] = []
dedupe (x ∷ xs) = x ∷ filter (λ y. not (str_eq x y)) (dedupe xs)

-- `sorted(set(values))`
abbrev pub sorted_set : List String → List String
sorted_set xs = sort str_le (dedupe xs)

-- `len(values) != len(set(values))`
abbrev pub has_duplicates : List String → Bool
has_duplicates [] = false
has_duplicates (x ∷ xs) = contains xs x || has_duplicates xs

-- The code points of a text.
abbrev pub codes : String → List ℕ
codes String.[] = []
codes (String.◌∷◌ c s) = code c ∷ codes s

abbrev pub is_hex_digit : ℕ → Bool
is_hex_digit c = (leb b'0' c && leb c b'9') || (leb b'a' c && leb c b'f')

-- A lowercase SHA-256 digest: 64 hexadecimal digits.
abbrev pub is_sha256_text : String → Bool
is_sha256_text s = (length (codes s) == 64) && all is_hex_digit (codes s)

module _ {κ} (P : String → Type κ) where
  All-dedupe : (xs : List String) → All P xs → All P (dedupe xs)
  All-dedupe [] h = tt
  All-dedupe (x ∷ xs) h = (
    h.0,
    All-weaken (λ y. λ both. both.0) (filter (λ y. not (str_eq x y)) (dedupe xs))
        (All-filter P (λ y. not (str_eq x y)) (dedupe xs) (All-dedupe xs h.1)),
  )

  pub All-sorted_set : (xs : List String) → All P xs → All P (sorted_set xs)
  All-sorted_set xs h = All-sort P str_le (dedupe xs) (All-dedupe xs h)

contains-insert_sorted :
    (le : String → String → Bool) (a : String) (xs : List String) (s : String)
    → contains (insert_sorted le a xs) s ≡ (str_eq a s || contains xs s)
contains-insert_sorted le a [] s = refl
contains-insert_sorted le a (x ∷ xs) s = ground (arith, contains-insert_sorted le a xs s)

contains-sort :
    (le : String → String → Bool) (xs : List String) (s : String)
    → contains (sort le xs) s ≡ contains xs s
contains-sort le [] s = refl
contains-sort le (x ∷ xs) s =
    ground (arith, contains-insert_sorted le x (sort le xs) s, contains-sort le xs s)

contains-filter :
    (x : String) (ys : List String) (s : String)
    → contains (filter (λ y. not (str_eq x y)) ys) s ≡ (not (str_eq x s) && contains ys s)
contains-filter x [] s = ground arith
contains-filter x (y ∷ ys) s =
    ground (arith, contains-filter x ys s, str_eq_iff x y, str_eq_iff y s, str_eq_iff x s)

contains-dedupe : (xs : List String) (s : String) → contains (dedupe xs) s ≡ contains xs s
contains-dedupe [] s = refl
contains-dedupe (x ∷ xs) s = ground (arith, contains-filter x (dedupe xs) s, contains-dedupe xs s)

contains-append :
    (xs ys : List String) (s : String) → contains (xs ++ ys) s ≡ (contains xs s || contains ys s)
contains-append [] ys s = refl
contains-append (x ∷ xs) ys s = ground (arith, contains-append xs ys s)

-- What a key is added to.
pub contains-added :
    (xs : List String) (k s : String)
    → contains (sorted_set (xs ++ k ∷ [])) s ≡ (contains xs s || str_eq k s)
contains-added xs k s = ground (
  arith,
  contains-sort str_le (dedupe (xs ++ k ∷ [])) s,
  contains-dedupe (xs ++ k ∷ []) s,
  contains-append xs (k ∷ []) s,
)
