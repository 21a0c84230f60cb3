-- ===== src/Conditions/Limits.antt =====
-- What `validate_condition` accepts: the limits on nodes, depth and arguments, read off the expression.
use trusted_ceo_agent.Prelude.{
  ℕ, suc, ◌+◌, ◌≤◌, String, Bool, true, List, ◌≡◌, ◌↔◌, refl, arith, length, ok, check, bind-ok,
}
use Prim.Native.Nat.{max}
use trusted_ceo_agent.Conditions.Syntax.{
  Operand, Expression, all_of, any_of, negation, comparison, membership, presence, Args, no_args,
  arg,
}
use trusted_ceo_agent.Conditions.Validation.{
  validate_operand, validate_values, arg_count, in_range, enter, visit, visit_each,
  validate_condition, bad_arg_count, bad_value_count, max_nodes, max_depth,
}

-- The nodes of an expression; operands are not counted.
abbrev mutual
  pub size : Expression → ℕ
  size (all_of args) = suc (size_each args)
  size (any_of args) = suc (size_each args)
  size (negation e) = suc (size e)
  size (comparison op left right) = 1
  size (membership op left values) = 1
  size (presence op operand) = 1

  pub size_each : Args → ℕ
  size_each no_args = 0
  size_each (arg e es) = size e + size_each es

-- The nodes on the longest branch.
abbrev mutual
  pub height : Expression → ℕ
  height (all_of args) = suc (height_each args)
  height (any_of args) = suc (height_each args)
  height (negation e) = suc (height e)
  height (comparison op left right) = 1
  height (membership op left values) = 1
  height (presence op operand) = 1

  pub height_each : Args → ℕ
  height_each no_args = 0
  height_each (arg e es) = max (height e) (height_each es)

module _ (is_decimal is_date : String → Bool) where
  abbrev pub IsValid : Operand → Type 0
  IsValid o = validate_operand is_decimal is_date o ≡ ok tt

  abbrev pub AllValid : List Operand → Type 0
  AllValid vs = validate_values is_decimal is_date vs ≡ ok tt

  -- Valid operands, and from 1 to 16 arguments and values, at all nodes.
  abbrev mutual
    pub IsWell : Expression → Type 0
    IsWell (all_of args) = (in_range (arg_count args) ≡ true) × IsWellEach args
    IsWell (any_of args) = (in_range (arg_count args) ≡ true) × IsWellEach args
    IsWell (negation e) = IsWell e
    IsWell (comparison op left right) = IsValid left × IsValid right
    IsWell (membership op left values) =
        IsValid left × (in_range (length values) ≡ true) × AllValid values
    IsWell (presence op operand) = IsValid operand

    pub IsWellEach : Args → Type 0
    IsWellEach no_args = Unit
    IsWellEach (arg e es) = IsWell e × IsWellEach es

  mutual
    unfolding visit visit_each

    visit-accepts :
        (e : Expression) (d n : ℕ)
        → n + size e ≤ 64
        → d + height e ≤ 9
        → IsWell e
        → visit is_decimal is_date e d n ≡ ok (n + size e)
    visit-accepts (all_of args) d n few flat well =
        ground (arith, visit_each-accepts args (suc d) (suc n), well.0, well.1)
    visit-accepts (any_of args) d n few flat well =
        ground (arith, visit_each-accepts args (suc d) (suc n), well.0, well.1)
    visit-accepts (negation e) d n few flat well = ground (arith, visit-accepts e (suc d) (suc n))
    visit-accepts (comparison op left right) d n few flat well = ground (arith, well.0, well.1)
    visit-accepts (membership op left values) d n few flat well = ground arith
    visit-accepts (presence op operand) d n few flat well = ground arith

    visit_each-accepts :
        (es : Args) (d n : ℕ)
        → n + size_each es ≤ 64
        → d + height_each es ≤ 9
        → IsWellEach es
        → visit_each is_decimal is_date es d n ≡ ok (n + size_each es)
    visit_each-accepts no_args d n few flat well = ground arith
    visit_each-accepts (arg e es) d n few flat well =
        ground (arith, visit-accepts e d n, visit_each-accepts es d (n + size e), well.0, well.1)

  -- What an accepted expression says of itself, seen from `d` levels and `n` nodes.
  abbrev Fits : ℕ → ℕ → ℕ → ℕ → ℕ → Type 0
  Fits d n nodes levels m = (m ≡ n + nodes) × (n + nodes ≤ 64) × (d + levels ≤ 9)

  mutual
    unfolding visit visit_each

    visit-Fits :
        (e : Expression) (d n : ℕ) {m : ℕ}
        → visit is_decimal is_date e d n ≡ ok m
        → Fits d n (size e) (height e) m × IsWell e
    visit-Fits (all_of args) d n {m} h =
        let (x, f, h1) = bind-ok (enter d (suc n)) _ {b = m} h in
        let (y, g, h2) = bind-ok (check (in_range (arg_count args)) bad_arg_count) _ {b = m} h1 in
        let (fits, well) =
          visit_each-Fits args (suc d) (suc n) {m = m} (ground arith) (ground arith) h2 in
        (ground (arith, fits.0, fits.1, fits.2), (ground arith, well))
    visit-Fits (any_of args) d n {m} h =
        let (x, f, h1) = bind-ok (enter d (suc n)) _ {b = m} h in
        let (y, g, h2) = bind-ok (check (in_range (arg_count args)) bad_arg_count) _ {b = m} h1 in
        let (fits, well) =
          visit_each-Fits args (suc d) (suc n) {m = m} (ground arith) (ground arith) h2 in
        (ground (arith, fits.0, fits.1, fits.2), (ground arith, well))
    visit-Fits (negation e) d n {m} h =
        let (x, f, h1) = bind-ok (enter d (suc n)) _ {b = m} h in
        let (fits, well) = visit-Fits e (suc d) (suc n) {m = m} h1 in
        (ground (arith, fits.0, fits.1, fits.2), well)
    visit-Fits (comparison op left right) d n {m} h =
        let (x, f, h1) = bind-ok (enter d (suc n)) _ {b = m} h in
        let (y, g, h2) = bind-ok (validate_operand is_decimal is_date left) _ {b = m} h1 in
        let (z, k, h3) = bind-ok (validate_operand is_decimal is_date right) _ {b = m} h2 in
        (ground arith, (g, k))
    visit-Fits (membership op left values) d n {m} h =
        let (x, f, h1) = bind-ok (enter d (suc n)) _ {b = m} h in
        let (y, g, h2) = bind-ok (validate_operand is_decimal is_date left) _ {b = m} h1 in
        let (z, k, h3) = bind-ok (check (in_range (length values)) bad_value_count) _ {b = m} h2 in
        let (u, l, h4) = bind-ok (validate_values is_decimal is_date values) _ {b = m} h3 in
        (ground arith, (g, ground arith, l))
    visit-Fits (presence op operand) d n {m} h =
        let (x, f, h1) = bind-ok (enter d (suc n)) _ {b = m} h in
        let (y, g, h2) = bind-ok (validate_operand is_decimal is_date operand) _ {b = m} h1 in
        (ground arith, g)

    visit_each-Fits :
        (es : Args) (d n : ℕ) {m : ℕ}
        → n ≤ 64
        → d ≤ 9
        → visit_each is_decimal is_date es d n ≡ ok m
        → Fits d n (size_each es) (height_each es) m × IsWellEach es
    visit_each-Fits no_args d n {m} few flat h = (ground arith, tt)
    visit_each-Fits (arg e es) d n {m} few flat h =
        let (k, f, h1) = bind-ok (visit is_decimal is_date e d n) _ {b = m} h in
        let (fits, well) = visit-Fits e d n {m = k} f in
        let (rest, wells) =
          visit_each-Fits es d k {m = m} (omega (arith, fits.0, fits.1)) flat h1 in
        (
          (
            omega (arith, fits.0, rest.0),
            omega (arith, fits.0, rest.1),
            omega (arith, fits.2, rest.2),
          ),
          (well, wells),
        )

  -- `validate_condition` accepts exactly the expressions of at most 64 nodes and at most 8 levels whose
  -- operands are valid and whose nodes have from 1 to 16 arguments or values.
  pub validate_condition_iff :
      (e : Expression)
      → (validate_condition is_decimal is_date e ≡ ok tt)
        ↔ ((size e ≤ max_nodes) × (height e ≤ max_depth) × IsWell e)
  unfolding validate_condition
  validate_condition_iff e = (
    λ h.
        let (m, f, h1) = bind-ok (visit is_decimal is_date e 1 0) _ {b = tt} h in
        let (fits, well) = visit-Fits e 1 0 {m = m} f in
        (omega (arith, fits.1), omega (arith, fits.2), well),
    λ (few, flat, well).
        rw (visit-accepts e 1 0 (omega (arith, few)) (omega (arith, flat)) well) refl,
  )
