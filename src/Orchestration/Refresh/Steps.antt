-- ===== src/Orchestration/Refresh/Steps.antt =====
-- One step of `_refresh`: which items it moves, and what keeps the others waiting.
use trusted_ceo_agent.Prelude.{
  Bool, true, false, not, ◌&&◌, Option, none, some, [], ◌∷◌, ◌≡◌, ◌⊎◌, refl, arith, any, filter,
  if◌then◌else◌,
}
use trusted_ceo_agent.Orchestration.Items.{
  Status, FailureCode, ready, WorkItem, Items, is_pending, is_terminal, awaits_human, is_superseded,
  is_cancelled, is_active, is_live,
}
use trusted_ceo_agent.Orchestration.Easing.{Eases, released-Eases}
use trusted_ceo_agent.Orchestration.Refresh.{dependencies, inherit_failure, advance, is_blocker}

-- An item that the loop's body moves was pending, and is pending no more.
abbrev pub Moves : WorkItem → WorkItem → Type 0
Moves x y =
    (is_pending x.status ≡ true)
    × (is_pending y.status ≡ false)
    × (y.task_id ≡ x.task_id)
    × Eases x y

pending_live : (x : WorkItem) → is_pending x.status ≡ true → is_live x.status ≡ true
pending_live x h = ground arith

-- A rewrite of the status and the failure code alone.
rewritten-Moves :
    (x : WorkItem) (st : Status) (code : Option FailureCode)
    → is_pending x.status ≡ true
    → is_pending st ≡ false
    → is_active st ≡ false
    → Moves x (record x { status = st; failure_code = code })
rewritten-Moves x st code h moved free = (
  h,
  moved,
  refl,
  released-Eases x (record x { status = st; failure_code = code }) (pending_live x h) refl refl
      free,
)

inherit_failure-Moves :
    (x : WorkItem) (blockers : Items)
    → is_pending x.status ≡ true
    → Moves x (inherit_failure x blockers)
unfolding inherit_failure
inherit_failure-Moves x blockers h =
    either (any (λ b. is_superseded b.status) blockers) (rewritten-Moves x _ _ h refl refl) (
      either (any (λ b. is_cancelled b.status) blockers) (rewritten-Moves x _ _ h refl refl)
        (rewritten-Moves x _ _ h refl refl))
  where
    either : (b : Bool) {y z : WorkItem} → Moves x y → Moves x z → Moves x (if b then y else z)
    either true m n = m
    either false m n = n

pub advance-Moves : (x y : WorkItem) (deps : Items) → advance x deps ≡ some y → Moves x y
unfolding advance
advance-Moves x y deps h = ground (
  arith,
  inherit_failure-Moves x (filter is_blocker deps),
  rewritten-Moves x ready x.failure_code,
)

-- What waits: the item has dependencies, and one of them is not terminal, or a required one that
-- did not succeed waits for a human.
abbrev pub Waits : WorkItem → Items → Type 0
Waits x items =
    (any (λ d. not (is_terminal d.status)) (dependencies x.dependency_ids items) ≡ true)
    ⊎ (any (λ b. is_blocker b && awaits_human b.status) (dependencies x.dependency_ids items)
        ≡ true)

any-filter : (p q : WorkItem → Bool) (xs : Items) → any q (filter p xs) ≡ any (λ x. p x && q x) xs
any-filter p q [] = refl
any-filter p q (x ∷ xs) = ground (arith, any-filter p q xs)

pub advance-Waits :
    (x : WorkItem) (items : Items)
    → advance x (dependencies x.dependency_ids items) ≡ none
    → is_pending x.status ≡ true
    → Waits x items
unfolding advance
advance-Waits x items h p = ground (
  arith,
  any-filter is_blocker (λ b. awaits_human b.status) (dependencies x.dependency_ids items),
)
