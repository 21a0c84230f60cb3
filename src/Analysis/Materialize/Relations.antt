-- ===== src/Analysis/Materialize/Relations.antt =====
-- The loop of `materialize_signal_cases` that relates cases to each other computes a symmetric closure.
use trusted_ceo_agent.Prelude.{
  String, Bool, true, false, ◌&&◌, ◌||◌, not, Option, none, some, is_some, List, [], ◌∷◌, ◌++◌, map,
  ◌≡◌, refl, sym, ap, ◌∙◌, subst, arith, all, All, All-weaken, inl, inr, ok, check, bind-ok,
  Bool-cases, Option-cases, str_eq, str_eq_iff, str_eq_refl, contains, sorted_set, contains-added,
  if◌then◌else◌,
}
use trusted_ceo_agent.Prelude.Keyed.{get_by-key, get_by-put_by_self, get_by-put_by_ne}
use trusted_ceo_agent.Analysis.Cases.{dangling_related, related_to_itself}
use trusted_ceo_agent.Analysis.Materialize.Specs.{Spec}
use trusted_ceo_agent.Analysis.Materialize.Merging.{
  Specs, spec_key, get_spec, put_spec, check_related, relate, relate_all, symmetric,
}

abbrev related_of : Option Spec → List String
related_of none = []
related_of (some spec) = spec.related_case_keys

-- A specification names another one as related.
abbrev pub relates : Specs → String → String → Bool
relates specs a b = contains (related_of (get_spec a specs)) b

abbrev present : Specs → String → Bool
present specs a = is_some (get_spec a specs)

module _ (key related : String) (specs : Specs) (spec : Spec)
    (found : get_spec related specs ≡ some spec) where
  abbrev added : Spec
  added = record spec { related_case_keys = sorted_set (spec.related_case_keys ++ key ∷ []) }

  get_spec-relate :
      (a : String)
      → get_spec a (relate key related specs)
        ≡ (if str_eq related a then some added else get_spec a specs)
  unfolding relate
  get_spec-relate a =
      let own : spec.case_key ≡ related = get_by-key spec_key related specs {c = spec} found in
      elim (Bool-cases (str_eq related a)) [
        | inl e ↦
            let here : related ≡ a = (str_eq_iff related a).0 e in
            let old : get_spec added.case_key specs ≡ some spec =
              subst (λ k. get_spec k specs ≡ some spec) (sym own) found in
            rw (e, found, relate)
              (subst (λ k. get_spec k (put_spec added specs) ≡ some added) (own ∙ here)
                (get_by-put_by_self spec_key added spec specs old))
        | inr e ↦ rw (e, found, relate) (get_by-put_by_ne spec_key a added specs (rw own e))
      ]

  relates-relate :
      (a b : String)
      → relates (relate key related specs) a b
        ≡ (relates specs a b || (str_eq related a && str_eq key b))
  relates-relate a b = elim (Bool-cases (str_eq related a)) [
    | inl e ↦
        let here : related ≡ a = (str_eq_iff related a).0 e in
        let old : get_spec a specs ≡ some spec =
          subst (λ k. get_spec k specs ≡ some spec) here found in
        ground (arith, get_spec-relate a, contains-added spec.related_case_keys key b)
    | inr e ↦ ground (arith, get_spec-relate a)
  ]

  present-relate : (a : String) → present (relate key related specs) a ≡ present specs a
  present-relate a = elim (Bool-cases (str_eq related a)) [
    | inl e ↦
        let here : related ≡ a = (str_eq_iff related a).0 e in
        let old : get_spec a specs ≡ some spec =
          subst (λ k. get_spec k specs ≡ some spec) here found in
        ground (arith, get_spec-relate a)
    | inr e ↦ ground (arith, get_spec-relate a)
  ]

relate_all-lem :
    (key : String) (rs : List String) (specs : Specs)
    → All (λ r. present specs r ≡ true) rs
    → (a b : String)
    → (relates (relate_all key rs specs) a b
        ≡ (relates specs a b || (contains rs a && str_eq key b)))
      × (present (relate_all key rs specs) a ≡ present specs a)
relate_all-lem key [] specs h a b = ground arith
relate_all-lem key (r ∷ rs) specs h a b = elim (Option-cases (get_spec r specs)) [
  | inl e ↦ absurd (ground (arith, h.0))
  | inr (spec, e) ↦
      let step = relates-relate key r specs spec e in
      let stays = present-relate key r specs spec e in
      let kept = All-weaken (λ x there. stays x ∙ there) rs h.1 in
      let (rel, pres) = relate_all-lem key rs (relate key r specs) kept a b in
      (ground (arith, rel, step a b), pres ∙ stays a)
]

-- What is related to is there.
abbrev IsClosed : Specs → Type 0
IsClosed specs = (a b : String) → relates specs a b ≡ true → present specs b ≡ true

All-contained :
    (P : String → Type 0) (xs : List String)
    → ((x : String) → contains xs x ≡ true → P x)
    → All P xs
All-contained P [] h = tt
All-contained P (x ∷ xs) h =
    (h x (rw (str_eq_refl x) refl), All-contained P xs (λ y there. h y (ground (arith, there))))

relates_own :
    (specs : Specs) (key x z : String)
    → str_eq key x ≡ true
    → relates specs x z ≡ contains (related_of (get_spec key specs)) z
relates_own specs key x z e =
    subst (λ k. relates specs k z ≡ relates specs key z) ((str_eq_iff key x).0 e) refl

symmetric-relates :
    (keys : List String) (specs : Specs)
    → IsClosed specs
    → (a b : String)
    → relates (symmetric keys specs) a b
      ≡ (relates specs a b || (contains keys b && relates specs b a))
unfolding symmetric
symmetric-relates [] specs closed a b = ground arith
symmetric-relates (key ∷ keys) specs closed a b = elim (Option-cases (get_spec key specs)) [
  | inl e ↦
      let rest = symmetric-relates keys specs closed a b in
      elim (Bool-cases (str_eq key b)) [
        | inl f ↦
            let none_there : relates specs b a ≡ false = relates_own specs key b a f ∙ rw e refl in
            rw (e, symmetric) (ground (arith, rest, none_there))
        | inr f ↦ rw (e, symmetric) (ground (arith, rest, f))
      ]
  | inr (spec, e) ↦
      let rs = spec.related_case_keys in
      let next = relate_all key rs specs in
      let there =
        All-contained (λ r. present specs r ≡ true) rs
          (λ r in_rs. closed key r (ground (arith, e, in_rs))) in
      let step = λ (x y : String). (relate_all-lem key rs specs there x y).0 in
      let stays = λ (x : String). (relate_all-lem key rs specs there x x).1 in
      let closed_next : IsClosed next = λ x y k. stays y ∙ elim (Bool-cases (relates specs x y)) [
        | inl old ↦ closed x y old
        | inr new ↦
            let at : str_eq key y ≡ true = ground (arith, step x y) in
            subst (λ z. present specs z ≡ true) ((str_eq_iff key y).0 at) (rw e refl)
      ] in
      let rest = symmetric-relates keys next closed_next a b in
      let whole : symmetric (key ∷ keys) specs ≡ symmetric keys next = rw (e, symmetric) refl in
      ap (λ (t : Specs). relates t a b) whole ∙ elim (Bool-cases (str_eq key b)) [
        | inl f ↦
            let own : relates specs b a ≡ contains rs a = relates_own specs key b a f ∙ rw e refl in
            elim (Bool-cases (str_eq key a)) [
              | inl g ↦
                  let own' : relates specs a b ≡ contains rs b =
                    relates_own specs key a b g ∙ rw e refl in
                  ground (arith, rest, step a b, step b a)
              | inr g ↦ ground (arith, rest, step a b, step b a)
            ]
        | inr f ↦ elim (Bool-cases (str_eq key a)) [
          | inl g ↦
              let own' : relates specs a b ≡ contains rs b =
                relates_own specs key a b g ∙ rw e refl in
              ground (arith, rest, step a b, step b a)
          | inr g ↦ ground (arith, rest, step a b, step b a)
        ]
      ]
]

all-contains :
    (p : String → Bool) (xs : List String) (b : String)
    → all p xs ≡ true
    → contains xs b ≡ true
    → p b ≡ true
all-contains p [] b h k = absurd (ground arith)
all-contains p (x ∷ xs) b h k = elim (Bool-cases (str_eq x b)) [
  | inl e ↦ subst (λ y. p y ≡ true) ((str_eq_iff x b).0 e) (ground arith)
  | inr e ↦ all-contains p xs b (ground arith) (ground arith)
]

check_related-contains :
    (keys : List String) (specs : Specs) (a b : String) {x : Unit {0}}
    → check_related keys specs ≡ ok x
    → relates specs a b ≡ true
    → contains keys b ≡ true
unfolding check_related
check_related-contains keys [] a b h k = absurd (ground arith)
check_related-contains keys (s ∷ specs) a b {x} h k =
    let (y, f, h1) =
      bind-ok (check (all (contains keys) s.related_case_keys) dangling_related) _ {b = x} h in
    let (z, g, h2) =
      bind-ok (check (not (contains s.related_case_keys s.case_key)) related_to_itself) _ {b = x}
        h1 in
    elim (Bool-cases (str_eq s.case_key a)) [
      | inl e ↦ all-contains (contains keys) s.related_case_keys b (ground arith) (ground arith)
      | inr e ↦ check_related-contains keys specs a b {x = x} h2 (ground arith)
    ]

contains-names : (specs : Specs) (b : String) → contains (map spec_key specs) b ≡ present specs b
contains-names [] b = refl
contains-names (s ∷ specs) b = ground (arith, contains-names specs b)

-- Once the specifications have passed the check of their relations, the loop makes of the relation its
-- symmetric closure: a case relates to another one afterwards if and only if either of them did before.
pub symmetric_closure :
    (specs : Specs) (a b : String)
    → check_related (map spec_key specs) specs ≡ ok tt
    → relates (symmetric (map spec_key specs) specs) a b ≡ (relates specs a b || relates specs b a)
symmetric_closure specs a b h =
    let closed : IsClosed specs = λ x y k.
      sym (contains-names specs y)
      ∙ check_related-contains (map spec_key specs) specs x y {x = tt} h k in
    elim (Bool-cases (relates specs b a)) [
      | inl e ↦
          let named : contains (map spec_key specs) b ≡ true =
            contains-names specs b ∙ ground (arith, Option-cases (get_spec b specs)) in
          ground (arith, symmetric-relates (map spec_key specs) specs closed a b)
      | inr e ↦ ground (arith, symmetric-relates (map spec_key specs) specs closed a b)
    ]
