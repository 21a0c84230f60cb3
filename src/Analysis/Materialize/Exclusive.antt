-- ===== src/Analysis/Materialize/Exclusive.antt =====
-- Which case has a signal: the loops of `materialize_signal_cases` keep one owner for each.
use trusted_ceo_agent.Prelude.{
  String, none, some, List, [], ◌∷◌, ◌++◌, map, ◌≡◌, refl, subst, arith, all, All, All-snoc,
  All-append, All-weaken, All-sorted_set, inl, inr, ok, check, bind-ok, Bool-cases, Option-cases,
  Outcome-cases, contains, str_eq, str_eq_iff, str_eq_refl,
}
use trusted_ceo_agent.Prelude.Keyed.{
  HasUniqueKeys, get_by-key, get_by-All, put_by-All, put_by-HasUniqueKeys, snoc-HasUniqueKeys,
}
use trusted_ceo_agent.Analysis.Cases.{dangling_signal}
use trusted_ceo_agent.Analysis.Materialize.Specs.{Signal, Spec, normalize_spec}
use trusted_ceo_agent.Analysis.Materialize.Merging.{
  Specs, spec_key, get_spec, put_spec, Owners, owner_of, claim, joined, join, file_spec, merge,
  relate, relate_all, symmetric,
}

-- The owner of each signal of a specification is the specification.
abbrev pub Owned : Owners → Spec → Type 0
Owned owners spec = All (λ s. owner_of s owners ≡ some spec.case_key) spec.signal_ids

-- The owners that are known stay.
abbrev Grows : Owners → Owners → Type 0
Grows owners owners' = (s k : String) → owner_of s owners ≡ some k → owner_of s owners' ≡ some k

owner-Grows :
    (s key : String) (owners : Owners) → owner_of s owners ≡ none → Grows owners ((s, key) ∷ owners)
owner-Grows s key owners new t k h = elim (Bool-cases (str_eq s t)) [
  | inl e ↦
      let same : s ≡ t = (str_eq_iff s t).0 e in
      absurd (ground (arith, subst (λ x. owner_of x owners ≡ none) same new))
  | inr e ↦ rw e h
]

claim-Grows :
    (key : String) (signals : List String) (owners : Owners) {r : Owners}
    → claim key signals owners ≡ ok r
    → Grows owners r × All (λ s. owner_of s r ≡ some key) signals
unfolding claim
claim-Grows key [] owners {r} h =
    let same : owners ≡ r = ground arith in (λ s k e. subst (λ o. owner_of s o ≡ some k) same e, tt)
claim-Grows key (s ∷ signals) owners {r} h = elim (Option-cases (owner_of s owners)) [
  | inl new ↦
      let (grows, all_owned) = claim-Grows key signals ((s, key) ∷ owners) {r = r} (ground arith) in
      (
        λ t k e. grows t k (owner-Grows s key owners new t k e),
        (grows s key (rw (str_eq_refl s) refl), all_owned),
      )
  | inr (k, known) ↦ elim (Bool-cases (str_eq k key)) [
    | inl e ↦
        let (grows, all_owned) = claim-Grows key signals owners {r = r} (ground arith) in
        let own : owner_of s owners ≡ some key = ground (arith, known, str_eq_iff k key) in
        (grows, (grows s key own, all_owned))
    | inr e ↦ absurd (ground arith)
  ]
]

Owned-Grows :
    (owners r : Owners) → Grows owners r → (spec : Spec) → Owned owners spec → Owned r spec
Owned-Grows owners r grows spec h = All-weaken (λ s. grows s spec.case_key) spec.signal_ids h

join-Owned :
    (owners : Owners) (current spec both : Spec)
    → current.case_key ≡ spec.case_key
    → Owned owners current
    → Owned owners spec
    → join current spec ≡ ok both
    → Owned owners both × (both.case_key ≡ current.case_key)
unfolding join
join-Owned owners current spec both same h k e =
    let made : joined current spec ≡ both = ground arith in
    subst (λ b. Owned owners b × (b.case_key ≡ current.case_key)) made
      (
        All-sorted_set (λ s. owner_of s owners ≡ some current.case_key)
            (current.signal_ids ++ spec.signal_ids)
            (All-append _ current.signal_ids spec.signal_ids h (rw same k)),
        refl,
      )

-- Distinct keys, and every signal owned by the specification that has it.
abbrev pub IsFiled : Owners → Specs → Type 0
IsFiled owners merged = HasUniqueKeys spec_key merged × All (Owned owners) merged

file_spec-IsFiled :
    (owners : Owners) (spec : Spec) (merged : Specs) {r : Specs}
    → IsFiled owners merged
    → Owned owners spec
    → file_spec spec merged ≡ ok r
    → IsFiled owners r
unfolding file_spec
file_spec-IsFiled owners spec merged {r} (unique, owned) own h =
    elim (Option-cases (get_spec spec.case_key merged)) [
      | inl new ↦
          let made : merged ++ spec ∷ [] ≡ r = ground arith in
          subst (IsFiled owners) made (
            snoc-HasUniqueKeys spec_key spec merged unique new,
            All-snoc (Owned owners) merged spec owned own,
          )
      | inr (current, found) ↦ elim (Outcome-cases (join current spec)) [
        | inr (x, e) ↦ absurd (ground arith)
        | inl (both, e) ↦
            let made : put_spec both merged ≡ r = ground arith in
            let old =
              get_by-All spec_key (Owned owners) spec.case_key merged {c = current} owned found in
            let (joint, _) =
              join-Owned owners current spec both
                (get_by-key spec_key spec.case_key merged {c = current} found) old own e in
            subst (IsFiled owners) made (
              put_by-HasUniqueKeys spec_key both merged unique,
              put_by-All spec_key (Owned owners) both merged owned joint,
            )
      ]
    ]

pub merge-IsFiled :
    (signals : List Signal) (raws : List Spec) (merged : Specs) (owners : Owners)
    {r : Specs × Owners}
    → IsFiled owners merged
    → merge signals raws merged owners ≡ ok r
    → IsFiled r.1 r.0
unfolding merge
merge-IsFiled signals [] merged owners {r} filed h =
    let same : (merged, owners) ≡ r = ground arith in subst (λ p. IsFiled p.1 p.0) same filed
merge-IsFiled signals (raw ∷ raws) merged owners {r} filed h =
    let (spec, e, rest) = bind-ok (normalize_spec raw) _ {b = r} h in
    let (x, f, rest') =
      bind-ok
        (check (all (contains (map (λ (s : Signal). s.signal_id) signals)) spec.signal_ids)
          dangling_signal)
        _ {b = r} rest in
    let (owners', g, rest'') =
      bind-ok (claim spec.case_key spec.signal_ids owners) _ {b = r} rest' in
    let (merged', k, last) = bind-ok (file_spec spec merged) _ {b = r} rest'' in
    let (grows, own) = claim-Grows spec.case_key spec.signal_ids owners {r = owners'} g in
    let kept : IsFiled owners' merged =
      (filed.0, All-weaken (Owned-Grows owners owners' grows) merged filed.1) in
    merge-IsFiled signals raws merged' owners' {r = r}
      (file_spec-IsFiled owners' spec merged {r = merged'} kept own k) last

relate-IsFiled :
    (owners : Owners) (key related : String) (specs : Specs)
    → IsFiled owners specs
    → IsFiled owners (relate key related specs)
unfolding relate
relate-IsFiled owners key related specs (unique, owned) =
    elim (Option-cases (get_spec related specs)) [
      | inl e ↦ rw (e, relate) (unique, owned)
      | inr (spec, e) ↦
          rw (e, relate)
            (
              put_by-HasUniqueKeys spec_key _ specs unique,
              put_by-All spec_key (Owned owners) _ specs owned
                  (get_by-All spec_key (Owned owners) related specs {c = spec} owned e),
            )
    ]

relate_all-IsFiled :
    (owners : Owners) (key : String) (rs : List String) (specs : Specs)
    → IsFiled owners specs
    → IsFiled owners (relate_all key rs specs)
relate_all-IsFiled owners key [] specs h = h
relate_all-IsFiled owners key (r ∷ rs) specs h =
    relate_all-IsFiled owners key rs (relate key r specs) (relate-IsFiled owners key r specs h)

pub symmetric-IsFiled :
    (owners : Owners) (keys : List String) (specs : Specs)
    → IsFiled owners specs
    → IsFiled owners (symmetric keys specs)
unfolding symmetric
symmetric-IsFiled owners [] specs h = h
symmetric-IsFiled owners (key ∷ keys) specs h = elim (Option-cases (get_spec key specs)) [
  | inl e ↦ rw (e, symmetric) (symmetric-IsFiled owners keys specs h)
  | inr (spec, e) ↦
      rw (e, symmetric)
        (symmetric-IsFiled owners keys _
          (relate_all-IsFiled owners key spec.related_case_keys specs h))
]
