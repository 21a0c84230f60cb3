-- ===== src/Analysis/Queue/Ranking.antt =====
-- The order of the priority vectors, and the candidates in this order.
use trusted_ceo_agent.Prelude.{
  ℕ, String, Bool, true, false, some, List, [], ◌∷◌, ◌≡◌, refl, sym, ◌∙◌, subst, arith, length, All,
  inl, inr, Bool-cases, Option-cases, ltb, if◌then◌else◌,
}
use trusted_ceo_agent.Analysis.Cases.{PriorityRecord}
use trusted_ceo_agent.Analysis.Queue.State.{Cases}
use trusted_ceo_agent.Analysis.Queue.Methods.{vector_of, precedes, Ranked, ranked, first_of}

-- A vector that is larger at the first place where two of them differ.
abbrev pub above : List ℕ → List ℕ → Bool
above [] bs = false
above (a ∷ as_) [] = true
above (a ∷ as_) (b ∷ bs) =
    let rest = above as_ bs in if ltb b a then true else if ltb a b then false else rest

above_trans : (a b c : List ℕ) → above a b ≡ false → above b c ≡ false → above a c ≡ false
above_trans [] b c h k = refl
above_trans (x ∷ a) [] c h k = absurd (ground arith)
above_trans (x ∷ a) (y ∷ b) [] h k = absurd (ground arith)
above_trans (x ∷ a) (y ∷ b) (z ∷ c) h k = ground (arith, above_trans a b c)

precedes-above :
    (a b : List ℕ) (i j : String)
    → length a ≡ length b
    → precedes a i b j ≡ true
    → above b a ≡ false
unfolding precedes
precedes-above [] [] i j same h = refl
precedes-above [] (y ∷ b) i j same h = absurd (omega arith)
precedes-above (x ∷ a) [] i j same h = refl
precedes-above (x ∷ a) (y ∷ b) i j same h = ground (arith, precedes-above a b i j)

precedes_not-above :
    (a b : List ℕ) (i j : String)
    → length a ≡ length b
    → precedes a i b j ≡ false
    → above a b ≡ false
unfolding precedes
precedes_not-above [] b i j same h = refl
precedes_not-above (x ∷ a) [] i j same h = absurd (omega arith)
precedes_not-above (x ∷ a) (y ∷ b) i j same h = ground (arith, precedes_not-above a b i j)

abbrev pub IsFull : Ranked → Type 0
IsFull r = length r.0 ≡ 7

-- What the first candidate and the later ones satisfy, the best one does.
pub first_of_lem :
    (P : Ranked → Type 0) (r : Ranked) (rs : List Ranked) → P r → All P rs → P (first_of r rs)
unfolding first_of
first_of_lem P r [] h hs = h
first_of_lem P r (s ∷ rs) h hs = elim (Bool-cases (precedes r.0 r.1.case_id s.0 s.1.case_id)) [
  | inl e ↦ rw (e, first_of) (first_of_lem P r rs h hs.1)
  | inr e ↦ rw (e, first_of) (first_of_lem P s rs hs.0 hs.1)
]

pub first_of-above :
    (v : List ℕ) (r : Ranked) (rs : List Ranked)
    → IsFull r
    → All IsFull rs
    → above v r.0 ≡ false
    → above v (first_of r rs).0 ≡ false
unfolding first_of
first_of-above v r [] full fulls h = h
first_of-above v r (s ∷ rs) full fulls h =
    elim (Bool-cases (precedes r.0 r.1.case_id s.0 s.1.case_id)) [
      | inl e ↦ rw (e, first_of) (first_of-above v r rs full fulls.1 h)
      | inr e ↦
          let worse = precedes_not-above r.0 s.0 r.1.case_id s.1.case_id (full ∙ sym fulls.0) e in
          rw (e, first_of) (first_of-above v s rs fulls.0 fulls.1 (above_trans v r.0 s.0 h worse))
    ]

pub above_refl : (v : List ℕ) → above v v ≡ false
above_refl [] = refl
above_refl (x ∷ v) = ground (arith, above_refl v)

pub first_of-All-above :
    (r : Ranked) (rs : List Ranked)
    → IsFull r
    → All IsFull rs
    → All (λ (s : Ranked). above s.0 (first_of r rs).0 ≡ false) rs
unfolding first_of
first_of-All-above r [] full fulls = tt
first_of-All-above r (s ∷ rs) full fulls =
    elim (Bool-cases (precedes r.0 r.1.case_id s.0 s.1.case_id)) [
      | inl e ↦
          let worse = precedes-above r.0 s.0 r.1.case_id s.1.case_id (full ∙ sym fulls.0) e in
          let kept : first_of r rs ≡ first_of r (s ∷ rs) = rw (e, first_of) refl in
          subst IsTop kept
            (first_of-above s.0 r rs full fulls.1 worse, first_of-All-above r rs full fulls.1)
      | inr e ↦
          let moved : first_of s rs ≡ first_of r (s ∷ rs) = rw (e, first_of) refl in
          subst IsTop moved (
            first_of-above s.0 s rs fulls.0 fulls.1 (above_refl s.0),
            first_of-All-above s rs fulls.0 fulls.1,
          )
    ]
  where
    IsTop : Ranked → Type 0
    IsTop b = All (λ (z : Ranked). above z.0 b.0 ≡ false) (s ∷ rs)

-- The candidates of `ranked` are the given cases with their own vectors.
pub ranked-vectors :
    (ps : List PriorityRecord) (cs : Cases) {rs : List Ranked}
    → ranked ps cs ≡ some rs
    → All (λ (r : Ranked). vector_of ps r.1 ≡ some r.0) rs
unfolding ranked
ranked-vectors ps [] {rs} e = let same : [] ≡ rs = ground arith in subst (All _) same tt
ranked-vectors ps (c ∷ cs) {rs} e = elim (Option-cases (ranked ps cs)) [
  | inl n ↦ absurd (ground arith)
  | inr (ss, n) ↦ elim (Option-cases (vector_of ps c)) [
    | inl m ↦ absurd (ground arith)
    | inr (v, m) ↦
        let same : (v, c) ∷ ss ≡ rs = ground arith in
        subst (All (λ (r : Ranked). vector_of ps r.1 ≡ some r.0)) same (m, ranked-vectors ps cs n)
  ]
]

-- What holds of all candidates of `ranked` holds of all cases, with their vectors.
pub ranked_back :
    (P : Ranked → Type 0) (ps : List PriorityRecord) (cs : Cases) {rs : List Ranked}
    → ranked ps cs ≡ some rs
    → All P rs
    → All (λ c. (v : List ℕ) × (vector_of ps c ≡ some v) × P (v, c)) cs
unfolding ranked
ranked_back P ps [] e h = tt
ranked_back P ps (c ∷ cs) {rs} e h = elim (Option-cases (ranked ps cs)) [
  | inl n ↦ absurd (ground arith)
  | inr (ss, n) ↦ elim (Option-cases (vector_of ps c)) [
    | inl m ↦ absurd (ground arith)
    | inr (v, m) ↦
        let same : rs ≡ (v, c) ∷ ss = ground arith in
        let (own, others) = subst (All P) same h in ((v, m, own), ranked_back P ps cs n others)
  ]
]
