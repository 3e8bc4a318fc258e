-- ===== src/Dispatch/Ranking.antt =====
-- The order of the ranking of trips/trips.service.ts: `rankCandidates`.
use mathlib.Core.List.{Perm}
use mathlib.Core.List.Perm
use novax_backend.Common.{
  ℕ, ◌≤◌, ◌≡◌, refl, ap, ◌∙◌, inl, inr, List, [], ◌∷◌, map, arith, leb, leb→le, Bool-cases, All,
}
use novax_backend.Dispatch.{
  Candidate, Reputation, Scored, insert_scored, sort_scored, score_candidate, rank_candidates,
}

abbrev pub IsBelow : ℕ → Scored → Type 0
IsBelow bound x = x.score ≤ bound

-- Each scores at least as much as all that follow.
abbrev pub IsRanked : List Scored → Type 0
IsRanked [] = Unit
IsRanked (x ∷ xs) = All (IsBelow x.score) xs × IsRanked xs

IsBelow-weaken : (a b : ℕ) (xs : List Scored) → a ≤ b → All (IsBelow a) xs → All (IsBelow b) xs
IsBelow-weaken a b [] h all = tt
IsBelow-weaken a b (x ∷ xs) h all = (omega arith, IsBelow-weaken a b xs h all.1)

insert_scored-IsBelow :
    (b : ℕ) (x : Scored) (ys : List Scored)
    → x.score ≤ b
    → All (IsBelow b) ys
    → All (IsBelow b) (insert_scored x ys)
unfolding insert_scored
insert_scored-IsBelow b x [] h all = (h, tt)
insert_scored-IsBelow b x (y ∷ ys) h all = elim (Bool-cases (leb y.score x.score)) [
  | inl e ↦ rw e (h, all)
  | inr e ↦ rw e (all.0, insert_scored-IsBelow b x ys h all.1)
]

insert_scored-IsRanked :
    (x : Scored) (ys : List Scored) → IsRanked ys → IsRanked (insert_scored x ys)
unfolding insert_scored
insert_scored-IsRanked x [] r = (tt, tt)
insert_scored-IsRanked x (y ∷ ys) r = elim (Bool-cases (leb y.score x.score)) [
  | inl e ↦
      let near = leb→le y.score x.score e in
      rw e ((near, IsBelow-weaken y.score x.score ys near r.0), r)
  | inr e ↦
      rw e (insert_scored-IsBelow y.score x ys (ground arith) r.0, insert_scored-IsRanked x ys r.1)
]

insert_scored-perm : (x : Scored) (ys : List Scored) → Perm (insert_scored x ys) (x ∷ ys)
unfolding insert_scored
insert_scored-perm x [] = Perm.rfl
insert_scored-perm x (y ∷ ys) = elim (Bool-cases (leb y.score x.score)) [
  | inl e ↦ rw e Perm.rfl
  | inr e ↦ rw e (Perm.trans (Perm.cons y (insert_scored-perm x ys)) (Perm.swap x y ys))
]

sort_scored-IsRanked : (xs : List Scored) → IsRanked (sort_scored xs)
unfolding sort_scored
sort_scored-IsRanked [] = tt
sort_scored-IsRanked (x ∷ xs) = insert_scored-IsRanked x (sort_scored xs) (sort_scored-IsRanked xs)

sort_scored-perm : (xs : List Scored) → Perm (sort_scored xs) xs
unfolding sort_scored
sort_scored-perm [] = Perm.rfl
sort_scored-perm (x ∷ xs) =
    Perm.trans (insert_scored-perm x (sort_scored xs)) (Perm.cons x (sort_scored-perm xs))

module _ (now : ℕ) (reputation_of : ℕ → Reputation) where
  abbrev scores : List Candidate → List Scored
  scores = map (score_candidate now reputation_of)

  map-id-scores :
      (cs : List Candidate)
      → map (λ (s : Scored). s.id) (scores cs) ≡ map (λ (c : Candidate). c.driver_id) cs
  unfolding score_candidate
  map-id-scores [] = refl
  map-id-scores (c ∷ cs) = ap (λ l. c.driver_id ∷ l) (map-id-scores cs)

  rank_candidates_lem :
      (cs : List Candidate)
      → rank_candidates now reputation_of cs ≡ map (λ (s : Scored). s.id) (sort_scored (scores cs))
  unfolding rank_candidates
  rank_candidates_lem [] = refl
  rank_candidates_lem (c ∷ []) = refl
  rank_candidates_lem (c ∷ d ∷ rest) = refl

  -- The ranking offers to every candidate of the shortlist once and to no other driver, in an
  -- order of scores that never rises.
  pub rank_candidates-IsRanked :
      (cs : List Candidate)
      → (xs : List Scored) × (rank_candidates now reputation_of cs ≡ map (λ (s : Scored). s.id) xs)
        × IsRanked xs
        × Perm xs (map (score_candidate now reputation_of) cs)
        × Perm (rank_candidates now reputation_of cs) (map (λ (c : Candidate). c.driver_id) cs)
  rank_candidates-IsRanked cs = (
    sort_scored (scores cs),
    rank_candidates_lem cs,
    sort_scored-IsRanked (scores cs),
    sort_scored-perm (scores cs),
    rw (rank_candidates_lem cs, ← map-id-scores cs)
        (Perm.map (λ (s : Scored). s.id) (sort_scored-perm (scores cs))),
  )

insert_scored-All :
    (P : ℕ → Type 0) (x : Scored) (ys : List Scored)
    → P x.id
    → All (λ (s : Scored). P s.id) ys
    → All (λ (s : Scored). P s.id) (insert_scored x ys)
unfolding insert_scored
insert_scored-All P x [] h all = (h, tt)
insert_scored-All P x (y ∷ ys) h all = elim (Bool-cases (leb y.score x.score)) [
  | inl e ↦ rw e (h, all)
  | inr e ↦ rw e (all.0, insert_scored-All P x ys h all.1)
]

sort_scored-All :
    (P : ℕ → Type 0) (xs : List Scored)
    → All (λ (s : Scored). P s.id) xs
    → All (λ (s : Scored). P s.id) (sort_scored xs)
unfolding sort_scored
sort_scored-All P [] all = tt
sort_scored-All P (x ∷ xs) all =
    insert_scored-All P x (sort_scored xs) all.0 (sort_scored-All P xs all.1)

All-ids :
    (P : ℕ → Type 0) (xs : List Scored)
    → All (λ (s : Scored). P s.id) xs
    → All P (map (λ (s : Scored). s.id) xs)
All-ids P [] all = tt
All-ids P (x ∷ xs) all = (all.0, All-ids P xs all.1)

module _ (now : ℕ) (reputation_of : ℕ → Reputation) (P : ℕ → Type 0) where
  All-scores :
      (cs : List Candidate)
      → All (λ (c : Candidate). P c.driver_id) cs
      → All (λ (s : Scored). P s.id) (map (score_candidate now reputation_of) cs)
  unfolding score_candidate
  All-scores [] all = tt
  All-scores (c ∷ cs) all = (all.0, All-scores cs all.1)

  -- What holds of every candidate holds of every ranked driver.
  pub rank_candidates-All :
      (cs : List Candidate)
      → All (λ (c : Candidate). P c.driver_id) cs
      → All P (rank_candidates now reputation_of cs)
  rank_candidates-All cs all = rw (rank_candidates_lem now reputation_of cs) (
      All-ids P (sort_scored (map (score_candidate now reputation_of) cs))
        (sort_scored-All P (map (score_candidate now reputation_of) cs) (All-scores cs all)))

sort_scored-cons :
    (x : Scored) (xs : List Scored) → sort_scored (x ∷ xs) ≡ insert_scored x (sort_scored xs)
unfolding sort_scored
sort_scored-cons x xs = refl

insert_scored-cons :
    (x : Scored) (ys : List Scored)
    → (z : Scored) × (zs : List Scored) × (insert_scored x ys ≡ z ∷ zs)
unfolding insert_scored
insert_scored-cons x [] = (x, [], refl)
insert_scored-cons x (y ∷ ys) = elim (Bool-cases (leb y.score x.score)) [
  | inl e ↦ (x, y ∷ ys, rw e)
  | inr e ↦ (y, insert_scored x ys, rw e)
]

-- A shortlist with anybody in it gives a ranking with somebody in it.
pub rank_candidates-cons :
    (now : ℕ) (reputation_of : ℕ → Reputation) (c : Candidate) (cs : List Candidate)
    → (d : ℕ) × (ds : List ℕ) × (rank_candidates now reputation_of (c ∷ cs) ≡ d ∷ ds)
rank_candidates-cons now reputation_of c cs =
    let first : Scored = score_candidate now reputation_of c in
    let rest : List Scored = map (score_candidate now reputation_of) cs in
    let (z, zs, e) = insert_scored-cons first (sort_scored rest) in
    (
      z.id,
      map (λ (s : Scored). s.id) zs,
      rank_candidates_lem now reputation_of (c ∷ cs)
          ∙ ap (map (λ (s : Scored). s.id)) (sort_scored-cons first rest ∙ e),
    )
