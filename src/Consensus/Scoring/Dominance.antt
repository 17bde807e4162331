-- ===== src/Consensus/Scoring/Dominance.antt =====
-- What the votes decide about the ranking of syncinerary/agents/aggregate.py.
use syncinerary.Prelude.{
  ℕ, ◌≤◌, ◌<◌, ◌≡◌, refl, ap, subst, List, [], ◌∷◌, ◌++◌, Bool, true, false, ◌&&◌, ◌||◌, not,
  any_by, count_by, ltb, ◌==◌, arith, Bool-cases, inl, inr, ◌∙◌,
}
use syncinerary.Prelude.Sorting.{
  All, IsSorted, sorted_by-All, sorted_by-IsSorted, any_by-sorted_by, All-append-right, All-middle,
  IsSorted-middle,
}
use syncinerary.Consensus.Scoring.{
  Floats, CandidateScore, Weights, CandidatePlace, CandidateType, attraction, food, lodging, Vote,
  is_positive, is_dislike, is_must_have, is_lodging, votes_at, score_order, name_order, key_leb,
  acceptance_of, score_candidate, scorable_of, scores_of, score_candidates,
}
use syncinerary.Consensus.Scoring.Ranking.{FloatOrder, key_leb-IsOrder}

-- Floats are ordered and rounding keeps the order: this is so while no NaN comes up.
pub record Rounds (fl : Floats) : Type 0 where
  pub order : FloatOrder fl
  pub of_int : (a b : ℕ) → a ≤ b → fl.leb (fl.of_int a) (fl.of_int b) ≡ true
  pub add :
      (x x' y y' : fl.Float)
      → fl.leb x x' ≡ true
      → fl.leb y y' ≡ true
      → fl.leb (fl.add x y) (fl.add x' y') ≡ true
  pub sub :
      (x x' y y' : fl.Float)
      → fl.leb x x' ≡ true
      → fl.leb y' y ≡ true
      → fl.leb (fl.sub x y) (fl.sub x' y') ≡ true
  pub mul :
      (x x' k : fl.Float)
      → fl.leb (fl.of_int 0) k ≡ true
      → fl.leb x x' ≡ true
      → fl.leb (fl.mul x k) (fl.mul x' k) ≡ true
  pub div :
      (x x' : fl.Float) (n : ℕ)
      → 0 < n
      → fl.leb x x' ≡ true
      → fl.leb (fl.div x (fl.of_int n)) (fl.div x' (fl.of_int n)) ≡ true
  pub neg : (x y : fl.Float) → fl.leb x y ≡ true → fl.leb (fl.neg y) (fl.neg x) ≡ true
  pub neg_back : (x y : fl.Float) → fl.leb (fl.neg y) (fl.neg x) ≡ true → fl.leb x y ≡ true

-- The votes speak no less for `j` than for `i`.
pub record Favours (votes : List Vote) (i j : ℕ) : Type 0 where
  pub positive : count_by is_positive (votes_at i votes) ≤ count_by is_positive (votes_at j votes)
  pub dislikes : count_by is_dislike (votes_at j votes) ≤ count_by is_dislike (votes_at i votes)
  pub musts : count_by is_must_have (votes_at i votes) ≤ count_by is_must_have (votes_at j votes)

module _ (fl : Floats) (laws : Rounds fl) (w : Weights fl)
    (fair_dislike : fl.leb (fl.of_int 0) w.dislike_weight ≡ true)
    (fair_must : fl.leb (fl.of_int 0) w.must_have_weight ≡ true) where
  acceptance_of-le :
      (p p' n n' travelers : ℕ)
      → p ≤ p'
      → n' ≤ n
      → fl.leb (acceptance_of fl w p n travelers) (acceptance_of fl w p' n' travelers) ≡ true
  unfolding acceptance_of
  acceptance_of-le p p' n n' travelers h k = elim (Bool-cases (ltb 0 travelers)) [
    | inl e ↦ rw e (
        laws.div _ _ travelers (ground (arith, e)) (
          laws.sub _ _ _ _ (laws.of_int p p' h)
            (laws.mul _ _ w.dislike_weight fair_dislike (laws.of_int n' n k))))
    | inr e ↦ rw e (laws.of_int 0 0 (omega arith))
  ]

  score_candidate-le :
      (votes : List Vote) (i j travelers : ℕ)
      → Favours votes i j
      → fl.leb
          (score_candidate fl w i (votes_at i votes) travelers).score
          (score_candidate fl w j (votes_at j votes) travelers).score
        ≡ true
  unfolding score_candidate
  score_candidate-le votes i j travelers f =
      laws.add _ _ _ _ (acceptance_of-le _ _ _ _ travelers f.positive f.dislikes)
        (laws.mul _ _ w.must_have_weight fair_must (laws.of_int _ _ f.musts))

-- The candidate is one to vote on.
abbrev pub is_offered : CandidatePlace → Bool
is_offered c = elim c.type [ attraction ↦ true | food ↦ true | lodging ↦ false ]

offered_type :
    (t : CandidateType)
    → elim t [ attraction ↦ true | food ↦ true | lodging ↦ false ]
      ≡ not (elim t [ lodging ↦ true | _ ↦ false ])
offered_type attraction = refl
offered_type food = refl
offered_type lodging = refl

module _ (fl : Floats) (w : Weights fl) (votes : List Vote) (travelers : ℕ) where
  -- The score is that of the votes for its candidate.
  abbrev IsScored : CandidateScore fl → Type 0
  IsScored s =
      s.score
      ≡ (score_candidate fl w s.candidate_id (votes_at s.candidate_id votes) travelers).score

  scores_of-IsScored :
      (scorable : List CandidatePlace) → All IsScored (scores_of fl w scorable votes travelers)
  unfolding score_candidate
  scores_of-IsScored [] = tt
  scores_of-IsScored (c ∷ cs) = (refl, scores_of-IsScored cs)

  score_candidates-IsScored :
      (candidates : List CandidatePlace)
      → All IsScored (score_candidates fl w candidates votes travelers)
  unfolding score_candidates
  score_candidates-IsScored candidates =
      sorted_by-All (key_leb fl (scorable_of candidates)) IsScored
        (scores_of fl w (scorable_of candidates) votes travelers)
        (scores_of-IsScored (scorable_of candidates))

  scores_of-offered :
      (i : ℕ) (candidates : List CandidatePlace)
      → any_by (λ s. s.candidate_id == i) (scores_of fl w (scorable_of candidates) votes travelers)
        ≡ any_by (λ c. is_offered c && (c.id == i)) candidates
  unfolding score_candidate
  scores_of-offered i [] = refl
  scores_of-offered i (c ∷ cs) = elim (Bool-cases (is_lodging c)) [
    | inl e ↦ rw (offered_type c.type, e) (scores_of-offered i cs)
    | inr e ↦ rw (offered_type c.type, e) (ap (λ b. (c.id == i) || b) (scores_of-offered i cs))
  ]

  -- The ranking has an entry for an identifier exactly when it is that of an attraction or a place to
  -- eat among the candidates. Lodging is not ranked.
  pub score_candidates-is_offered :
      (candidates : List CandidatePlace) (i : ℕ)
      → any_by (λ s. s.candidate_id == i) (score_candidates fl w candidates votes travelers)
        ≡ any_by (λ c. is_offered c && (c.id == i)) candidates
  unfolding score_candidates
  score_candidates-is_offered candidates i =
      any_by-sorted_by (key_leb fl (scorable_of candidates)) (λ s. s.candidate_id == i)
        (scores_of fl w (scorable_of candidates) votes travelers)
      ∙ scores_of-offered i candidates

module _ (fl : Floats) (laws : Rounds fl) where
  key_leb-tie :
      (scorable : List CandidatePlace) (s t : CandidateScore fl)
      → key_leb fl scorable s t ≡ true
      → fl.leb s.score t.score ≡ true
      → (fl.leb t.score s.score ≡ true) × (name_order fl scorable s t ≡ true)
  key_leb-tie scorable s t before worse =
      let back : score_order fl t s ≡ true = laws.neg s.score t.score worse in
      let ahead : score_order fl s t ≡ true = ground (arith, before, back) in
      (laws.neg_back t.score s.score ahead, ground (arith, before, back, ahead))

-- A candidate that the votes favour in every way is not ranked behind: if `t` comes after `s` in the
-- ranking and has at least its positive votes and must-haves and at most its dislikes, the two scores
-- are equal, and the name of `s` is not after that of `t`. The weights are not negative, and floats
-- are ordered with a rounding that keeps the order.
pub score_candidates-Favours :
    (fl : Floats) (laws : Rounds fl) (w : Weights fl)
    → fl.leb (fl.of_int 0) w.dislike_weight ≡ true
    → fl.leb (fl.of_int 0) w.must_have_weight ≡ true
    → (candidates : List CandidatePlace) (votes : List Vote) (travelers : ℕ)
      (before : List (CandidateScore fl)) (s : CandidateScore fl)
      (between : List (CandidateScore fl)) (t : CandidateScore fl)
      (after : List (CandidateScore fl))
    → score_candidates fl w candidates votes travelers ≡ before ++ s ∷ (between ++ t ∷ after)
    → Favours votes s.candidate_id t.candidate_id
    → (fl.leb s.score t.score ≡ true)
      × (fl.leb t.score s.score ≡ true)
      × (name_order fl (scorable_of candidates) s t ≡ true)
unfolding score_candidates
score_candidates-Favours fl laws w d m candidates votes travelers before s between t after e f =
    let scored = score_candidates-IsScored fl w votes travelers candidates in
    let split = subst (All (IsScored fl w votes travelers)) e scored in
    let from_s =
      All-append-right (IsScored fl w votes travelers) before (s ∷ (between ++ t ∷ after)) split in
    let t_scored = All-middle (IsScored fl w votes travelers) between t after from_s.1 in
    let sorted : IsSorted (key_leb fl (scorable_of candidates))
        (before ++ s ∷ (between ++ t ∷ after)) =
      subst (IsSorted (key_leb fl (scorable_of candidates))) e (
        sorted_by-IsSorted (key_leb-IsOrder fl laws.order (scorable_of candidates))
          (scores_of fl w (scorable_of candidates) votes travelers)) in
    let worse : fl.leb s.score t.score ≡ true =
      rw (from_s.0, t_scored) (score_candidate-le fl laws w d m votes _ _ travelers f) in
    let (tie, names) =
      key_leb-tie fl laws (scorable_of candidates) s t
        (IsSorted-middle (key_leb fl (scorable_of candidates)) before s between t after sorted)
        worse in
    (worse, tie, names)
