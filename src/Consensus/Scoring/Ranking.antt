-- ===== src/Consensus/Scoring/Ranking.antt =====
-- The ranking of syncinerary/agents/aggregate.py.
use syncinerary.Prelude.{ℕ, ◌≡◌, refl, List, [], ◌∷◌, true, false, arith}
use mathlib.Core.List.{Perm}
use syncinerary.Prelude.Sorting.{
  IsOrder, IsSorted, then_by-IsOrder, IsOrder-on, sorted_by-perm, sorted_by-IsSorted,
}
use syncinerary.Consensus.Scoring.{
  Floats, CandidateScore, Weights, CandidatePlace, Vote, name_leb, name_of, score_order, name_order,
  key_leb, scorable_of, scores_of, score_candidates,
}

name_leb_total : (xs ys : List ℕ) → name_leb xs ys ≡ false → name_leb ys xs ≡ true
unfolding name_leb
name_leb_total [] ys h = cc
name_leb_total (x ∷ xs) [] h = refl
name_leb_total (x ∷ xs) (y ∷ ys) h = ground (arith, name_leb_total xs ys)

name_leb_trans :
    (xs ys zs : List ℕ) → name_leb xs ys ≡ true → name_leb ys zs ≡ true → name_leb xs zs ≡ true
unfolding name_leb
name_leb_trans [] ys zs h k = refl
name_leb_trans (x ∷ xs) [] zs h k = cc
name_leb_trans (x ∷ xs) (y ∷ ys) [] h k = cc
name_leb_trans (x ∷ xs) (y ∷ ys) (z ∷ zs) h k = ground (arith, name_leb_trans xs ys zs)

name_leb-IsOrder : IsOrder name_leb
name_leb-IsOrder = record { total = name_leb_total; trans = name_leb_trans }

-- The comparison of floats that are no NaN.
abbrev pub FloatOrder : Floats → Type 0
FloatOrder fl = IsOrder fl.leb

module _ (fl : Floats) (order : FloatOrder fl) where
  pub key_leb-IsOrder : (scorable : List CandidatePlace) → IsOrder (key_leb fl scorable)
  key_leb-IsOrder scorable =
      then_by-IsOrder (score_order fl) (name_order fl scorable)
        (IsOrder-on (λ (s : CandidateScore fl). fl.neg s.score) order)
        (IsOrder-on (λ (s : CandidateScore fl). name_of s.candidate_id scorable [])
          name_leb-IsOrder)

  -- If floats are totally ordered, the ranking holds each candidate that is no lodging, scored on
  -- the votes for it, as often as the pool does, ordered by falling score and then by name.
  pub score_candidates-ranked :
      (w : Weights fl) (candidates : List CandidatePlace) (votes : List Vote) (travelers : ℕ)
      → Perm
          (score_candidates fl w candidates votes travelers)
          (scores_of fl w (scorable_of candidates) votes travelers)
        × IsSorted
            (key_leb fl (scorable_of candidates))
            (score_candidates fl w candidates votes travelers)
  unfolding score_candidates
  score_candidates-ranked w candidates votes travelers =
      let scorable = scorable_of candidates in
      let scores = scores_of fl w scorable votes travelers in
      (
        sorted_by-perm (key_leb fl scorable) scores,
        sorted_by-IsSorted (key_leb-IsOrder scorable) scores,
      )
