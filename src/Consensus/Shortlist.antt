-- ===== src/Consensus/Shortlist.antt =====
-- syncinerary/agents/shortlist.py: the head of the ranking is the shortlist.
pub mod Selection
use syncinerary.Prelude.{
  ℕ, zero, suc, ◌+◌, ◌*◌, ◌≤◌, ◌<◌, min, ◌≡◌, refl, ap, ◌∙◌, List, [], ◌∷◌, ◌++◌, map, Bool, true,
  length, take, drop, take-append-drop, length-take, length-map, arith,
}
use syncinerary.Prelude.Sorting.{All, IsSorted}
use syncinerary.Consensus.Scoring.{
  Floats, CandidateScore, Weights, CandidatePlace, Vote, score_candidates,
}

abbrev slots_per_day_default : ℕ
slots_per_day_default = 7

unfoldable pub target_size : (days slots_per_day : ℕ) → ℕ
target_size days slots_per_day = days * slots_per_day

module _ (fl : Floats) where
  abbrev pub ids : List (CandidateScore fl) → List ℕ
  ids scores = map (λ s. s.candidate_id) scores

  -- The selected and the excluded identifiers.
  unfoldable pub build_shortlist :
      List (CandidateScore fl) → (days slots_per_day : ℕ) → List ℕ × List ℕ
  unfolding target_size
  build_shortlist scores days slots_per_day =
      let limit = target_size days slots_per_day in
      (ids (take limit scores), ids (drop limit scores))
