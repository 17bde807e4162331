-- ===== src/Consensus/Examples.antt =====
-- A small pool at concrete values. The floats stand for integers from -100 up, kept as their
-- distance from -100, so that a negation is at hand.
use syncinerary.Prelude.{ℕ, ◌+◌, ◌-◌, ◌*◌, ◌/◌, ◌≡◌, List, [], ◌∷◌, true, take, drop, leb}
use syncinerary.Prelude.Sorting.{All, leb-IsOrder}
use mathlib.Core.List.Perm
use syncinerary.Consensus.Scoring.{
  like_with_note, must_have, attraction, food, lodging, Vote, CandidatePlace, Floats,
  CandidateScore, Weights, scorable_of, key_leb, score_candidates,
}
use syncinerary.Consensus.Scoring.Votes.{score_candidates_order}
use syncinerary.Consensus.Shortlist.{target_size, ids, build_shortlist}
use syncinerary.Consensus.Shortlist.Selection.{shortlist_ranks_first}

abbrev shifted : Floats
shifted = record {
  Float = ℕ;
  of_int = λ n. n + 100;
  add = λ x y. x + y - 100;
  sub = λ x y. x + 100 - y;
  mul = λ x y. (x - 100) * (y - 100) + 100;
  div = λ x y. (x - 100) / (y - 100) + 100;
  neg = λ x. 200 - x;
  leb = leb;
}

abbrev weights : Weights shifted
weights = record { dislike_weight = 101; must_have_weight = 102 }

abbrev pool : List CandidatePlace
pool =
    record { id = 1; type = attraction; name_canonical = 98 ∷ [] }
    ∷ record { id = 2; type = lodging; name_canonical = 97 ∷ [] }
    ∷ record { id = 3; type = food; name_canonical = 97 ∷ [] }
    ∷ []

abbrev first_vote : Vote
first_vote = record { candidate_id = 1; traveler_id = 1; signal = like_with_note }

abbrev second_vote : Vote
second_vote = record { candidate_id = 3; traveler_id = 2; signal = must_have }

score_candidates_order_example :
    score_candidates shifted weights pool (second_vote ∷ first_vote ∷ []) 2
    ≡ score_candidates shifted weights pool (first_vote ∷ second_vote ∷ []) 2
score_candidates_order_example =
    score_candidates_order shifted weights pool (second_vote ∷ first_vote ∷ [])
      (first_vote ∷ second_vote ∷ []) 2 (Perm.swap first_vote second_vote [])

abbrev ranking : List (CandidateScore shifted)
ranking = score_candidates shifted weights pool (first_vote ∷ second_vote ∷ []) 2

shortlist_ranks_first_example :
    let selected = take (target_size 1 1) ranking in
    let excluded = drop (target_size 1 1) ranking in
    (build_shortlist shifted ranking 1 1 ≡ (ids shifted selected, ids shifted excluded))
    × All (λ s. All (λ t. key_leb shifted (scorable_of pool) s t ≡ true) excluded) selected
shortlist_ranks_first_example =
    shortlist_ranks_first shifted leb-IsOrder weights pool (first_vote ∷ second_vote ∷ []) 2 1 1
