-- ===== src/Consensus/Shortlist/Selection.antt =====
-- What the shortlist of syncinerary/agents/shortlist.py selects.
use syncinerary.Prelude.{
  ℕ, ◌*◌, min, ◌≡◌, refl, ap, sym, ◌∙◌, List, ◌++◌, true, length, take, drop, subst,
  take-append-drop, length-take, length-map,
}
use mathlib.Core.List.{map-append}
use syncinerary.Prelude.Sorting.{All, IsSorted, IsSorted-append}
use syncinerary.Consensus.Scoring.{
  Floats, CandidateScore, Weights, CandidatePlace, Vote, key_leb, scorable_of, score_candidates,
}
use syncinerary.Consensus.Scoring.Ranking.{FloatOrder, score_candidates-ranked}
use syncinerary.Consensus.Shortlist.{target_size, ids, build_shortlist}

module _ (fl : Floats) where
  -- The shortlist and the excluded rest are the ranking cut in two: nothing is lost or reordered,
  -- and the shortlist has `days * slots_per_day` entries, or all of a shorter ranking.
  build_shortlist-splits :
      (scores : List (CandidateScore fl)) (days slots : ℕ)
      → let split = build_shortlist fl scores days slots in
        (split.0 ++ split.1 ≡ ids fl scores) × (length split.0 ≡ min (days * slots) (length scores))
  unfolding build_shortlist
  build_shortlist-splits scores days slots =
      let n = days * slots in
      (
        sym (map-append _ (take n scores) (drop n scores))
            ∙ ap (ids fl) (take-append-drop n scores),
        length-map (λ (s : CandidateScore fl). s.candidate_id) (take n scores)
            ∙ length-take n scores,
      )

  -- If floats are totally ordered, no place that is left out ranks before one on the shortlist:
  -- each selected entry of the ranking has a key that does not come after that of any excluded one.
  pub shortlist_ranks_first :
      (order : FloatOrder fl) (w : Weights fl) (candidates : List CandidatePlace)
      (votes : List Vote) (travelers days slots : ℕ)
      → let scores = score_candidates fl w candidates votes travelers in
        let selected = take (target_size days slots) scores in
        let excluded = drop (target_size days slots) scores in
        (build_shortlist fl scores days slots ≡ (ids fl selected, ids fl excluded))
        × All (λ s. All (λ t. key_leb fl (scorable_of candidates) s t ≡ true) excluded) selected
  unfolding build_shortlist
  shortlist_ranks_first order w candidates votes travelers days slots =
      let le = key_leb fl (scorable_of candidates) in
      let n = target_size days slots in
      let scores = score_candidates fl w candidates votes travelers in
      let (_, sorted) = score_candidates-ranked fl order w candidates votes travelers in
      (
        refl,
        IsSorted-append le (take n scores) (drop n scores)
            (subst (IsSorted le) (sym (take-append-drop n scores)) sorted),
      )
