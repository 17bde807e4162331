-- ===== src/Consensus/Scoring/Votes.antt =====
-- Which votes count for what in syncinerary/agents/aggregate.py.
use mathlib.Core.List.{Perm, Permᴰ}
use native.Mathlib.Nat.{ℕ_set}
use mathlib.Core.Logic.{∥∥₁_elim}
use syncinerary.Prelude.{
  ℕ, ◌+◌, ◌≡◌, refl, ap, ◌∙◌, List, [], ◌∷◌, map, Bool, count_by, length, arith,
}
use syncinerary.Prelude.Sorting.{sorted_by}
use syncinerary.Consensus.Scoring.{
  Floats, Weights, CandidatePlace, Vote, like, like_with_note, is_positive, is_dislike,
  is_must_have, votes_at, key_leb, score_candidate, scores_of, scorable_of, score_candidates,
}

-- Every vote counts once.
votes_count_once :
    (votes : List Vote)
    → count_by is_positive votes + count_by is_dislike votes + count_by is_must_have votes
      ≡ length votes
votes_count_once [] = refl
votes_count_once (v ∷ votes) = ground (arith, votes_count_once votes)

-- A note taken off a vote.
without_note : Vote → Vote
without_note v = record v { signal = elim v.signal [ like_with_note ↦ like | s ↦ s ] }

counted-permᴰ :
    (p : Vote → Bool) (i : ℕ) {votes votes' : List Vote}
    → Permᴰ votes votes'
    → count_by p (votes_at i votes) ≡ count_by p (votes_at i votes')
counted-permᴰ p i Permᴰ.nil = refl
counted-permᴰ p i (Permᴰ.cons e d) = rw e (ground (arith, counted-permᴰ p i d))
counted-permᴰ p i (Permᴰ.swap e f) = rw (e, f) (ground arith)
counted-permᴰ p i (Permᴰ.trans d d') = counted-permᴰ p i d ∙ counted-permᴰ p i d'

counted-perm :
    (p : Vote → Bool) (i : ℕ) {votes votes' : List Vote}
    → Perm votes votes'
    → count_by p (votes_at i votes) ≡ count_by p (votes_at i votes')
counted-perm p i d = ∥∥₁_elim d (ℕ_set _ _) (counted-permᴰ p i)

-- The votes of two lists count alike for every candidate.
record CountsAgree (votes votes' : List Vote) : Type 0 where
  pos : (i : ℕ) → count_by is_positive (votes_at i votes) ≡ count_by is_positive (votes_at i votes')
  neg : (i : ℕ) → count_by is_dislike (votes_at i votes) ≡ count_by is_dislike (votes_at i votes')
  must :
      (i : ℕ) → count_by is_must_have (votes_at i votes) ≡ count_by is_must_have (votes_at i votes')

module _ (fl : Floats) (w : Weights fl) (travelers : ℕ) (votes votes' : List Vote)
    (agree : CountsAgree votes votes') where
  scores_of-CountsAgree :
      (scorable : List CandidatePlace)
      → scores_of fl w scorable votes travelers ≡ scores_of fl w scorable votes' travelers
  unfolding score_candidate
  scores_of-CountsAgree [] = refl
  scores_of-CountsAgree (c ∷ cs) =
      rw (agree.pos c.id, agree.neg c.id, agree.must c.id, scores_of-CountsAgree cs) refl

  score_candidates-CountsAgree :
      (candidates : List CandidatePlace)
      → score_candidates fl w candidates votes travelers
        ≡ score_candidates fl w candidates votes' travelers
  unfolding score_candidates
  score_candidates-CountsAgree candidates =
      ap (sorted_by (key_leb fl (scorable_of candidates)))
        (scores_of-CountsAgree (scorable_of candidates))

without_note-CountsAgree : (votes : List Vote) → CountsAgree (map without_note votes) votes
unfolding without_note
without_note-CountsAgree votes = record { pos = pos votes; neg = neg votes; must = must votes }
  where
    pos :
        (votes : List Vote) (i : ℕ)
        → count_by is_positive (votes_at i (map without_note votes))
          ≡ count_by is_positive (votes_at i votes)
    pos [] i = refl
    pos (v ∷ votes) i = ground (arith, pos votes i)

    neg :
        (votes : List Vote) (i : ℕ)
        → count_by is_dislike (votes_at i (map without_note votes))
          ≡ count_by is_dislike (votes_at i votes)
    neg [] i = refl
    neg (v ∷ votes) i = ground (arith, neg votes i)

    must :
        (votes : List Vote) (i : ℕ)
        → count_by is_must_have (votes_at i (map without_note votes))
          ≡ count_by is_must_have (votes_at i votes)
    must [] i = refl
    must (v ∷ votes) i = ground (arith, must votes i)

-- A note on a like changes no score and no rank: the ranking is that of the same votes with every
-- `like_with_note` turned into a plain like.
score_candidates_notes :
    (fl : Floats) (w : Weights fl) (candidates : List CandidatePlace) (votes : List Vote)
    (travelers : ℕ)
    → score_candidates fl w candidates (map without_note votes) travelers
      ≡ score_candidates fl w candidates votes travelers
score_candidates_notes fl w candidates votes travelers =
    score_candidates-CountsAgree fl w travelers (map without_note votes) votes
      (without_note-CountsAgree votes) candidates

-- The ranking does not depend on the order in which the votes are read.
pub score_candidates_order :
    (fl : Floats) (w : Weights fl) (candidates : List CandidatePlace) (votes votes' : List Vote)
    (travelers : ℕ)
    → Perm votes votes'
    → score_candidates fl w candidates votes travelers
      ≡ score_candidates fl w candidates votes' travelers
score_candidates_order fl w candidates votes votes' travelers p =
    score_candidates-CountsAgree fl w travelers votes votes'
      (record {
        pos = λ i. counted-perm is_positive i p;
        neg = λ i. counted-perm is_dislike i p;
        must = λ i. counted-perm is_must_have i p;
      })
      candidates
