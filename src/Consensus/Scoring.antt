-- ===== src/Consensus/Scoring.antt =====
-- syncinerary/agents/aggregate.py: the deterministic consensus score and the ranking by it.
-- Floating point is a parameter: the type, its operations and its order. A name is the list of its
-- code points, by which Python compares texts.
pub mod Dominance
pub mod Ranking
pub mod Votes
use syncinerary.Prelude.{
  ℕ, List, [], ◌∷◌, map, Bool, true, false, ◌&&◌, not, Option, none, some, count_by, filter_by, ltb,
  ◌==◌, if◌then◌else◌,
}
use syncinerary.Prelude.Sorting.{sorted_by, then_by}

pub data VoteSignal : Type 0 where
  like dislike like_with_note must_have : VoteSignal

pub data CandidateType : Type 0 where
  attraction food lodging : CandidateType

pub record Vote : Type 0 where
  pub candidate_id : ℕ
  pub traveler_id : ℕ
  pub signal : VoteSignal

pub record CandidatePlace : Type 0 where
  pub id : ℕ
  pub type : CandidateType
  pub name_canonical : List ℕ

-- The arithmetic of Python's floats.
pub record Floats : Type 1 where
  pub Float : Type 0
  pub of_int : ℕ → Float
  pub add : Float → Float → Float
  pub sub : Float → Float → Float
  pub mul : Float → Float → Float
  pub div : Float → Float → Float
  pub neg : Float → Float
  pub leb : Float → Float → Bool

abbrev pub is_positive : Vote → Bool
is_positive v = elim v.signal [ like ↦ true | like_with_note ↦ true | _ ↦ false ]

abbrev pub is_dislike : Vote → Bool
is_dislike v = elim v.signal [ dislike ↦ true | _ ↦ false ]

abbrev pub is_must_have : Vote → Bool
is_must_have v = elim v.signal [ must_have ↦ true | _ ↦ false ]

abbrev pub is_lodging : CandidatePlace → Bool
is_lodging c = elim c.type [ lodging ↦ true | _ ↦ false ]

-- Python's order of texts, "not after".
unfoldable pub name_leb : List ℕ → List ℕ → Bool
name_leb [] ys = true
name_leb (x ∷ xs) [] = false
name_leb (x ∷ xs) (y ∷ ys) = let rest = name_leb xs ys in if x == y then rest else ltb x y

-- `name_by_id`: of two candidates with one identifier the later one gives the name.
unfoldable pub name_of : ℕ → List CandidatePlace → List ℕ → List ℕ
name_of i [] default = default
name_of i (c ∷ cs) default = name_of i cs (if c.id == i then c.name_canonical else default)

-- `votes_by_candidate.get(i, [])`
abbrev pub votes_at : ℕ → List Vote → List Vote
votes_at i votes = filter_by (λ v. v.candidate_id == i) votes

abbrev pub scorable_of : List CandidatePlace → List CandidatePlace
scorable_of candidates = filter_by (λ c. not (is_lodging c)) candidates

module _ (fl : Floats) where
  open fl use {Float, of_int, add, sub, mul, div, neg, leb}

  pub record CandidateScore : Type 0 where
    pub candidate_id : ℕ
    pub votes_pos : ℕ
    pub votes_neg : ℕ
    pub votes_must : ℕ
    pub votes_total : ℕ
    pub acceptance : Float
    pub must_have_bonus : Float
    pub score : Float

  pub record Weights : Type 0 where
    pub dislike_weight : Float
    pub must_have_weight : Float

  -- With no travelers there is no consensus to measure.
  unfoldable pub acceptance_of : Weights → (votes_pos votes_neg traveler_count : ℕ) → Float
  acceptance_of w votes_pos votes_neg traveler_count =
      if ltb 0 traveler_count
      then div (sub (of_int votes_pos) (mul (of_int votes_neg) w.dislike_weight))
          (of_int traveler_count)
      else of_int 0

  unfoldable pub score_candidate : Weights → ℕ → List Vote → ℕ → CandidateScore
  unfolding acceptance_of
  score_candidate w candidate_id votes traveler_count =
      let votes_pos = count_by is_positive votes in
      let votes_neg = count_by is_dislike votes in
      let votes_must = count_by is_must_have votes in
      let acceptance = acceptance_of w votes_pos votes_neg traveler_count in
      let bonus = mul (of_int votes_must) w.must_have_weight in
      record {
        candidate_id = candidate_id;
        votes_pos = votes_pos;
        votes_neg = votes_neg;
        votes_must = votes_must;
        votes_total = traveler_count;
        acceptance = acceptance;
        must_have_bonus = bonus;
        score = add acceptance bonus;
      }

  abbrev pub score_order : CandidateScore → CandidateScore → Bool
  score_order s t = leb (neg s.score) (neg t.score)

  abbrev pub name_order : List CandidatePlace → CandidateScore → CandidateScore → Bool
  name_order scorable s t =
      name_leb (name_of s.candidate_id scorable []) (name_of t.candidate_id scorable [])

  -- The comparison of two keys `(-score, name)`.
  abbrev pub key_leb : List CandidatePlace → CandidateScore → CandidateScore → Bool
  key_leb scorable = then_by score_order (name_order scorable)

  abbrev pub scores_of : Weights → List CandidatePlace → List Vote → ℕ → List CandidateScore
  scores_of w scorable votes traveler_count =
      map (λ c. score_candidate w c.id (votes_at c.id votes) traveler_count) scorable

  unfoldable pub score_candidates :
      Weights → List CandidatePlace → List Vote → ℕ → List CandidateScore
  unfolding name_of name_leb score_candidate sorted_by
  score_candidates w candidates votes traveler_count =
      let scorable = scorable_of candidates in
      sorted_by (key_leb scorable) (scores_of w scorable votes traveler_count)
