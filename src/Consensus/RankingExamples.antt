-- ===== src/Consensus/RankingExamples.antt =====
-- The ranking of three cards, two of which have the same votes. The floats stand for integers: a pair
-- is the difference of its numbers. A product is taken with what is not negative.
use native.Mathlib.Nat.{le-div_iff_mul-le, div-mul-le_self, mul-le-mul_right, add-mul}
use syncinerary.Prelude.{
  ℕ, ◌+◌, ◌-◌, ◌*◌, ◌/◌, ◌≤◌, ◌<◌, ◌≡◌, refl, List, [], ◌∷◌, ◌++◌, Bool, true, ◌&&◌, any_by, leb,
  ◌==◌, if◌then◌else◌, arith, Bool-cases, inl, inr,
}
use syncinerary.Consensus.Scoring.{
  like, attraction, food, lodging, Vote, CandidatePlace, Floats, CandidateScore, Weights,
  scorable_of, name_order, score_candidates,
}
use syncinerary.Consensus.Scoring.Dominance.{
  Rounds, is_offered, score_candidates-Favours, score_candidates-is_offered,
}

abbrev Difference : Type 0
Difference = ℕ × ℕ

abbrev difference_leb : Difference → Difference → Bool
difference_leb (p, q) (r, s) = leb (p + s) (r + q)

-- Rounded towards zero.
abbrev divided : Difference → ℕ → Difference
divided (p, q) n = if leb q p then ((p - q) / n, 0) else (0, (q - p) / n)

abbrev differences : Floats
differences = record {
  Float = Difference;
  of_int = λ n. (n, 0);
  add = λ (p, q) (r, s). (p + r, q + s);
  sub = λ (p, q) (r, s). (p + s, q + r);
  mul = λ (p, q) (r, s). (p * (r - s), q * (r - s));
  div = λ x (r, s). divided x (r - s);
  neg = λ (p, q). (q, p);
  leb = difference_leb;
}

quotient_mono : (x y n : ℕ) → 0 < n → x ≤ y → x / n ≤ y / n
quotient_mono x y n positive h =
    (le-div_iff_mul-le positive).1 (omega (arith, div-mul-le_self x n, h))

product_mono :
    (p q r s e : ℕ)
    → difference_leb (p, q) (r, s) ≡ true
    → difference_leb (p * e, q * e) (r * e, s * e) ≡ true
product_mono p q r s e h = ground (
  arith,
  mul-le-mul_right {m = p + s} {n = r + q} e (ground (arith, h)),
  add-mul p s e,
  add-mul r q e,
)

divided_mono :
    (x y : Difference) (n : ℕ)
    → 0 < n
    → difference_leb x y ≡ true
    → difference_leb (divided x n) (divided y n) ≡ true
divided_mono (p, q) (r, s) n positive h =
    let gap : p + s ≤ r + q = ground (arith, h) in
    elim (Bool-cases (leb q p)) [
      | inl a ↦ elim (Bool-cases (leb s r)) [
        | inl b ↦
            rw (a, b)
              (ground (arith, quotient_mono (p - q) (r - s) n positive (ground (arith, gap, a, b))))
        | inr b ↦ absurd (ground (arith, gap, a, b))
      ]
      | inr a ↦ elim (Bool-cases (leb s r)) [
        | inl b ↦ rw (a, b) (ground arith)
        | inr b ↦
            rw (a, b)
              (ground (arith, quotient_mono (s - r) (q - p) n positive (ground (arith, gap, a, b))))
      ]
    ]

differences-Rounds : Rounds differences
differences-Rounds = record {
  order = record {
    total = λ (p, q) (r, s) h. ground (arith, h);
    trans = λ (p, q) (r, s) (t, u) h k. ground (arith, h, k);
  };
  of_int = λ a b h. ground (arith, h);
  add = λ (p, q) (p', q') (r, s) (r', s') h k. ground (arith, h, k);
  sub = λ (p, q) (p', q') (r, s) (r', s') h k. ground (arith, h, k);
  mul = λ (p, q) (p', q') (r, s) k h. product_mono p q p' q' (r - s) h;
  div = λ x y n positive h. divided_mono x y (n - 0) (omega (arith, positive)) h;
  neg = λ (p, q) (r, s) h. ground (arith, h);
  neg_back = λ (p, q) (r, s) h. ground (arith, h);
}

abbrev weights : Weights differences
weights = record { dislike_weight = (1, 0); must_have_weight = (2, 0) }

abbrev cards : List CandidatePlace
cards =
    record { id = 1; type = attraction; name_canonical = 98 ∷ [] }
    ∷ record { id = 2; type = lodging; name_canonical = 97 ∷ [] }
    ∷ record { id = 3; type = food; name_canonical = 97 ∷ [] }
    ∷ []

abbrev votes : List Vote
votes =
    record { candidate_id = 1; traveler_id = 1; signal = like }
    ∷ record { candidate_id = 3; traveler_id = 2; signal = like }
    ∷ []

abbrev first : CandidateScore differences
first = record {
  candidate_id = 3;
  votes_pos = 1;
  votes_neg = 0;
  votes_must = 0;
  votes_total = 2;
  acceptance = (0, 0);
  must_have_bonus = (0, 0);
  score = (0, 0);
}

abbrev second : CandidateScore differences
second = record first { candidate_id = 1 }

-- The scores tie, and the names decide.
cards-ranked :
    score_candidates differences weights cards votes 2 ≡ [] ++ first ∷ ([] ++ second ∷ [])
unfolding score_candidates
cards-ranked = refl

score_candidates-Favours_example :
    (difference_leb first.score second.score ≡ true)
    × (difference_leb second.score first.score ≡ true)
    × (name_order differences (scorable_of cards) first second ≡ true)
score_candidates-Favours_example =
    score_candidates-Favours differences differences-Rounds weights refl refl cards votes 2 [] first
      [] second [] cards-ranked
      (record { positive = omega arith; dislikes = omega arith; musts = omega arith })

score_candidates-is_offered_example :
    any_by (λ s. s.candidate_id == 2) (score_candidates differences weights cards votes 2)
    ≡ any_by (λ c. is_offered c && (c.id == 2)) cards
score_candidates-is_offered_example =
    score_candidates-is_offered differences weights votes 2 cards 2
