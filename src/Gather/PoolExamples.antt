-- ===== src/Gather/PoolExamples.antt =====
-- The pool of a city on three places near each other and a place far away.
use mathlib.Core.List.{Perm}
use syncinerary.Prelude.{
  ℕ, ◌-◌, ◌≤◌, ◌≡◌, refl, List, [], ◌∷◌, map, true, not, ◌||◌, any_by, length, ltb, if◌then◌else◌,
  arith, ◌⊎◌,
}
use syncinerary.Prelude.Sorting.{sorted_by}
use syncinerary.Consensus.Scoring.{CandidateType, attraction, food}
use syncinerary.Transit.Request.{haversine_km}
use syncinerary.Gather.Pool.{
  PoolCandidate, is_near, holds, dense_clusters, mix_day_types, select_dense_pool,
}
use syncinerary.Gather.Pool.Clusters.{dense_clusters-covers}
use syncinerary.Gather.Pool.DayMix.{mix_day_types-perm}
use syncinerary.Gather.Pool.Members.{select_dense_pool-fills}
use syncinerary.Gather.PlaceExamples.{maths}

abbrev place : (id : ℕ) → CandidateType → (lat : ℕ) → PoolCandidate maths
place id type lat = record { id = id; type = type; lat = lat; lng = 0 }

abbrev four : List (PoolCandidate maths)
four = place 1 food 900 ∷ place 2 attraction 0 ∷ place 3 food 0 ∷ place 4 attraction 0 ∷ []

abbrev ids : List (PoolCandidate maths) → List ℕ
ids cards = map (λ (c : PoolCandidate maths). c.id) cards

-- The three that are near each other are the first cluster.
four-clustered : map ids (dense_clusters maths four) ≡ (2 ∷ 3 ∷ 4 ∷ []) ∷ (1 ∷ []) ∷ []
unfolding dense_clusters sorted_by
four-clustered = refl

four-mixed : ids (mix_day_types maths four 1) ≡ 2 ∷ 4 ∷ 1 ∷ 3 ∷ []
unfolding mix_day_types
four-mixed = refl

four-pooled : ids (select_dense_pool maths four 1 3) ≡ 2 ∷ 4 ∷ 3 ∷ []
unfolding select_dense_pool sorted_by
four-pooled = refl

no_gap : (n : ℕ) → (if ltb n n then n - n else n - n) ≡ 0
no_gap n = ground arith

near_itself : (c : PoolCandidate maths) → is_near maths c c ≡ true
unfolding is_near haversine_km
near_itself c = rw (no_gap c.lat, no_gap c.lng) refl

dense_clusters-covers_example :
    any_by (λ cluster. holds maths cluster 1) (dense_clusters maths four) ≡ holds maths four 1
dense_clusters-covers_example = dense_clusters-covers maths near_itself four 1

mix_day_types-perm_example : Perm (mix_day_types maths four 1) four
mix_day_types-perm_example = mix_day_types-perm maths four 1

select_dense_pool-fills_example :
    let pool = select_dense_pool maths four 1 3 in
    (length pool ≤ 3)
    × (((not (holds maths pool 1) || holds maths four 1) ≡ true)
        × ((length pool ≡ 3) ⊎ (holds maths pool 1 ≡ holds maths four 1)))
select_dense_pool-fills_example =
    select_dense_pool-fills maths four 1 3 1 (omega arith) (omega arith)
