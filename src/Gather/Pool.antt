-- ===== src/Gather/Pool.antt =====
-- The pool of a city of syncinerary/agents/gather/live.py: the dense clusters and the mix of a day.
-- Of a candidate, the identifier, the type and the coordinates are read here; the identifiers tell
-- candidates apart, also where the source looks an object up in a list.
pub mod Clusters
pub mod DayMix
pub mod Filling
pub mod Members
use syncinerary.Prelude.{
  ℕ, zero, suc, ◌+◌, ◌-◌, ◌/◌, ◌*◌, max, List, [], ◌∷◌, ◌++◌, map, none, Bool, true, false, ◌||◌,
  not, any_by, filter_by, count_by, take, drop, length, leb, ltb, ◌==◌, if◌then◌else◌,
}
use syncinerary.Prelude.Sorting.{sorted_by, then_by}
use syncinerary.Consensus.Scoring.{CandidateType, food}
use syncinerary.Transit.Request.{Maths, Float, TransitLocation, haversine_km, nearby_walking_km}

abbrev pub is_food : CandidateType → Bool
is_food food = true
is_food _ = false

pub record PoolCandidate (m : Maths) : Type 0 where
  pub id : ℕ
  pub type : CandidateType
  pub lat : Float m
  pub lng : Float m

abbrev pub min_stops_per_day : ℕ
min_stops_per_day = 5

abbrev pub food_per_day_target : ℕ
food_per_day_target = 3

abbrev pub pool_per_day : ℕ
pool_per_day = 8

-- The loop of `_mix_day_types`: two sights, then a meal, while either list lasts.
module _ {ℓ} {A : Type ℓ} where
  unfoldable pub mixed : (activities meals : List A) → List A
  mixed [] [] = []
  mixed [] (f ∷ meals) = f ∷ mixed [] meals
  mixed (a ∷ []) [] = a ∷ []
  mixed (a ∷ []) (f ∷ meals) = a ∷ f ∷ mixed [] meals
  mixed (a ∷ b ∷ activities) [] = a ∷ b ∷ mixed activities []
  mixed (a ∷ b ∷ activities) (f ∷ meals) = a ∷ b ∷ f ∷ mixed activities meals

  -- One offset of the deal: the element of each cluster that is that long.
  abbrev pub element_at : ℕ → List A → List A
  element_at n [] = []
  element_at zero (x ∷ xs) = x ∷ []
  element_at (suc n) (x ∷ xs) = element_at n xs

  unfoldable pub dealt_at : ℕ → List (List A) → List A
  dealt_at offset [] = []
  dealt_at offset (cluster ∷ active) = element_at offset cluster ++ dealt_at offset active

  -- Appending one by one up to the limit, from below it.
  unfoldable pub add_until : (limit : ℕ) → (selected more : List A) → List A
  add_until limit selected [] = selected
  add_until limit selected (x ∷ more) =
      let rest = add_until limit (selected ++ x ∷ []) more in
      if length (selected ++ x ∷ []) == limit then selected ++ x ∷ [] else rest

  -- The rounds over the clusters. Each adds an element or is the last, so `limit` of them are enough.
  unfoldable pub deal :
      (fuel limit offset : ℕ) (active : List (List A)) (selected : List A) → List A
  unfolding dealt_at add_until
  deal zero limit offset active selected = selected
  deal (suc fuel) limit offset active selected =
      let dealt = dealt_at offset active in
      let next = add_until limit selected dealt in
      let rest = deal fuel limit (suc offset) active next in
      if length dealt == 0 then selected else if leb limit (length next) then next else rest

  -- `xs or ys`
  abbrev pub or_all : List A → List A → List A
  or_all [] ys = ys
  or_all (x ∷ xs) ys = x ∷ xs

  -- The first element of the greatest key, as Python's `max` takes it.
  abbrev pub first_max : (key : A → ℕ) → A → List A → A
  first_max key x [] = x
  first_max key x (y ∷ ys) =
      let with_y = first_max key y ys in
      let without_y = first_max key x ys in if ltb (key x) (key y) then with_y else without_y

-- `-(-days // len(chosen)) if chosen else 1`
abbrev pub days_per_cluster : (days chosen : ℕ) → ℕ
days_per_cluster days zero = 1
days_per_cluster days (suc n) = (days + n) / suc n

module _ (m : Maths) where
  abbrev pool_location : PoolCandidate m → TransitLocation m
  pool_location c = record { place_id = none; lat = c.lat; lng = c.lng }

  -- `_distance_km` within `_DENSE_CLUSTER_RADIUS_KM`
  unfoldable pub is_near : PoolCandidate m → PoolCandidate m → Bool
  unfolding haversine_km
  is_near left right =
      m.floats.leb (haversine_km m (pool_location left) (pool_location right)) (nearby_walking_km m)

  abbrev pub holds : List (PoolCandidate m) → ℕ → Bool
  holds cards i = any_by (λ c. c.id == i) cards

  -- `ranked.index`
  abbrev rank_in : List (PoolCandidate m) → ℕ → ℕ
  rank_in [] i = 0
  rank_in (c ∷ cards) i = let rest = rank_in cards i in if c.id == i then 0 else suc rest

  -- The number of those near, the key of the seed. The elements that are left keep the order of
  -- `ranked`, so among equals the first of them has the lowest index.
  unfoldable pub seed_of : PoolCandidate m → List (PoolCandidate m) → PoolCandidate m
  unfolding is_near
  seed_of c remaining =
      first_max (λ x. count_by (λ other. is_near x other) (c ∷ remaining)) c remaining

  abbrev pub without : List (PoolCandidate m) → List (PoolCandidate m) → List (PoolCandidate m)
  without cluster remaining = filter_by (λ c. not (holds cluster c.id)) remaining

  -- The while loop, on fuel.
  unfoldable pub clusters_from : (fuel : ℕ) → List (PoolCandidate m) → List (List (PoolCandidate m))
  unfolding seed_of is_near
  clusters_from fuel [] = []
  clusters_from zero (c ∷ remaining) = []
  clusters_from (suc fuel) (c ∷ remaining) =
      let cluster = filter_by (is_near (seed_of c remaining)) (c ∷ remaining) in
      cluster ∷ clusters_from fuel (without cluster (c ∷ remaining))

  abbrev rank_of_group : List (PoolCandidate m) → List (PoolCandidate m) → ℕ
  rank_of_group ranked [] = 0
  rank_of_group ranked (c ∷ group) = rank_in ranked c.id

  unfoldable pub dense_clusters : List (PoolCandidate m) → List (List (PoolCandidate m))
  unfolding clusters_from
  dense_clusters candidates =
      sorted_by
        (then_by (λ a b. leb (length b) (length a))
          (λ a b. leb (rank_of_group candidates a) (rank_of_group candidates b)))
        (clusters_from (length candidates) candidates)

  unfoldable pub mix_day_types : List (PoolCandidate m) → (days : ℕ) → List (PoolCandidate m)
  unfolding mixed
  mix_day_types cluster days =
      let activities = filter_by (λ c. not (is_food c.type)) cluster in
      let meals = filter_by (λ c. is_food c.type) cluster in
      let food_share = food_per_day_target * max 1 days in
      let activity_share = pool_per_day * max 1 days - length (take food_share meals) in
      mixed (take activity_share activities) (take food_share meals)
      ++ drop (length (take activity_share activities)) activities
      ++ drop (length (take food_share meals)) meals

  unfoldable pub chosen_clusters :
      List (PoolCandidate m) → (days : ℕ) → List (List (PoolCandidate m))
  unfolding dense_clusters mix_day_types
  chosen_clusters candidates days =
      let clusters = dense_clusters candidates in
      let chosen =
        take days (or_all (filter_by (λ c. leb min_stops_per_day (length c)) clusters) clusters) in
      map (λ cluster. mix_day_types cluster (days_per_cluster days (length chosen))) chosen

  -- The rest of the pool, from the candidates that are not in it.
  unfoldable pub filled :
      (limit : ℕ) → (selected candidates : List (PoolCandidate m)) → List (PoolCandidate m)
  unfolding add_until
  filled limit selected candidates =
      if leb limit (length selected)
      then selected
      else add_until limit selected (without selected candidates)

  unfoldable pub select_dense_pool :
      List (PoolCandidate m) → (days limit : ℕ) → List (PoolCandidate m)
  unfolding chosen_clusters deal filled
  select_dense_pool candidates days limit =
      if leb days 0 || leb limit 0
      then []
      else filled limit (deal limit limit 0 (chosen_clusters candidates days) []) candidates
