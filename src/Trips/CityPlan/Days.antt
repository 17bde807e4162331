-- ===== src/Trips/CityPlan/Days.antt =====
-- city_for_day of syncinerary/agents/manual_itinerary.py: the city that a day of the trip belongs to.
use syncinerary.Prelude.{
  ℕ, ◌+◌, String, List, [], ◌∷◌, Option, none, some, Bool, false, ◌||◌, Outcome, return, raise, ltb,
  if◌then◌else◌, str_eq,
}
use syncinerary.Trips.CityPlan.{Trip, city_day_counts}

data DayError : Type 0 where
  not_a_day allocation_incomplete not_one_count_each no_counts : DayError

abbrev is_city : String → List String → Bool
is_city name [] = false
is_city name (c ∷ cs) = str_eq name c || is_city name cs

-- `trip.cities or [trip.destination]`
abbrev cities_or_destination : Trip → List String
cities_or_destination trip = elim trip.cities [ [] ↦ trip.destination ∷ [] | c ∷ cs ↦ c ∷ cs ]

-- The loop over the cities and their counts; `zip` is strict.
city_from : (day offset : ℕ) → List String → List ℕ → Outcome DayError String
city_from day offset [] [] = raise allocation_incomplete
city_from day offset [] (n ∷ ns) = raise not_one_count_each
city_from day offset (c ∷ cs) [] = raise not_one_count_each
city_from day offset (c ∷ cs) (n ∷ ns) =
    let rest = city_from day (offset + n) cs ns in if ltb day (offset + n) then return c else rest

city_by_counts : Trip → ℕ → Outcome DayError String
unfolding city_from city_day_counts
city_by_counts trip day = elim (city_day_counts trip) [
  | return counts ↦ city_from day 0 (cities_or_destination trip) counts
  | raise e ↦ raise no_counts
]

-- A city that is given stands only while the trip has no allocation of its own.
abbrev kept_city : Trip → List ℕ → Option String → Option String
kept_city trip [] (some name) = if is_city name trip.cities then some name else none
kept_city trip [] none = none
kept_city trip (d ∷ ds) existing = none

city_for_day : Trip → ℕ → (existing_city : Option String) → Outcome DayError String
unfolding city_by_counts
city_for_day trip day existing =
    if ltb day trip.days
    then elim (kept_city trip trip.city_days existing) [
      | some name ↦ return name
      | none ↦ city_by_counts trip day
    ]
    else raise not_a_day
